-- ===== src/Shell/LockManager.antt =====
-- internal/shell: the lock of `Lock` and `Breaking` as what a shell uses of a lock manager. The system is
-- the same for all calls of a session.
use libra_flux.Base.{Option, none, some, ℤ}
use libra_flux.Base.Text.{GoString}
use libra_flux.Shell.Lock.{
  LockIdentity, Files, LockError, System, HeldLock, acquire, release, update_activity, status,
}
use libra_flux.Shell.Breaking.{Watch, Broken, break_lock}
use libra_flux.Shell.Session.{Locking}

-- The world of the shell: the lock's files, and what else there is.
abbrev of_files : {W A : Type 0} → W → A × Files → A × (Files × W)
of_files rest (a, f) = (a, (f, rest))

abbrev broken_in : {E : Type 0} → Files → Option (Broken E) → Option (LockError E) × Files
broken_in f none = (none, f)
broken_in f (some b) = (b.error, b.files)

unfoldable pub lock_manager :
    {E W : Type 0}
    → GoString
    → System E
    → LockIdentity
    → Watch
    → (ℤ → GoString)
    → Locking HeldLock (LockError E) (Files × W)
unfolding acquire release update_activity status break_lock
lock_manager comm sys id watch text = record {
  acquire = λ (f, w). of_files w (acquire comm sys id f);
  release = λ l (f, w). ((release l f).1, w);
  update_activity = λ l (f, w). let (e, m, g) = update_activity sys l f in (m, (g, w));
  last_activity = λ l. l.metadata.last_activity;
  status = λ (f, w). status sys f;
  break_lock = λ force (f, w). of_files w (broken_in f (break_lock sys watch 101 force f));
  now = λ w. sys.now;
  duration_text = text;
}
