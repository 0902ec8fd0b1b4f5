-- ===== src/Shell/Gap.antt =====
-- internal/shell/lock.go: Release gives the lock up before it removes the path. Here the calls of two other
-- sessions come around that removal.
use libra_flux.Base.{ℕ, suc, ◌≡◌, ◌≢◌, refl, ap, ◌∙◌, false, Option, none, some, arith, ok, ◌<◌}
use libra_flux.Base.Text.{GoString}
use libra_flux.Base.Assoc.{
  lookup, insert, erase, lookup-insert, lookup-insert_same, lookup-erase, lookup-erase_same,
}
use libra_flux.Shell.Lock.{
  ℕ_eq, LockIdentity, Content, encoded, Files, System, HeldLock, take, take_written, new_metadata,
  lock_open, open_and_lock, open_or_create, attempts, acquire_in, acquire, unlock, unlink,
  complete_identity,
}
use libra_flux.Shell.Exclusion.{Holds, Numbered}

-- A system in which no request fails.
pub record Works {E : Type 0} (sys : System E) : Type 0 where
  pub no_mkdir_error : sys.mkdir_error ≡ none
  pub no_open_error : sys.open_error ≡ none
  pub no_write_error : sys.write_error ≡ none

-- The lock that a session gets on an inode, and the files then.
abbrev pub granted : {E : Type 0} → System E → LockIdentity → ℕ → ℕ → HeldLock
granted sys id i h = record {
  inode = i;
  file = h;
  metadata = new_metadata sys (complete_identity sys id);
  released = false;
}

abbrev pub filed : {E : Type 0} → System E → LockIdentity → ℕ → ℕ → Files → Files
filed sys id i h f = record f {
  owners = insert i h f.owners;
  contents = insert i (encoded (new_metadata sys (complete_identity sys id))) f.contents;
}

take-Works :
    {E : Type 0} (sys : System E) (id : LockIdentity) (i h : ℕ) (f : Files)
    → sys.write_error ≡ none
    → take sys (complete_identity sys id) i h f ≡ (ok (granted sys id i h), filed sys id i h f)
unfolding take take_written
take-Works sys id i h f w =
    ap
      (λ (o : Option (_ × Content)).
        take_written o (new_metadata sys (complete_identity sys id)) i h
          (record f { owners = insert i h f.owners }))
      w

-- The call on a system that works is the opening of the file and its lock.
acquire-Works :
    {E : Type 0} (comm : GoString) (sys : System E) (id : LockIdentity) (f : Files) (at : Option ℕ)
    → Works sys
    → f.at_path ≡ at
    → (let (i, h, g) = open_or_create at f in
        lookup i g.owners ≡ none
        → acquire comm sys id f ≡ (ok (granted sys id i h), filed sys id i h g))
unfolding acquire acquire_in attempts open_and_lock lock_open
acquire-Works {E} comm sys id f at w p free =
    let whole = complete_identity sys id in
    let again = attempts comm sys whole 1 in
    let (i, h, g) = open_or_create at f in
    ap (λ (o : Option E). acquire_in comm sys id o f) w.no_mkdir_error
    ∙ ap (λ (o : Option E). open_and_lock comm sys whole again o f) w.no_open_error
    ∙ ap
        (λ (a : Option ℕ).
          let (j, k, u) = open_or_create a f in
          lock_open comm sys whole again (lookup j u.owners) j k u)
        p
    ∙ ap (λ (o : Option ℕ). lock_open comm sys whole again o i h g) free
    ∙ take-Works sys id i h g w.no_write_error

-- When a session that holds the lock releases it, a second session may acquire it after the lock is given
-- up, and a third after the path is then removed: on systems in which no request fails, and with
-- files in which no number is used that is still to come, both calls succeed, and after them each of
-- the two sessions has the lock of its own file, which is not the other's.
pub release-gap :
    {E : Type 0} (comm : GoString) (l : HeldLock) (f : Files) (second third : System E)
    (id2 id3 : LockIdentity)
    → Numbered f
    → Holds l f
    → Works second
    → Works third
    → (b : HeldLock) × (c : HeldLock) × (let after_second = acquire comm second id2 (unlock l f) in
        let after_third = acquire comm third id3 (unlink after_second.1) in
        (after_second.0 ≡ ok b)
        × (after_third.0 ≡ ok c)
        × (b.inode ≢ c.inode)
        × (lookup b.inode after_third.1.owners ≡ some b.file)
        × (lookup c.inode after_third.1.owners ≡ some c.file))
unfolding unlock unlink open_or_create
release-gap comm l f second third id2 id3 n holds w2 w3 =
    let below : l.inode < f.next = n.path_used l.inode holds.under_path in
    let owners = insert l.inode f.next (erase l.inode f.owners) in
    let fresh : lookup (suc f.next) owners ≡ none =
      rw
        (
          lookup-insert l.inode (suc f.next) f.next (erase l.inode f.owners),
          lookup-erase l.inode (suc f.next) f.owners,
        )
        (ground (arith, below, n.owners_used (suc f.next) (omega arith))) in
    let two =
      acquire-Works comm second id2 (unlock l f) (some l.inode) w2 holds.under_path
        (lookup-erase_same l.inode f.owners) in
    let middle = filed second id2 l.inode f.next (record (unlock l f) { next = suc f.next }) in
    let three = acquire-Works comm third id3 (unlink middle) none w3 refl fresh in
    (
      granted second id2 l.inode f.next,
      granted third id3 (suc f.next) (suc (suc f.next)),
      rw (two, three)
          (
            refl,
            refl,
            (λ e. absurd (omega (arith, e, below))),
            rw (lookup-insert (suc f.next) l.inode (suc (suc f.next)) owners)
                (ground (arith, below, lookup-insert_same l.inode f.next (erase l.inode f.owners))),
            lookup-insert_same (suc f.next) (suc (suc f.next)) owners,
          ),
    )
