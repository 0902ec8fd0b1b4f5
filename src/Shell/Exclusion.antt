-- ===== src/Shell/Exclusion.antt =====
-- internal/shell/lock.go: the sessions that hold the lock at once, when each call is one step and the
-- processes of the sessions that hold it are alive under the expected name.
use libra_flux.Base.{
  ℕ, suc, ◌≡◌, ◌≢◌, refl, ◌⊎◌, inl, inr, ◌≤◌, ◌<◌, true, false, Option, none, some, List, [], ◌∷◌,
  arith, ℤ, pos, ◌<ℤ◌, Result, ok, err, All,
}
use libra_flux.Base.Text.{GoString, =s_refl}
use libra_flux.Base.Assoc.{lookup, insert, lookup-insert, lookup-insert_same, lookup-erase}
use libra_flux.Shell.Lock.{
  ℕ_eq, LockMetadata, LockIdentity, Content, blank, garbled, encoded, Files, Acquired, recoverable,
  lock_open, open_and_lock, LockError, System, HeldLock, parsed, read_metadata, is_stale,
  take_written, open_or_create, take, attempts, acquire_in, acquire, new_metadata,
  complete_identity,
}

-- The process is alive and runs the shell.
pub record IsSession {E : Type 0} (comm : GoString) (sys : System E) (pid : ℤ) : Type 0 where
  pub positive : pos 0 <ℤ pid
  pub alive : sys.is_alive pid ≡ true
  pub named : sys.command_name pid ≡ ok comm

pub IsSession-fresh :
    {E : Type 0} (comm : GoString) (sys : System E) (d : LockMetadata)
    → IsSession comm sys d.pid
    → is_stale comm sys d ≡ false
unfolding is_stale
IsSession-fresh comm sys d h = ground (arith, h.alive, h.named, =s_refl comm)

-- A write that fails leaves nothing in the file that reads as metadata.
abbrev pub Honest : {E : Type 0} → System E → Type 0
Honest {E} sys =
    (e : E) (c : Content) → sys.write_error ≡ some (e, c) → (d : LockMetadata) → c ≢ encoded d

-- The lock is free, or a session holds it: the path leads to its file, whose lock is its own, and in
-- which no other process is named.
pub record Free (f : Files) : Type 0 where
  pub unowned : (i : ℕ) → f.at_path ≡ some i → lookup i f.owners ≡ none

pub record Holds (l : HeldLock) (f : Files) : Type 0 where
  pub under_path : f.at_path ≡ some l.inode
  pub own : lookup l.inode f.owners ≡ some l.file
  pub named :
      (d : LockMetadata) → lookup l.inode f.contents ≡ some (encoded d) → d.pid ≡ l.metadata.pid
  pub unreleased : l.released ≡ false

pub record Numbered (f : Files) : Type 0 where
  pub path_used : (i : ℕ) → f.at_path ≡ some i → i < f.next
  pub owners_used : (i : ℕ) → f.next ≤ i → lookup i f.owners ≡ none

abbrev pub AtMostOne : Files → List HeldLock → Type 0
AtMostOne f held = ((held ≡ []) × Free f) ⊎ ((l : HeldLock) × (held ≡ l ∷ []) × Holds l f)

pub record Exclusive (f : Files) (held : List HeldLock) : Type 0 where
  pub numbered : Numbered f
  pub at_most_one : AtMostOne f held

-- The sessions that hold the lock after a call of `Acquire`.
abbrev pub after_acquire :
    {E : Type 0} → Result (LockError E) HeldLock → List HeldLock → List HeldLock
after_acquire (ok l) held = l ∷ held
after_acquire (err e) held = held

abbrev pub Outcome : {E : Type 0} → List HeldLock → Acquired E → Type 0
Outcome held a = Exclusive a.1 (after_acquire a.0 held)

take_written-Exclusive :
    {E : Type 0} (o : Option (E × Content)) (d : LockMetadata) (i h : ℕ) (f : Files)
    → ((e : E) (c : Content) → o ≡ some (e, c) → (g : LockMetadata) → c ≢ encoded g)
    → Numbered f
    → f.at_path ≡ some i
    → lookup i f.owners ≡ some h
    → Outcome [] (take_written o d i h f)
unfolding take_written
take_written-Exclusive none d i h f honest n p o = record {
  numbered = record { path_used = n.path_used; owners_used = n.owners_used };
  at_most_one = inr (
    _,
    refl,
    record {
      under_path = p;
      own = o;
      named = λ g r. ground (arith, r, lookup-insert_same i (encoded d) f.contents);
      unreleased = refl;
    },
  );
}
take_written-Exclusive (some (e, c)) d i h f honest n p o = record {
  numbered = record {
    path_used = n.path_used;
    owners_used = λ j q. rw (lookup-erase i j f.owners) (ground (arith, n.owners_used j q));
  };
  at_most_one =
      inl (refl, record { unowned = λ j q. rw (lookup-erase i j f.owners) (ground (arith, p, q)) });
}

-- Another open file changes nothing of the path, the locks and the contents.
opened-Numbered : (f : Files) → Numbered f → Numbered (record f { next = suc f.next })
opened-Numbered f n = record {
  path_used = λ i p. omega (arith, n.path_used i p);
  owners_used = λ i q. n.owners_used i (omega (arith, q));
}

-- The file that is open has its lock to itself.
owned-Numbered :
    (f : Files) (i h : ℕ)
    → i < f.next
    → Numbered f
    → Numbered (record f { owners = insert i h f.owners })
owned-Numbered f i h less n = record {
  path_used = n.path_used;
  owners_used =
      λ j q. rw (lookup-insert i j h f.owners) (ground (arith, n.owners_used j q, less, q));
}

created-Numbered : (f : Files) → Numbered f → Numbered (open_or_create none f).2
unfolding open_or_create
created-Numbered f n = record {
  path_used = λ i p. ground (arith, p);
  owners_used = λ i q. n.owners_used i (omega (arith, q));
}

take-Exclusive :
    {E : Type 0} (sys : System E) (id : LockIdentity) (i h : ℕ) (f : Files)
    → Honest sys
    → Numbered f
    → f.at_path ≡ some i
    → Outcome [] (take sys id i h f)
unfolding take
take-Exclusive sys id i h f honest n p =
    take_written-Exclusive sys.write_error (new_metadata sys id) i h
      (record f { owners = insert i h f.owners }) honest (owned-Numbered f i h (n.path_used i p) n)
      p (lookup-insert_same i h f.owners)

parsed-recoverable :
    {E : Type 0} (comm : GoString) (sys : System E) (l : HeldLock) (c : Option Content)
    → IsSession comm sys l.metadata.pid
    → ((d : LockMetadata) → c ≡ some (encoded d) → d.pid ≡ l.metadata.pid)
    → recoverable comm sys (parsed c) ≡ false
parsed-recoverable comm sys l none s named = refl
parsed-recoverable comm sys l (some blank) s named = refl
parsed-recoverable comm sys l (some garbled) s named = refl
parsed-recoverable comm sys l (some (encoded d)) s named =
    IsSession-fresh comm sys d (rw (named d refl) s)

-- Its metadata, if they can be read, name a process that runs the shell.
held_recoverable :
    {E : Type 0} (comm : GoString) (sys : System E) (l : HeldLock) (f : Files)
    → IsSession comm sys l.metadata.pid
    → Holds l f
    → recoverable comm sys (read_metadata f) ≡ false
unfolding read_metadata
held_recoverable comm sys l f s holds =
    rw (holds.under_path) (parsed-recoverable comm sys l (lookup l.inode f.contents) s holds.named)

free-lock_open :
    {E : Type 0} (comm : GoString) (sys : System E) (id : LockIdentity) (again : Files → Acquired E)
    (o : Option ℕ) (i h : ℕ) (f : Files)
    → o ≡ none
    → Honest sys
    → Numbered f
    → f.at_path ≡ some i
    → Outcome [] (lock_open comm sys id again o i h f)
unfolding lock_open
free-lock_open comm sys id again none i h f u honest n p = take-Exclusive sys id i h f honest n p
free-lock_open comm sys id again (some other) i h f u honest n p = absurd cc

free-opened :
    {E : Type 0} (comm : GoString) (sys : System E) (id : LockIdentity) (again : Files → Acquired E)
    (at : Option ℕ) (f : Files)
    → f.at_path ≡ at
    → Honest sys
    → Numbered f
    → Free f
    → (let (i, h, g) = open_or_create at f in
        Outcome [] (lock_open comm sys id again (lookup i g.owners) i h g))
unfolding open_or_create
free-opened comm sys id again none f p honest n free =
    free-lock_open comm sys id again _ f.next (suc f.next) _ (n.owners_used f.next (omega arith))
      honest (created-Numbered f n) refl
free-opened comm sys id again (some i) f p honest n free =
    free-lock_open comm sys id again _ i f.next _ (free.unowned i p) honest (opened-Numbered f n) p

free-open_and_lock :
    {E : Type 0} (comm : GoString) (sys : System E) (id : LockIdentity) (again : Files → Acquired E)
    (o : Option E) (f : Files)
    → Honest sys
    → Numbered f
    → Free f
    → Outcome [] (open_and_lock comm sys id again o f)
unfolding open_and_lock
free-open_and_lock comm sys id again none f honest n free =
    free-opened comm sys id again f.at_path f refl honest n free
free-open_and_lock comm sys id again (some e) f honest n free = record {
  numbered = n;
  at_most_one = inl (refl, free);
}

-- A session that holds the lock keeps it while others try.
held-lock_open :
    {E : Type 0} (comm : GoString) (sys : System E) (id : LockIdentity) (again : Files → Acquired E)
    (o : Option ℕ) (l : HeldLock) (h : ℕ) (f : Files)
    → o ≡ some l.file
    → IsSession comm sys l.metadata.pid
    → Numbered f
    → Holds l f
    → Outcome (l ∷ []) (lock_open comm sys id again o l.inode h f)
unfolding lock_open
held-lock_open comm sys id again none l h f u s n holds = absurd cc
held-lock_open comm sys id again (some other) l h f u s n holds =
    rw (held_recoverable comm sys l f s holds)
      (record { numbered = n; at_most_one = inr (l, refl, holds) })

held-opened :
    {E : Type 0} (comm : GoString) (sys : System E) (id : LockIdentity) (again : Files → Acquired E)
    (at : Option ℕ) (l : HeldLock) (f : Files)
    → f.at_path ≡ at
    → IsSession comm sys l.metadata.pid
    → Numbered f
    → Holds l f
    → (let (i, h, g) = open_or_create at f in
        Outcome (l ∷ []) (lock_open comm sys id again (lookup i g.owners) i h g))
unfolding open_or_create
held-opened comm sys id again none l f p s n holds = absurd (ground (arith, p, holds.under_path))
held-opened comm sys id again (some i) l f p s n holds =
    let same : i ≡ l.inode = ground (arith, p, holds.under_path) in
    rw same (
      held-lock_open comm sys id again _ l f.next _ holds.own s (opened-Numbered f n) (record {
        under_path = holds.under_path;
        own = holds.own;
        named = holds.named;
        unreleased = holds.unreleased;
      }))

held-open_and_lock :
    {E : Type 0} (comm : GoString) (sys : System E) (id : LockIdentity) (again : Files → Acquired E)
    (o : Option E) (l : HeldLock) (f : Files)
    → IsSession comm sys l.metadata.pid
    → Numbered f
    → Holds l f
    → Outcome (l ∷ []) (open_and_lock comm sys id again o f)
unfolding open_and_lock
held-open_and_lock comm sys id again none l f s n holds =
    held-opened comm sys id again f.at_path l f refl s n holds
held-open_and_lock comm sys id again (some e) l f s n holds = record {
  numbered = n;
  at_most_one = inr (l, refl, holds);
}

-- The processes of all sessions that hold the lock run the shell.
abbrev pub Live : {E : Type 0} → GoString → System E → List HeldLock → Type 0
Live comm sys held = All (λ (l : HeldLock). IsSession comm sys l.metadata.pid) held

acquire_in-Exclusive :
    {E : Type 0} (comm : GoString) (sys : System E) (id : LockIdentity) (o : Option E) (f : Files)
    (held : List HeldLock)
    → Honest sys
    → Live comm sys held
    → Numbered f
    → AtMostOne f held
    → Outcome held (acquire_in comm sys id o f)
unfolding acquire_in attempts
acquire_in-Exclusive comm sys id (some e) f held honest live n one = record {
  numbered = n;
  at_most_one = one;
}
acquire_in-Exclusive comm sys id none f held honest live n (inl (e, free)) = rw e (
    free-open_and_lock comm sys (complete_identity sys id)
      (attempts comm sys (complete_identity sys id) 1) sys.open_error f honest n free)
acquire_in-Exclusive comm sys id none f held honest live n (inr (l, e, holds)) = rw e (
    held-open_and_lock comm sys (complete_identity sys id)
      (attempts comm sys (complete_identity sys id) 1) sys.open_error l f ((rw e at live).0) n
      holds)

-- A call of `Acquire`, successful or not, leaves at most one session with the lock, while the sessions
-- that hold it are live.
pub acquire-Exclusive :
    {E : Type 0} (comm : GoString) (sys : System E) (id : LockIdentity) (f : Files)
    (held : List HeldLock)
    → Honest sys
    → Live comm sys held
    → Exclusive f held
    → Outcome held (acquire comm sys id f)
unfolding acquire
acquire-Exclusive comm sys id f held honest live x =
    acquire_in-Exclusive comm sys id sys.mkdir_error f held honest live x.numbered x.at_most_one
