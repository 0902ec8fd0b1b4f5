-- ===== src/Shell/Calls.antt =====
-- internal/shell/lock.go: the calls of several sessions on one lock, one after another. Status, which
-- writes nothing, is no step. A Break that succeeds is taken to end the session that holds the lock.
use libra_flux.Base.{
  ℕ, ◌≡◌, ◌≢◌, refl, sym, ◌∙◌, inl, inr, Option, none, some, List, [], ◌∷◌, ◌++◌, arith, if_elim,
  Bool, Option-cases,
}
use mathlib.Core.Path.{subst}
use libra_flux.Base.Text.{GoString}
use libra_flux.Base.Assoc.{lookup, insert, lookup-insert_same, lookup-erase}
use libra_flux.Shell.Lock.{
  ℕ_eq, LockMetadata, LockIdentity, Content, encoded, Files, LockError, System, HeldLock, unlink,
  acquire, release, unlock, write_activity, update_activity,
}
use libra_flux.Shell.Breaking.{Watch, Broken, Sleeps, Outcome, break_lock, break_lock-Returns}
use libra_flux.Shell.Exclusion.{
  Honest, Live, Holds, Numbered, Exclusive, after_acquire, acquire-Exclusive,
}

-- The sessions that hold the lock after a call of `Break`: none, when it succeeds.
abbrev pub after_break : {E : Type 0} → Option (LockError E) → List HeldLock → List HeldLock
after_break none held = []
after_break (some e) held = held

-- One call on the lock, of any session: `u` and `after` are the files and the holders then.
pub data Call (E : Type 0) (comm : GoString) (f : Files) (held : List HeldLock) (u : Files)
    (after : List HeldLock) : Type 1 where
  acquires :
      (sys : System E) (id : LockIdentity)
      → Honest sys
      → Live comm sys held
      → u ≡ (acquire comm sys id f).1
      → after ≡ after_acquire (acquire comm sys id f).0 held
      → Call E comm f held u after
  updates :
      (sys : System E) (front back : List HeldLock) (l : HeldLock)
      → Honest sys
      → held ≡ front ++ l ∷ back
      → u ≡ (update_activity sys l f).2
      → after ≡ front ++ (update_activity sys l f).1 ∷ back
      → Call E comm f held u after
  releases :
      (front back : List HeldLock) (l : HeldLock)
      → held ≡ front ++ l ∷ back
      → u ≡ (release l f).1
      → after ≡ front ++ back
      → Call E comm f held u after
  breaks :
      (sys : System E) (w : Watch) (force : Bool) (b : Broken E)
      → Sleeps w
      → break_lock sys w 101 force f ≡ some b
      → u ≡ b.files
      → after ≡ after_break b.error held
      → Call E comm f held u after

-- The calls of any sessions, one after another.
pub data Calls (E : Type 0) (comm : GoString) (f : Files) (held : List HeldLock)
    : Files → List HeldLock → Type 1 where
  no_call : Calls E comm f held f held
  call :
      {g u : Files} {mid after : List HeldLock}
      → Calls E comm f held g mid
      → Call E comm g mid u after
      → Calls E comm f held u after

nothing_held : (front back : List HeldLock) (l : HeldLock) → [] ≢ front ++ l ∷ back
nothing_held [] back l e = cc
nothing_held (x ∷ front) back l e = cc

-- The session of a call is the one that holds the lock.
single :
    (front back : List HeldLock) (l m : HeldLock)
    → m ∷ [] ≡ front ++ l ∷ back
    → (front ≡ []) × (back ≡ []) × (l ≡ m)
single [] back l m e = ground (arith, e)
single (x ∷ []) back l m e = absurd cc
single (x ∷ y ∷ front) back l m e = absurd cc

written-Numbered :
    (f : Files) (i : ℕ) (c : Content)
    → Numbered f
    → Numbered (record f { contents = insert i c f.contents })
written-Numbered f i c n = record { path_used = n.path_used; owners_used = n.owners_used }

-- What is written into the lock of the session names its process, or nothing.
written-Holds :
    (l : HeldLock) (f : Files) (d : LockMetadata) (c : Content)
    → d.pid ≡ l.metadata.pid
    → ((g : LockMetadata) → c ≡ encoded g → g.pid ≡ l.metadata.pid)
    → Holds l f
    → Holds (record l { metadata = d }) (record f { contents = insert l.inode c f.contents })
written-Holds l f d c same names h = record {
  under_path = h.under_path;
  own = h.own;
  named = λ g r. names g (ground (arith, r, lookup-insert_same l.inode c f.contents)) ∙ sym same;
  unreleased = h.unreleased;
}

write_activity-Exclusive :
    {E : Type 0} (o : Option (E × Content)) (d : LockMetadata) (l : HeldLock) (f : Files)
    → ((e : E) (c : Content) → o ≡ some (e, c) → (g : LockMetadata) → c ≢ encoded g)
    → d.pid ≡ l.metadata.pid
    → Numbered f
    → Holds l f
    → Exclusive (write_activity o d l f).2 ((write_activity o d l f).1 ∷ [])
unfolding write_activity
write_activity-Exclusive (some (e, c)) d l f honest same n h = record {
  numbered = written-Numbered f l.inode c n;
  at_most_one = inr (_, refl, written-Holds l f d c same (λ g r. absurd (honest e c refl g r)) h);
}
write_activity-Exclusive none d l f honest same n h = record {
  numbered = written-Numbered f l.inode (encoded d) n;
  at_most_one =
      inr (_, refl, written-Holds l f d (encoded d) same (λ g r. ground (arith, r, same)) h);
}

update-Exclusive :
    {E : Type 0} (sys : System E) (l : HeldLock) (f : Files)
    → Honest sys
    → Numbered f
    → Holds l f
    → Exclusive (update_activity sys l f).2 ((update_activity sys l f).1 ∷ [])
unfolding update_activity
update-Exclusive sys l f honest n h =
    if_elim (λ (r : Option (LockError _) × HeldLock × Files). Exclusive r.2 (r.1 ∷ [])) l.released
      (λ e. record { numbered = n; at_most_one = inr (l, refl, h) })
      (λ e.
        write_activity-Exclusive sys.write_error
          (record (l.metadata) { last_activity = some sys.now }) l f honest refl n h)

release-Exclusive :
    (l : HeldLock) (f : Files) → Numbered f → Holds l f → Exclusive (release l f).1 []
unfolding release unlock unlink
release-Exclusive l f n h =
    if_elim (λ (r : HeldLock × Files). Exclusive r.1 []) l.released
      (λ e. absurd (ground (arith, e, h.unreleased)))
      (λ e. record {
        numbered = record {
          path_used = λ i p. absurd cc;
          owners_used =
              λ i q. rw (lookup-erase l.inode i f.owners) (ground (arith, n.owners_used i q));
        };
        at_most_one = inl (refl, record { unowned = λ i p. absurd cc });
      })

-- A refused Break changes nothing; one that succeeds leaves no file under the path.
break-Exclusive :
    {E : Type 0} (w : Watch) (f : Files) (held : List HeldLock) (b : Broken E)
    → Outcome w f b
    → Exclusive f held
    → Exclusive b.files (after_break b.error held)
unfolding unlink
break-Exclusive w f held b (inl (bad, quiet, same)) x = elim (Option-cases b.error) [
  | inl none_ ↦ absurd (bad none_)
  | inr (e, failed) ↦ rw (failed, same) x
]
break-Exclusive w f held b (inr (fine, gone, k, sent, why)) x =
    rw (fine, gone)
      (record {
        numbered = record { path_used = λ i e. absurd cc; owners_used = x.numbered.owners_used };
        at_most_one = inl (refl, record { unowned = λ i e. absurd cc });
      })

Call-Exclusive :
    {E : Type 0} {comm : GoString} {f u : Files} {held after : List HeldLock}
    → Call E comm f held u after
    → Exclusive f held
    → Exclusive u after
Call-Exclusive {comm} {f} {held} (acquires sys id honest live eu ea) x =
    rw (eu, ea) (acquire-Exclusive comm sys id f held honest live x)
Call-Exclusive {f} (updates sys front back l honest eh eu ea) x = elim x.at_most_one [
  | inl (e, free) ↦ absurd (nothing_held front back l (sym e ∙ eh))
  | inr (m, e, holds) ↦
      let (ef, eb, el) = single front back l m (sym e ∙ eh) in
      rw (eu, ea, ef, eb) (update-Exclusive sys l f honest x.numbered (rw el holds))
]
Call-Exclusive {f} (releases front back l eh eu ea) x = elim x.at_most_one [
  | inl (e, free) ↦ absurd (nothing_held front back l (sym e ∙ eh))
  | inr (m, e, holds) ↦
      let (ef, eb, el) = single front back l m (sym e ∙ eh) in
      rw (eu, ea, ef, eb) (release-Exclusive l f x.numbered (rw el holds))
]
Call-Exclusive {f} {held} (breaks sys w force b sleeps eb eu ea) x =
    let (b', returned, outcome) = break_lock-Returns sys w force f sleeps in
    let same : b' ≡ b = ground (arith, returned, eb) in
    rw (eu, ea) (break-Exclusive w f held b (subst (Outcome w f) same outcome) x)

-- When each call on the lock is one step, from no lock file on, after any calls of Acquire, UpdateActivity,
-- Release and Break, of any sessions, there is at most one session that acquired the lock and has
-- neither released it nor been ended by a Break, provided that whenever a session tries to acquire it
-- the sessions that hold it are live, that a failed write leaves no metadata, that a Break that
-- succeeds ends the session that holds the lock, and that each round of its wait takes at least its
-- 50 ms.
pub Calls-Exclusive :
    {E : Type 0} {comm : GoString} {f u : Files} {after : List HeldLock}
    → f.at_path ≡ none
    → f.owners ≡ []
    → Calls E comm f [] u after
    → Exclusive u after
unfolding lookup
Calls-Exclusive p o no_call = record {
  numbered = record { path_used = λ i e. absurd cc; owners_used = λ i q. rw o refl };
  at_most_one = inl (refl, record { unowned = λ i e. absurd cc });
}
Calls-Exclusive p o (call before c) = Call-Exclusive c (Calls-Exclusive p o before)
