-- ===== src/Shell/Breaking.antt =====
-- internal/shell/lock.go: Break, which ends the process of the session that holds the lock.
use libra_flux.Base.{
  ℕ, zero, suc, ◌+◌, ◌*◌, ◌≤◌, ◌≡◌, ◌≢◌, refl, ◌⊎◌, inl, inr, Bool, true, false, ◌&&◌, Option, none,
  some, List, [], ◌∷◌, arith, eqb_ℤ, Result, ok, err, ltb, if◌then◌else◌, millisecond, Option-cases,
  Bool-cases, if_elim,
}
use libra_flux.Base.Assoc.{lookup}
use libra_flux.Shell.Lock.{
  ℕ_eq, LockMetadata, Files, LockError, System, open_file, refusing_without_force, none_held,
  own_lock, read_metadata, unlink,
}

pub data Signal : Type 0 where
  term kill : Signal

-- The process that is to end, as the rounds of the wait see it: whether it is alive, and the clock.
pub record Watch : Type 0 where
  pub alive : ℕ → Bool
  pub clock : ℕ → ℕ

-- The wait: `for IsAlive(pid) && Now().Before(deadline)`, from the given round on. The result is the
-- round in which it ends, or none when the fuel does not last.
unfoldable pub wait : Watch → ℕ → ℕ → ℕ → Option ℕ
wait w deadline zero k = none
wait w deadline (suc fuel) k =
    let rest = wait w deadline fuel (suc k) in
    if w.alive k && ltb (w.clock k) deadline then rest else some k

pub record Broken (E : Type 0) : Type 0 where
  pub error : Option (LockError E)
  pub signals : List Signal
  pub files : Files

abbrev failed : {E : Type 0} → LockError E → Files → Option (Broken E)
failed e f = some (record { error = some e; signals = []; files = f })

-- After the wait: a process that is alive still is killed, and the path is removed.
unfoldable pub finish : {E : Type 0} → Watch → Files → Option ℕ → Option (Broken E)
unfolding unlink
finish w f none = none
finish w f (some k) = some (record {
  error = none;
  signals = if w.alive (suc k) then term ∷ kill ∷ [] else term ∷ [];
  files = unlink f;
})

-- The metadata of the session that holds the lock have been read, or not.
unfoldable pub break_holder :
    {E : Type 0}
    → System E
    → Watch
    → ℕ
    → Files
    → Result (LockError E) LockMetadata
    → Option (Broken E)
unfolding finish wait
break_holder sys w fuel f (err e) = failed e f
break_holder sys w fuel f (ok d) =
    let waited = finish w f (wait w (w.clock 0 + 5000 * millisecond) fuel 1) in
    if eqb_ℤ d.pid sys.default_identity.pid then failed own_lock f else waited

-- A path without a file, or a file whose lock is free, is no lock that is held.
unfoldable pub break_file :
    {E : Type 0} → System E → Watch → ℕ → Files → Option E → Option ℕ → Option (Broken E)
unfolding break_holder read_metadata lookup
break_file sys w fuel f (some e) i = failed (open_file e) f
break_file sys w fuel f none none = failed none_held f
break_file sys w fuel f none (some i) =
    let held = break_holder sys w fuel f (read_metadata f) in
    elim (lookup i f.owners) [ none ↦ failed none_held f | some h ↦ held ]

-- Break. Round 0 of the clock is the reading that sets the deadline, five seconds later.
unfoldable pub break_lock : {E : Type 0} → System E → Watch → ℕ → Bool → Files → Option (Broken E)
unfolding break_file
break_lock sys w fuel force f =
    if force
    then break_file sys w fuel f sys.open_error f.at_path
    else failed refusing_without_force f

-- From one round to the next at least the 50 ms pass for which the loop sleeps, and the first round does
-- not come before the deadline is set.
pub record Sleeps (w : Watch) : Type 0 where
  pub first : w.clock 0 ≤ w.clock 1
  pub later : (k : ℕ) → w.clock (suc k) + 50 * millisecond ≤ w.clock (suc (suc k))

clock_after : (w : Watch) (k : ℕ) → Sleeps w → w.clock 0 + k * (50 * millisecond) ≤ w.clock (suc k)
clock_after w zero s = omega (arith, s.first)
clock_after w (suc k) s = omega (arith, clock_after w k s, s.later k)

-- The wait ends by its 101st round at the latest.
wait-ends :
    (w : Watch) (fuel k : ℕ)
    → Sleeps w
    → k ≤ 100
    → k + fuel ≡ 101
    → (n : ℕ) × (wait w (w.clock 0 + 5000 * millisecond) fuel (suc k) ≡ some n)
      × ((w.alive n ≡ false) ⊎ (w.clock 0 + 5000 * millisecond ≤ w.clock n))
unfolding wait
wait-ends w zero k s low e = absurd (omega (arith, low, e))
wait-ends w (suc fuel) k s low e = elim (Bool-cases (w.alive (suc k))) [
  | inr dead ↦ rw dead (suc k, refl, inl dead)
  | inl alive ↦ elim (Bool-cases (ltb (w.clock (suc k)) (w.clock 0 + 5000 * millisecond))) [
    | inr late ↦ rw (alive, late) (suc k, refl, inr (ground (arith, late)))
    | inl early ↦
        rw (alive, early)
          (wait-ends w fuel (suc k) s (ground (arith, clock_after w k s, early)) (omega (arith, e)))
  ]
]

-- What Break may return: an error, with nothing done, or none, with the path removed, and then the
-- process was asked to end, and killed only if it was still alive.
abbrev pub Outcome : {E : Type 0} → Watch → Files → Broken E → Type 0
Outcome w f b =
    ((b.error ≢ none) × (b.signals ≡ []) × (b.files ≡ f))
    ⊎ ((b.error ≡ none)
        × (b.files ≡ unlink f)
        × (k : ℕ) × (b.signals ≡ (if w.alive (suc k) then term ∷ kill ∷ [] else term ∷ []))
        × ((w.alive k ≡ false) ⊎ (w.clock 0 + 5000 * millisecond ≤ w.clock k)))

abbrev pub Returns : {E : Type 0} → Watch → Files → Option (Broken E) → Type 0
Returns {E} w f o = (b : Broken E) × (o ≡ some b) × Outcome w f b

failed-Returns : {E : Type 0} (w : Watch) (f : Files) (e : LockError E) → Returns w f (failed e f)
failed-Returns w f e = (_, refl, inl ((λ q. cc), refl, refl))

break_holder-Returns :
    {E : Type 0} (sys : System E) (w : Watch) (f : Files) (m : Result (LockError E) LockMetadata)
    → Sleeps w
    → Returns w f (break_holder sys w 101 f m)
unfolding break_holder finish
break_holder-Returns sys w f (err e) s = failed-Returns w f e
break_holder-Returns sys w f (ok d) s =
    let (k, e, why) = wait-ends w 101 0 s (omega arith) refl in
    if_elim (Returns w f) (eqb_ℤ d.pid sys.default_identity.pid)
      (λ own. failed-Returns w f own_lock) (λ other. rw e (_, refl, inr (refl, refl, k, refl, why)))

break_file-Returns :
    {E : Type 0} (sys : System E) (w : Watch) (f : Files) (o : Option E) (at : Option ℕ)
    → Sleeps w
    → Returns w f (break_file sys w 101 f o at)
unfolding break_file
break_file-Returns sys w f (some e) at s = failed-Returns w f (open_file e)
break_file-Returns sys w f none none s = failed-Returns w f none_held
break_file-Returns sys w f none (some i) s = elim (Option-cases (lookup i f.owners)) [
  | inl e ↦ rw (e, break_file) (failed-Returns w f none_held)
  | inr (h, e) ↦ rw (e, break_file) (break_holder-Returns sys w f (read_metadata f) s)
]

-- When each round of the wait takes at least its 50 ms, 101 rounds are enough for Break to return: either an
-- error, with no signal sent and the files as they were, or none, with the path removed, after the
-- process was asked to end, and was found dead or had five seconds; it is killed exactly when it is
-- alive at the next look.
pub break_lock-Returns :
    {E : Type 0} (sys : System E) (w : Watch) (force : Bool) (f : Files)
    → Sleeps w
    → Returns w f (break_lock sys w 101 force f)
unfolding break_lock
break_lock-Returns sys w true f s = break_file-Returns sys w f sys.open_error f.at_path s
break_lock-Returns sys w false f s = failed-Returns w f refusing_without_force
