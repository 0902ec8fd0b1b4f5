-- ===== src/Health/Starting.antt =====
-- internal/health/scheduler.go: what a call of `Start` leaves behind, with and without an error.
use mathlib.Core.Path.{subst}
use libra_flux.Base.{
  sym, ◌≡◌, refl, ◌∙◌, inl, inr, Bool, true, false, ◌||◌, Option, none, some, List, [], ◌∷◌, ◌++◌,
  arith, ok, err, Result-cases, All,
}
use libra_flux.Base.Assoc.{Assoc, lookup, has, lookup-insert, has-insert, =k_refl}
use libra_flux.Health.Runner.{BackendKey, key_eq, key_eqb_iff, Target, Runner}
use libra_flux.Health.Scheduler.{
  StartError, Scheduler, validate_target, new_runner, start_one, start_loop, start,
}
use libra_flux.Health.Lifecycle.{start_one_lem}

-- Some earlier target has the key.
abbrev pub has_key : BackendKey → List Target → Bool
has_key k [] = false
has_key k (t ∷ ts) = key_eq.beq t.key k || has_key k ts

-- No two targets have one key.
abbrev pub DistinctKeys : List Target → Type 0
DistinctKeys [] = Unit
DistinctKeys (t ∷ ts) = (has_key t.key ts ≡ false) × DistinctKeys ts

start_loop_taken :
    (k : BackendKey) (ts : List Target) (m : Assoc BackendKey Runner)
    → has k m ≡ true
    → (start_loop ts m).0 ≡ none
    → has_key k ts ≡ false
unfolding start_loop
start_loop_taken k [] m h e = refl
start_loop_taken k (t ∷ ts) m h e = elim (Result-cases (start_one t m)) [
  | inl (m', one) ↦
      let (valid, fresh, same) = start_one_lem t m one in
      let more : has k m' ≡ true = rw same (ground (arith, has-insert t.key k (new_runner t) m)) in
      let rest : (start_loop ts m').0 ≡ none = rw (one, start_loop) at e in
      ground (arith, key_eqb_iff t.key k, start_loop_taken k ts m' more rest)
  | inr (x, one) ↦ absurd (no_error x (rw (one, start_loop) at e))
]
  where
    no_error : (x : StartError) → ◌≡◌ {A = Option StartError} (some x) none → ⊥
    no_error x p = cc

start_loop-DistinctKeys :
    (ts : List Target) (m : Assoc BackendKey Runner) → (start_loop ts m).0 ≡ none → DistinctKeys ts
unfolding start_loop
start_loop-DistinctKeys [] m e = tt
start_loop-DistinctKeys (t ∷ ts) m e = elim (Result-cases (start_one t m)) [
  | inl (m', one) ↦
      let (valid, fresh, same) = start_one_lem t m one in
      let rest : (start_loop ts m').0 ≡ none = rw (one, start_loop) at e in
      let more : has t.key m' ≡ true =
        rw same (ground (arith, has-insert t.key t.key (new_runner t) m, =k_refl t.key)) in
      (start_loop_taken t.key ts m' more rest, start_loop-DistinctKeys ts m' rest)
  | inr (x, one) ↦ absurd (no_error x (rw (one, start_loop) at e))
]
  where
    no_error : (x : StartError) → ◌≡◌ {A = Option StartError} (some x) none → ⊥
    no_error x p = cc

-- A target that is filed stays filed as it is, through the rounds for targets with other keys.
start_loop-lookup_other :
    (k : BackendKey) (ts : List Target) (m : Assoc BackendKey Runner)
    → has_key k ts ≡ false
    → lookup k (start_loop ts m).1 ≡ lookup k m
unfolding start_loop
start_loop-lookup_other k [] m h = refl
start_loop-lookup_other k (t ∷ ts) m h = elim (Result-cases (start_one t m)) [
  | inl (m', one) ↦
      let (valid, fresh, same) = start_one_lem t m one in
      rw (one, start_loop)
        (start_loop-lookup_other k ts m' (ground arith)
          ∙ rw same (ground (arith, lookup-insert t.key k (new_runner t) m)))
  | inr (x, one) ↦ rw (one, start_loop) refl
]

-- Every target is valid and has a runner in its first state.
abbrev pub AllRunning : Assoc BackendKey Runner → List Target → Type 0
AllRunning m ts = All (λ t. (validate_target t ≡ ok tt) × (lookup t.key m ≡ some (new_runner t))) ts

start_loop-cons :
    (t : Target) (ts : List Target) (m : Assoc BackendKey Runner) {m' : Assoc BackendKey Runner}
    → start_one t m ≡ ok m'
    → start_loop ts m' ≡ start_loop (t ∷ ts) m
unfolding start_loop
start_loop-cons t ts m one = rw (one, start_loop) refl

start_loop-running :
    (ts : List Target) (m : Assoc BackendKey Runner)
    → (start_loop ts m).0 ≡ none
    → AllRunning (start_loop ts m).1 ts
unfolding start_loop
start_loop-running [] m e = tt
start_loop-running (t ∷ ts) m e = elim (Result-cases (start_one t m)) [
  | inl (m', one) ↦
      let (valid, fresh, same) = start_one_lem t m one in
      let distinct = start_loop-DistinctKeys (t ∷ ts) m e in
      let rest : (start_loop ts m').0 ≡ none = rw (one, start_loop) at e in
      let filed : lookup t.key m' ≡ some (new_runner t) =
        rw same (ground (arith, lookup-insert t.key t.key (new_runner t) m, =k_refl t.key)) in
      subst (λ p. AllRunning p.1 (t ∷ ts)) (start_loop-cons t ts m one)
        (
          (valid, start_loop-lookup_other t.key ts m' distinct.0 ∙ filed),
          start_loop-running ts m' rest,
        )
  | inr (x, one) ↦ absurd (no_error x (rw (one, start_loop) at e))
]
  where
    no_error : (x : StartError) → ◌≡◌ {A = Option StartError} (some x) none → ⊥
    no_error x p = cc

start_none :
    (ts : List Target) (s : Scheduler)
    → (start ts s).0 ≡ none
    → ((start_loop ts s.runners).0 ≡ none) × ((start ts s).1.runners ≡ (start_loop ts s.runners).1)
unfolding start
start_none ts s e = ground arith

-- When `Start` returns no error, every target was valid, no two had one key, and each has a runner of
-- its own in its first state.
pub start-running :
    (ts : List Target) (s : Scheduler)
    → (start ts s).0 ≡ none
    → DistinctKeys ts × AllRunning (start ts s).1.runners ts
start-running ts s e =
    let (loop, same) = start_none ts s e in
    (
      start_loop-DistinctKeys ts s.runners loop,
      subst (λ m. AllRunning m ts) (sym same) (start_loop-running ts s.runners loop),
    )

start_loop-partial :
    (us : List Target) (t : Target) (ts : List Target) (m : Assoc BackendKey Runner)
    {x : StartError}
    → (start_loop us m).0 ≡ none
    → start_one t (start_loop us m).1 ≡ err x
    → start_loop (us ++ t ∷ ts) m ≡ (some x, (start_loop us m).1)
unfolding start_loop
start_loop-partial [] t ts m e h = rw (h, start_loop) refl
start_loop-partial (u ∷ us) t ts m e h = elim (Result-cases (start_one u m)) [
  | inl (m', one) ↦
      rw (one, start_loop)
        (start_loop-partial us t ts m' (rw (one, start_loop) at e) (rw (one, start_loop) at h))
  | inr (y, one) ↦ absurd (no_error y (rw (one, start_loop) at e))
]
  where
    no_error : (y : StartError) → ◌≡◌ {A = Option StartError} (some y) none → ⊥
    no_error y p = cc

-- When one target is refused, `Start` on an open scheduler with a checker returns its error, and the
-- runners of the targets before it stay started.
pub start-partial :
    (us : List Target) (t : Target) (ts : List Target) (s : Scheduler) {x : StartError}
    → s.stopped ≡ false
    → s.has_checker ≡ true
    → (start us s).0 ≡ none
    → start_one t (start us s).1.runners ≡ err x
    → start (us ++ t ∷ ts) s ≡ (some x, (start us s).1)
unfolding start
start-partial us t ts s {x} live checked e h =
    let loop = start_none us s e in
    let whole = start_loop-partial us t ts s.runners {x = x} loop.0 (rw loop.1 at h) in
    rw (live, checked, whole) refl
