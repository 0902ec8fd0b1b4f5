-- ===== src/Health/Lifecycle.antt =====
-- internal/health/scheduler.go: the scheduler with its goroutines, as steps. Each runner's loop is a
-- tick while its `doneCh` is open, or its end once its `stopCh` is closed; `Stop` closes one channel
-- after another. `Start` holds the lock for the whole call, and is one step.
use libra_flux.Base.{
  ◌≡◌, refl, sym, ap, ◌∙◌, inl, inr, Bool, true, false, some, List, [], ◌∷◌, arith, ok, ◌>>=◌,
  >>=-eq-ok, fail_if, Result-cases, if◌then◌else◌, Bool-cases,
}
use libra_flux.Base.Assoc.{Assoc, lookup, insert, has, lookup-insert}
use libra_flux.Health.Runner.{BackendKey, key_eq, key_eqb_iff, Target, Runner, update}
use libra_flux.Health.Scheduler.{
  duplicate_target, Scheduler, validate_target, new_runner, start_one, start_loop, start,
}
use libra_flux.Health.Invariant.{IsValid, new_runner-IsValid, update-IsValid, update-target}

-- One atomic action of the scheduler, of `Stop`, or of a runner's goroutine.
pub data Step (s u : Scheduler) : Type 0 where
  starts : (ts : List Target) → u ≡ (start ts s).1 → Step s u
  stop_begins : u ≡ record s { stopped = true } → Step s u
  closes :
      (k : BackendKey) (r : Runner)
      → s.stopped ≡ true
      → lookup k s.runners ≡ some r
      → u ≡ record s { runners = insert k (record r { stopped = true }) s.runners }
      → Step s u
  ticks :
      (k : BackendKey) (r : Runner) (success : Bool)
      → lookup k s.runners ≡ some r
      → r.done ≡ false
      → u ≡ record s { runners = insert k (update success r) s.runners }
      → Step s u
  ends :
      (k : BackendKey) (r : Runner)
      → lookup k s.runners ≡ some r
      → r.stopped ≡ true
      → u ≡ record s { runners = insert k (record r { done = true }) s.runners }
      → Step s u

pub data Reach (s : Scheduler) : Scheduler → Type 0 where
  here : Reach s s
  next : {t u : Scheduler} → Reach s t → Step t u → Reach s u

-- Every runner is filed under its target's key, satisfies the invariant, and has stopped ticking only
-- after it was told to.
pub record RunnerOk (k : BackendKey) (r : Runner) : Type 0 where
  pub valid : IsValid r
  pub filed : r.target.key ≡ k
  pub told_first : r.done ≡ true → r.stopped ≡ true

abbrev pub AllOk : Assoc BackendKey Runner → Type 0
AllOk m = (k : BackendKey) (r : Runner) → lookup k m ≡ some r → RunnerOk k r

-- The channels are no part of the invariant of the health state.
closed-IsValid : (r : Runner) → IsValid r → IsValid (record r { stopped = true })
closed-IsValid r v = ground arith

ended-IsValid : (r : Runner) → IsValid r → IsValid (record r { done = true })
ended-IsValid r v = ground arith

update_alive :
    (b : Bool) (r : Runner)
    → r.done ≡ false
    → (update b r).done ≡ true
    → (update b r).stopped ≡ true
unfolding update
update_alive true r h e = cc
update_alive false r h e = cc

insert-AllOk :
    (k : BackendKey) (r : Runner) (m : Assoc BackendKey Runner)
    → RunnerOk k r
    → AllOk m
    → AllOk (insert k r m)
insert-AllOk k r m ok_r all j q e = elim (Bool-cases (key_eq.beq k j)) [
  | inl same ↦
      let at : (if key_eq.beq k j then some r else lookup j m) ≡ some q =
        sym (lookup-insert k j r m) ∙ e in
      let one : r ≡ q = ground (arith, same) in
      let key : k ≡ j = (key_eqb_iff k j).0 same in rw (← one, ← key) ok_r
  | inr other ↦
      let at : (if key_eq.beq k j then some r else lookup j m) ≡ some q =
        sym (lookup-insert k j r m) ∙ e in
      all j q (rw other at at)
]

-- A round of `Start` that succeeds has a valid target under a new key, and files a new runner.
pub start_one_lem :
    (t : Target) (m : Assoc BackendKey Runner) {m' : Assoc BackendKey Runner}
    → start_one t m ≡ ok m'
    → (validate_target t ≡ ok tt) × (has t.key m ≡ false) × (m' ≡ insert t.key (new_runner t) m)
unfolding start_one
start_one_lem t m {m'} h =
    let (u, valid, rest) =
      >>=-eq-ok (validate_target t)
        (λ _. fail_if (has t.key m) (duplicate_target t.key) >>= λ _.
          ok (insert t.key (new_runner t) m))
        h in
    let (v, fresh, same) =
      >>=-eq-ok (fail_if (has t.key m) (duplicate_target t.key))
        (λ _. ok (insert t.key (new_runner t) m)) rest in
    (valid, ground arith, cc)

new_runner-RunnerOk : (t : Target) → validate_target t ≡ ok tt → RunnerOk t.key (new_runner t)
new_runner-RunnerOk t h = record {
  valid = new_runner-IsValid t h;
  filed = unfold new_runner in refl;
  told_first = unfold new_runner in λ e. cc;
}

start_one-AllOk :
    (t : Target) (m : Assoc BackendKey Runner) {m' : Assoc BackendKey Runner}
    → start_one t m ≡ ok m'
    → AllOk m
    → AllOk m'
start_one-AllOk t m h all =
    let (valid, fresh, same) = start_one_lem t m h in
    rw same (insert-AllOk t.key (new_runner t) m (new_runner-RunnerOk t valid) all)

start_loop-AllOk :
    (ts : List Target) (m : Assoc BackendKey Runner) → AllOk m → AllOk (start_loop ts m).1
unfolding start_loop
start_loop-AllOk [] m all = all
start_loop-AllOk (t ∷ ts) m all = elim (Result-cases (start_one t m)) [
  | inl (m', e) ↦ rw (e, start_loop) (start_loop-AllOk ts m' (start_one-AllOk t m e all))
  | inr (x, e) ↦ rw (e, start_loop) all
]

start-AllOk : (ts : List Target) (s : Scheduler) → AllOk s.runners → AllOk (start ts s).1.runners
unfolding start
start-AllOk ts s all = elim (Bool-cases s.stopped) [
  | inl e ↦ rw e all
  | inr e ↦ elim (Bool-cases s.has_checker) [
    | inl c ↦ rw (e, c) (start_loop-AllOk ts s.runners all)
    | inr c ↦ rw (e, c) all
  ]
]

-- Every action of the scheduler, of `Stop` and of the runners keeps each runner's invariant, keeps it
-- filed under its own target's key, and ends no goroutine that was not told to stop.
pub Step-AllOk : {s u : Scheduler} → Step s u → AllOk s.runners → AllOk u.runners
Step-AllOk {s} (starts ts e) all = rw e (start-AllOk ts s all)
Step-AllOk (stop_begins e) all = rw e all
Step-AllOk {s} (closes k r _ at e) all =
    let r_ok = all k r at in
    rw e (
      insert-AllOk k (record r { stopped = true }) s.runners
        (record { valid = closed-IsValid r r_ok.valid; filed = r_ok.filed; told_first = λ _. refl })
        all)
Step-AllOk {s} (ticks k r b at alive e) all =
    let r_ok = all k r at in
    rw e (
      insert-AllOk k (update b r) s.runners
        (record {
          valid = update-IsValid b r r_ok.valid;
          filed = ap (λ (t : Target). t.key) (update-target b r) ∙ r_ok.filed;
          told_first = update_alive b r alive;
        })
        all)
Step-AllOk {s} (ends k r at told e) all =
    let r_ok = all k r at in
    rw e (
      insert-AllOk k (record r { done = true }) s.runners
        (record { valid = ended-IsValid r r_ok.valid; filed = r_ok.filed; told_first = λ _. told })
        all)

-- In every state that the scheduler can reach from an empty one, each runner satisfies its invariant,
-- is filed under its target's key, and has ended only after it was told to stop.
pub Reach-AllOk : {s u : Scheduler} → s.runners ≡ [] → Reach s u → AllOk u.runners
unfolding lookup
Reach-AllOk e here = rw e (λ k r h. cc)
Reach-AllOk e (next r st) = Step-AllOk st (Reach-AllOk e r)
