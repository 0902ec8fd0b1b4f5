-- ===== src/Health/Hysteresis.antt =====
-- internal/health/scheduler.go: the thresholds, over every sequence of probes.
use libra_flux.Base.{
  ℕ, suc, ◌≡◌, refl, ◌↔◌, Bool, true, false, List, [], ◌∷◌, ◌++◌, arith, ℤ, pos, negsuc, ◌≤ℤ◌, ok,
}
use libra_flux.Health.Runner.{
  healthy, unhealthy, Target, Runner, Notice, state_change, weight_change, update, notices, tick,
}
use libra_flux.Health.Scheduler.{validate_target, new_runner}
use libra_flux.Health.Invariant.{IsValid, new_runner-IsValid, update-IsValid}

-- The runner of a target after its probes, the latest first.
unfoldable pub after : Target → List Bool → Runner
after t [] = new_runner t
after t (b ∷ bs) = update b (after t bs)

-- How many of the latest probes had this result, without a break.
pub streak : Bool → List Bool → ℕ
streak b [] = 0
streak true (true ∷ bs) = suc (streak true bs)
streak true (false ∷ bs) = 0
streak false (true ∷ bs) = 0
streak false (false ∷ bs) = suc (streak false bs)

pub after-IsValid : (t : Target) (bs : List Bool) → validate_target t ≡ ok tt → IsValid (after t bs)
unfolding after
after-IsValid t [] h = new_runner-IsValid t h
after-IsValid t (b ∷ bs) h = update-IsValid b (after t bs) (after-IsValid t bs h)

pub after-target : (t : Target) (bs : List Bool) → (after t bs).target ≡ t
unfolding after update new_runner
after-target t [] = refl
after-target t (true ∷ bs) = after-target t bs
after-target t (false ∷ bs) = after-target t bs

pub after-counters :
    (t : Target) (bs : List Bool)
    → ((after t bs).consecutive_successes ≡ streak true bs)
      × ((after t bs).consecutive_failures ≡ streak false bs)
unfolding after update new_runner streak
after-counters t [] = (refl, refl)
after-counters t (true ∷ bs) = ground (arith, after-counters t bs)
after-counters t (false ∷ bs) = ground (arith, after-counters t bs)

update_leaves_healthy :
    (b : Bool) (r : Runner)
    → IsValid r
    → r.state ≡ healthy
    → ((update b r).state ≡ unhealthy)
      ↔ (r.target.fail_after ≤ℤ pos (update b r).consecutive_failures)
unfolding update
update_leaves_healthy true r v h = ground arith
update_leaves_healthy false r v h = ground arith

update_leaves_unhealthy :
    (b : Bool) (r : Runner)
    → IsValid r
    → r.state ≡ unhealthy
    → ((update b r).state ≡ healthy)
      ↔ (r.target.recover_after ≤ℤ pos (update b r).consecutive_successes)
unfolding update
update_leaves_unhealthy true r v h = ground arith
update_leaves_unhealthy false r v h = ground arith

-- For an accepted target, after any sequence of probes: a healthy backend is marked unhealthy by the
-- next probe exactly when that probe ends a streak of at least `fail_after` failures.
pub after-unhealthy_iff :
    (t : Target) (b : Bool) (bs : List Bool)
    → validate_target t ≡ ok tt
    → (after t bs).state ≡ healthy
    → ((after t (b ∷ bs)).state ≡ unhealthy) ↔ (t.fail_after ≤ℤ pos (streak false (b ∷ bs)))
unfolding after
after-unhealthy_iff t b bs h s =
    let iff = update_leaves_healthy b (after t bs) (after-IsValid t bs h) s in
    ground (arith, iff, after-target t bs, after-counters t (b ∷ bs))

-- For an accepted target, after any sequence of probes: an unhealthy backend is marked healthy by the
-- next probe exactly when that probe ends a streak of at least `recover_after` successes.
pub after-healthy_iff :
    (t : Target) (b : Bool) (bs : List Bool)
    → validate_target t ≡ ok tt
    → (after t bs).state ≡ unhealthy
    → ((after t (b ∷ bs)).state ≡ healthy) ↔ (t.recover_after ≤ℤ pos (streak true (b ∷ bs)))
unfolding after
after-healthy_iff t b bs h s =
    let iff = update_leaves_unhealthy b (after t bs) (after-IsValid t bs h) s in
    ground (arith, iff, after-target t bs, after-counters t (b ∷ bs))

-- The weight that an observer holds who has been told of these changes, the earliest first.
pub heard : ℤ → List Notice → ℤ
heard w [] = w
heard w (state_change k old new ∷ ns) = heard w ns
heard w (weight_change k old new ∷ ns) = heard new ns

pub told : Target → List Bool → List Notice
told t [] = []
told t (b ∷ bs) = told t bs ++ (tick true b (after t bs)).1

heard-append : (w : ℤ) (ns ms : List Notice) → heard w (ns ++ ms) ≡ heard (heard w ns) ms
unfolding heard
heard-append w [] ms = refl
heard-append w (state_change k old new ∷ ns) ms = heard-append w ns ms
heard-append w (weight_change k old new ∷ ns) ms = heard-append new ns ms

heard-tick :
    (b : Bool) (r : Runner)
    → heard r.effective_weight (tick true b r).1 ≡ (update b r).effective_weight
unfolding heard tick notices
heard-tick b r = ground arith

-- An observer that follows the reported weight changes holds, after any sequence of probes, the
-- effective weight of the backend.
pub heard-told :
    (t : Target) (bs : List Bool) → heard (negsuc 0) (told t bs) ≡ (after t bs).effective_weight
unfolding told after new_runner heard
heard-told t [] = refl
heard-told t (b ∷ bs) =
    simp (heard-append (negsuc 0) (told t bs) ((tick true b (after t bs)).1), heard-told t bs)
      (heard-tick b (after t bs))
