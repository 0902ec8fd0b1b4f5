-- ===== src/Health/Invariant.antt =====
-- internal/health/scheduler.go: what holds of a runner between two ticks.
use libra_flux.Base.{◌≡◌, refl, ◌⊎◌, Bool, true, false, arith, pos, negsuc, ◌≤ℤ◌, ◌<ℤ◌, ok}
use libra_flux.Health.Runner.{unknown, healthy, unhealthy, Target, Runner, update}
use libra_flux.Health.Scheduler.{validate_target, new_runner}

pub record IsValid (r : Runner) : Type 0 where
  pub fail_positive : pos 1 ≤ℤ r.target.fail_after
  pub recover_positive : pos 1 ≤ℤ r.target.recover_after
  pub one_sided : (r.consecutive_successes ≡ 0) ⊎ (r.consecutive_failures ≡ 0)
  pub unknown_fresh : r.state ≡ unknown → r.effective_weight ≡ negsuc 0
  pub unknown_unprobed :
      r.state ≡ unknown → (r.consecutive_successes ≡ 0) × (r.consecutive_failures ≡ 0)
  pub healthy_below : r.state ≡ healthy → pos r.consecutive_failures <ℤ r.target.fail_after
  pub unhealthy_below : r.state ≡ unhealthy → pos r.consecutive_successes <ℤ r.target.recover_after
  pub healthy_weight : r.state ≡ healthy → r.effective_weight ≡ r.target.configured_weight
  pub unhealthy_weight : r.state ≡ unhealthy → r.effective_weight ≡ pos 0

-- The runner that `Start` makes for a target that it accepts is valid.
pub new_runner-IsValid : (t : Target) → validate_target t ≡ ok tt → IsValid (new_runner t)
unfolding validate_target new_runner
new_runner-IsValid t h = ground arith

-- Every tick, with a probe that succeeds or fails, leaves a valid runner valid.
pub update-IsValid : (b : Bool) (r : Runner) → IsValid r → IsValid (update b r)
unfolding update
update-IsValid true r h = ground arith
update-IsValid false r h = ground arith

-- A tick changes neither the target nor the channels of a runner.
pub update-target : (b : Bool) (r : Runner) → (update b r).target ≡ r.target
unfolding update
update-target true r = refl
update-target false r = refl
