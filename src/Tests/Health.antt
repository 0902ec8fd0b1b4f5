-- ===== src/Tests/Health.antt =====
-- internal/health at concrete targets and probes.
use libra_flux.Base.{
  ◌≡◌, refl, ◌↔◌, true, false, none, some, [], ◌∷◌, ◌++◌, pos, negsuc, ◌≤ℤ◌, ok, err,
}
use libra_flux.Base.Text.{◌=s◌}
use libra_flux.Base.Assoc.{has, insert}
use libra_flux.Health.Runner.{key_eq, healthy, unhealthy, update, after_success, after_failure}
use libra_flux.Health.Scheduler.{
  Scheduler, duplicate_target, validate_target, new_scheduler, new_runner, start_one, start_loop,
  start,
}
use libra_flux.Health.Hysteresis.{
  after, streak, heard, told, after-unhealthy_iff, after-healthy_iff, heard-told,
}
use libra_flux.Health.Lifecycle.{here, next, starts, AllOk, Reach-AllOk}
use libra_flux.Health.Starting.{DistinctKeys, AllRunning, start-running, start-partial}
use libra_flux.Tests.Fixtures.{web_target}

accepted : validate_target web_target ≡ ok tt
unfolding validate_target ◌=s◌
accepted = refl

up : (after web_target (true ∷ [])).state ≡ healthy
unfolding after update new_runner after_success
up = refl

down : (after web_target (false ∷ [])).state ≡ unhealthy
unfolding after update new_runner after_failure
down = refl

after-unhealthy_iff_example :
    ((after web_target (false ∷ true ∷ [])).state ≡ unhealthy)
    ↔ (pos 2 ≤ℤ pos (streak false (false ∷ true ∷ [])))
after-unhealthy_iff_example = after-unhealthy_iff web_target false (true ∷ []) accepted up

after-healthy_iff_example :
    ((after web_target (true ∷ false ∷ [])).state ≡ healthy)
    ↔ (pos 2 ≤ℤ pos (streak true (true ∷ false ∷ [])))
after-healthy_iff_example = after-healthy_iff web_target true (false ∷ []) accepted down

heard-told_example :
    heard (negsuc 0) (told web_target (false ∷ true ∷ []))
    ≡ (after web_target (false ∷ true ∷ [])).effective_weight
heard-told_example = heard-told web_target (false ∷ true ∷ [])

abbrev fresh : Scheduler
fresh = new_scheduler true true

fresh_empty : fresh.runners ≡ []
unfolding new_scheduler
fresh_empty = refl

abbrev started : Scheduler
started = (start (web_target ∷ []) fresh).1

Reach-AllOk_example : AllOk started.runners
Reach-AllOk_example =
    Reach-AllOk {s = fresh} {u = started} fresh_empty (next here (starts (web_target ∷ []) refl))

starts_one : (start (web_target ∷ []) fresh).0 ≡ none
unfolding start start_loop start_one validate_target new_scheduler has insert ◌=s◌
starts_one = refl

start-running_example :
    DistinctKeys (web_target ∷ []) × AllRunning started.runners (web_target ∷ [])
start-running_example = start-running (web_target ∷ []) fresh starts_one

fresh_open : fresh.stopped ≡ false
unfolding new_scheduler
fresh_open = refl

fresh_checker : fresh.has_checker ≡ true
unfolding new_scheduler
fresh_checker = refl

refused_second : start_one web_target started.runners ≡ err (duplicate_target web_target.key)
unfolding start start_loop start_one validate_target new_scheduler has insert ◌=s◌
refused_second = refl

start-partial_example :
    start ((web_target ∷ []) ++ web_target ∷ []) fresh
    ≡ (some (duplicate_target web_target.key), started)
start-partial_example =
    start-partial (web_target ∷ []) web_target [] fresh {x = duplicate_target web_target.key}
      fresh_open fresh_checker starts_one refused_second
