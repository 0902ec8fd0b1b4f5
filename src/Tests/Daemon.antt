-- ===== src/Tests/Daemon.antt =====
-- internal/daemon at a concrete engine. The world is the list of the services that were last applied.
use libra_flux.Base.{
  ℕ, suc, ◌+◌, ◌*◌, ◌≤◌, ◌<◌, ◌≡◌, refl, inl, inr, Bool, true, false, not, Option, none, some, List,
  [], ◌∷◌, ◌++◌, arith, ℤ, pos, ltb_ℤ, Result, ok, err,
}
use libra_flux.Base.Text.{GoString, ◌=s◌, codes}
use libra_flux.Base.Assoc.{lookup, insert, has}
use libra_flux.Config.Types.{Config, Service}
use libra_flux.Config.Validator.{validate}
use libra_flux.Health.Runner.{key_eq}
use libra_flux.Health.Scheduler.{
  Scheduler, duplicate_target, new_scheduler, validate_target, start_one, start_loop, start,
}
use libra_flux.Health.Starting.{AllRunning}
use libra_flux.Daemon.Weights.{apply_effective_weights, health_target, health_targets}
use libra_flux.Daemon.Backoff.{second, calculate_backoff, calculate_backoff_bounds}
use libra_flux.Daemon.Engine.{Engine}
use libra_flux.Daemon.Handlers.{
  Readings, Attempt, begin_reconcile, on_reload, on_request, on_vip_tick, on_weight_change,
  start_health_scheduler, start_failed, try_reconcile,
}
use libra_flux.Daemon.Gating.{tick-programs, tick-withdraws}
use libra_flux.Daemon.Retries.{refused-waits}
use libra_flux.Daemon.Loop.{Event, vip_tick, run, IsAbsent, run-standby}
use libra_flux.Daemon.Races.{overtaken, weight_change_lost, weight_change_applied}
use libra_flux.Tests.Config.{accepts_one_service}
use libra_flux.Daemon.Reloaded.{Programmed, on_reload-Programmed}
use libra_flux.Daemon.Reloads.{unreadable, reload-IsUnusable, start-duplicate}
use libra_flux.Tests.Fixtures.{is_text, web_key, web_target, one_service, one_address_twice}

abbrev engine : Option Config → Bool → Bool → Bool → Engine
engine cfg active pending_reconcile pending_disable = record {
  vip_check_interval = pos second;
  cfg = cfg;
  cfg_hash = [];
  active = active;
  pending_reconcile = pending_reconcile;
  pending_disable = pending_disable;
  backend_weights = [];
  scheduler = none;
  reconcile_attempts = 0;
  next_retry = none;
  request_pending = false;
  effects = [];
  orphans = [];
}

abbrev World : Type 0
World = List Service

abbrev replace : List Service → GoString → World → Option GoString × World
replace services vip world = (none, services)

abbrev refuse : List Service → GoString → World → Option GoString × World
refuse services vip world = (some (codes "refused"), world)

abbrev at : ℤ → Readings
at t = record { now = t; later = t; nanos = 7; elapsed = pos 1 }

abbrev vip : GoString
vip = codes "10.0.0.1"

abbrev standby : Engine
standby = engine (some one_service) false false false

abbrev serving : Engine
serving = engine (some one_service) true true false

tick-programs_example :
    ((on_vip_tick replace (ok true) (at (pos 1)) (at (pos 2)) (standby, [])).0.pending_reconcile
      ≡ false)
    × ((on_vip_tick replace (ok true) (at (pos 1)) (at (pos 2)) (standby, [])).0.reconcile_attempts
        ≡ 0)
    × ((on_vip_tick replace (ok true) (at (pos 1)) (at (pos 2)) (standby, [])).0.next_retry ≡ none)
    × ((on_vip_tick replace (ok true) (at (pos 1)) (at (pos 2)) (standby, [])).0.pending_disable
        ≡ false)
    × ((on_vip_tick replace (ok true) (at (pos 1)) (at (pos 2)) (standby, [])).1
        ≡ apply_effective_weights one_service.services [])
tick-programs_example =
    tick-programs replace (at (pos 1)) (at (pos 2)) standby [] {c = one_service} refl refl refl
      (inl refl) refl

tick-withdraws_example :
    ((on_vip_tick replace
        (ok false)
        (at (pos 1))
        (at (pos 2))
        (serving, one_service.services)).0.pending_disable
      ≡ false)
    × ((on_vip_tick replace (ok false) (at (pos 1)) (at (pos 2)) (serving, one_service.services)).1
        ≡ [])
tick-withdraws_example =
    tick-withdraws replace (at (pos 1)) (at (pos 2)) serving one_service.services {c = one_service}
      refl (inl refl) refl

refused-waits_example :
    ((try_reconcile refuse (at (pos 1)) (serving, [])).0.pending_reconcile ≡ true)
    × ((try_reconcile refuse (at (pos 1)) (serving, [])).0.reconcile_attempts ≡ 1)
    × (try_reconcile refuse (at (pos 1)) (try_reconcile refuse (at (pos 1)) (serving, []))
        ≡ try_reconcile refuse (at (pos 1)) (serving, []))
unfolding calculate_backoff libra_flux.Base.◌+ℤ◌
refused-waits_example =
    refused-waits refuse (at (pos 1)) (at (pos 1)) serving [] {c = one_service}
      {x = codes "refused"} refl refl refl refl refl refl

abbrev absences : List Event
absences =
    vip_tick (ok false) (at (pos 1)) (at (pos 2)) ∷ vip_tick (err []) (at (pos 3)) (at (pos 4)) ∷ []

no_hash : Config → Result GoString GoString
no_hash c = err []

a_hash : Config → Result GoString GoString
a_hash c = ok (codes "1")

absences-IsAbsent : IsAbsent replace is_text no_hash absences
unfolding IsAbsent
absences-IsAbsent = tt

run-standby_example :
    ((run replace is_text no_hash absences (standby, [])).0.active ≡ false)
    × ((run replace is_text no_hash absences (standby, [])).1 ≡ [])
run-standby_example =
    run-standby replace is_text no_hash (λ w. w ≡ []) (λ v w h. refl) absences standby []
      absences-IsAbsent refl refl

abbrev attempt : Attempt
attempt = record {
  config = one_service;
  desired = apply_effective_weights one_service.services [];
  attempts = 0;
}

begins : begin_reconcile (pos 1) serving ≡ some attempt
unfolding begin_reconcile
begins = refl

weight_change_lost_example :
    (lookup web_key (overtaken (at (pos 1)) attempt web_key (pos 5) (pos 0) serving).backend_weights
      ≡ some (pos 0))
    × ((overtaken (at (pos 1)) attempt web_key (pos 5) (pos 0) serving).request_pending ≡ true)
    × ((overtaken (at (pos 1)) attempt web_key (pos 5) (pos 0) serving).pending_reconcile ≡ false)
    × ((on_request replace
          (at (pos 2))
          (overtaken (at (pos 1)) attempt web_key (pos 5) (pos 0) serving, one_service.services)).1
        ≡ one_service.services)
weight_change_lost_example =
    weight_change_lost replace (at (pos 1)) (at (pos 2)) attempt web_key (pos 5) (pos 0) serving
      one_service.services begins

weight_change_applied_example :
    ((on_request replace
        (at (pos 1))
        (on_weight_change web_key (pos 5) (pos 0) serving, [])).0.pending_reconcile
      ≡ false)
    × ((on_request replace (at (pos 1)) (on_weight_change web_key (pos 5) (pos 0) serving, [])).1
        ≡ apply_effective_weights one_service.services (insert web_key (pos 0) []))
weight_change_applied_example =
    weight_change_applied replace (at (pos 1)) web_key (pos 5) (pos 0) serving [] {c = one_service}
      refl refl refl refl

reload-IsUnusable_example :
    on_reload replace is_text no_hash (err []) (at (pos 1)) (serving, one_service.services)
    ≡ (serving, one_service.services)
reload-IsUnusable_example =
    reload-IsUnusable is_text no_hash replace (err []) (at (pos 1)) serving one_service.services
      (unreadable [])

hashed : a_hash (validate is_text one_service).1 ≡ ok (codes "1")
unfolding a_hash
hashed = refl

on_reload-Programmed_example :
    Programmed replace
      (validate is_text one_service).1
      (codes "1")
      false
      []
      (on_reload replace is_text a_hash (ok one_service) (at (pos 1)) (serving, []))
on_reload-Programmed_example =
    on_reload-Programmed replace is_text a_hash one_service (codes "1") (at (pos 1)) serving []
      accepts_one_service hashed refl refl refl

two_targets : health_targets one_address_twice.services ≡ (web_target ∷ []) ++ web_target ∷ []
unfolding health_targets health_target libra_flux.Base.milliseconds libra_flux.Base.wrap_int64
two_targets = refl

starts_first : (start (web_target ∷ []) (new_scheduler true true)).0 ≡ none
unfolding start start_loop start_one validate_target new_scheduler has insert ◌=s◌
starts_first = refl

second_valid : validate_target web_target ≡ ok tt
unfolding validate_target ◌=s◌
second_valid = refl

second_taken : has web_key (start (web_target ∷ []) (new_scheduler true true)).1.runners ≡ true
unfolding start start_loop start_one validate_target new_scheduler has insert ◌=s◌
second_taken = refl

abbrev doubled : Engine
doubled = engine (some one_address_twice) false false false

start-duplicate_example :
    ((start_health_scheduler doubled).0 ≡ some (start_failed (duplicate_target web_key)))
    × ((start_health_scheduler doubled).1.scheduler ≡ none)
    × ((s : Scheduler) × ((start_health_scheduler doubled).1.orphans ≡ s ∷ [])
        × AllRunning s.runners (web_target ∷ []))
start-duplicate_example =
    start-duplicate doubled {c = one_address_twice} (web_target ∷ []) web_target [] refl two_targets
      starts_first second_valid second_taken

calculate_backoff_bounds_example :
    (2 ≤ 1 → calculate_backoff 7 2 ≡ 0)
    × (◌≡◌ {A = ℕ} 2 2
        → (5 * second ≤ calculate_backoff 7 2) × (calculate_backoff 7 2 < 6 * second))
    × (3 ≤ 2 → (10 * second ≤ calculate_backoff 7 2) × (calculate_backoff 7 2 < 12 * second))
calculate_backoff_bounds_example = calculate_backoff_bounds 7 2
