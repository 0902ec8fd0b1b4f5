-- ===== src/Daemon/Races.antt =====
-- internal/daemon/engine.go: `tryReconcile` gives up the lock while the reconciler runs, so that an
-- observer's call can come between its two locked regions.
use libra_flux.Base.{◌≡◌, true, false, Option, none, some, List, arith, ℤ}
use libra_flux.Base.Text.{GoString}
use libra_flux.Base.Assoc.{lookup, insert, lookup-insert, =k_refl}
use libra_flux.Config.Types.{Config, Service}
use libra_flux.Health.Runner.{BackendKey, key_eq}
use libra_flux.Daemon.Weights.{apply_effective_weights}
use libra_flux.Daemon.Engine.{Engine, emit}
use libra_flux.Daemon.Handlers.{
  Readings, Attempt, is_after, begin_reconcile, finish_reconcile, try_reconcile, on_request,
  on_weight_change, request_reconcile,
}

-- The engine after an attempt whose `Apply` succeeds and during which a weight changes.
abbrev pub overtaken : Readings → Attempt → BackendKey → ℤ → ℤ → Engine → Engine
overtaken r a k old new e = finish_reconcile r a none (on_weight_change k old new e)

-- When a weight changes while a reconcile with the older weights runs, and that reconcile succeeds, the
-- new weight is stored and a request is queued, but nothing is pending any more: the handling of the
-- request applies nothing, and the world is left as it is.
pub weight_change_lost :
    {W : Type 0} (apply : List Service → GoString → W → Option GoString × W) (r r' : Readings)
    (a : Attempt) (k : BackendKey) (old new : ℤ) (e : Engine) (w : W)
    → begin_reconcile r.now e ≡ some a
    → (lookup k (overtaken r a k old new e).backend_weights ≡ some new)
      × ((overtaken r a k old new e).request_pending ≡ true)
      × ((overtaken r a k old new e).pending_reconcile ≡ false)
      × ((on_request apply r' (overtaken r a k old new e, w)).1 ≡ w)
unfolding begin_reconcile finish_reconcile on_weight_change request_reconcile emit on_request
    try_reconcile
weight_change_lost apply r r' a k old new e w h =
    ground (arith, lookup-insert k k new e.backend_weights, =k_refl k)

-- When a weight changes in an active engine with a configuration, no reconcile runs, and no wait for a
-- retry is in force, the handling of the request that it queues applies the services with the new
-- weights: after a success nothing is pending, and the world is the one that the reconciler left.
pub weight_change_applied :
    {W : Type 0} (apply : List Service → GoString → W → Option GoString × W) (r : Readings)
    (k : BackendKey) (old new : ℤ) (e : Engine) (w : W) {c : Config}
    → e.cfg ≡ some c
    → e.active ≡ true
    → is_after r.now e.next_retry ≡ true
    → (apply
        (apply_effective_weights c.services (insert k new e.backend_weights))
        c.network.frontend.vip
        w).0
      ≡ none
    → ((on_request apply r (on_weight_change k old new e, w)).0.pending_reconcile ≡ false)
      × ((on_request apply r (on_weight_change k old new e, w)).1
          ≡ (apply
              (apply_effective_weights c.services (insert k new e.backend_weights))
              c.network.frontend.vip
              w).1)
unfolding begin_reconcile finish_reconcile on_weight_change request_reconcile emit on_request
    try_reconcile
weight_change_applied apply r k old new e w hc ha hr done = ground arith
