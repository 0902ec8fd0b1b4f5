-- ===== src/Daemon/Retries.antt =====
-- internal/daemon/engine.go: what follows an `Apply` that fails.
use libra_flux.Base.{suc, ◌+◌, ◌≡◌, true, false, Option, some, List, arith, ℤ, pos, ◌+ℤ◌, ltb_ℤ}
use libra_flux.Base.Text.{GoString}
use libra_flux.Config.Types.{Config, Service}
use libra_flux.Daemon.Weights.{apply_effective_weights}
use libra_flux.Daemon.Backoff.{calculate_backoff}
use libra_flux.Daemon.Engine.{Engine}
use libra_flux.Daemon.Handlers.{
  Readings, is_after, begin_reconcile, finish_reconcile, try_reconcile,
}

module _ {W : Type 0} (apply : List Service → GoString → W → Option GoString × W) where
  -- The end of the wait that a failed attempt sets.
  abbrev pub retry_time : Readings → Engine → ℤ
  retry_time r e = r.later +ℤ pos (calculate_backoff r.nanos (e.reconcile_attempts + 1))

  -- When an attempt is due and the reconciler fails, the reconcile stays pending, the attempt is
  -- counted, and an attempt that comes before the end of the wait changes neither the engine nor the
  -- world.
  pub refused-waits :
      (r r' : Readings) (e : Engine) (w : W) {c : Config} {x : GoString}
      → e.cfg ≡ some c
      → is_after r.now e.next_retry ≡ true
      → e.active ≡ true
      → e.pending_reconcile ≡ true
      → (apply (apply_effective_weights c.services e.backend_weights) c.network.frontend.vip w).0
        ≡ some x
      → ltb_ℤ (retry_time r e) r'.now ≡ false
      → ((try_reconcile apply r (e, w)).0.pending_reconcile ≡ true)
        × ((try_reconcile apply r (e, w)).0.reconcile_attempts ≡ suc e.reconcile_attempts)
        × (try_reconcile apply r' (try_reconcile apply r (e, w)) ≡ try_reconcile apply r (e, w))
  unfolding try_reconcile begin_reconcile finish_reconcile
  refused-waits r r' e w {c} {x} hc hn ha hp bad early = ground arith
