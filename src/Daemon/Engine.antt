-- ===== src/Daemon/Engine.antt =====
-- internal/daemon/engine.go: the engine's state, what it emits, and its construction. The lock makes
-- each locked region atomic; the regions of `tryReconcile` are kept apart in `Handlers`.
use libra_flux.Base.{
  ℕ, Bool, false, not, Option, none, some, List, [], ◌∷◌, ℤ, pos, leb_ℤ, ltb_ℤ, milliseconds,
  Result, ok, ◌>>◌, fail_if, if◌then◌else◌,
}
use libra_flux.Base.Text.{GoString, ◌=s◌}
use libra_flux.Base.Assoc.{Assoc}
use libra_flux.Config.Types.{Config}
use libra_flux.Health.Runner.{BackendKey, State}
use libra_flux.Health.Scheduler.{Scheduler}
use libra_flux.Daemon.Backoff.{second}

-- Audit events and metrics, in the order in which they are emitted.
pub data Effect : Type 0 where
  config_loaded : GoString → ℕ → ℕ → Bool → Effect
  config_changed : GoString → GoString → Effect
  vip_acquired vip_released : GoString → Effect
  health_state_changed : BackendKey → State → State → Effect
  backend_weight_changed : BackendKey → ℤ → ℤ → Effect
  set_owner : Bool → Effect
  count_acquire count_release : Effect
  set_duration : ℤ → Effect
  count_success count_failure : Effect
  set_healthy : BackendKey → Bool → Effect
  set_weight : BackendKey → ℤ → Effect

-- `request_pending` is the one place of the channel `reconcileReqCh`. `next_retry` is none for the zero
-- Time. `orphans` is no field of the code: it holds the schedulers whose `Start` failed, which nothing
-- refers to any more, and whose runners go on.
pub record Engine : Type 0 where
  pub vip_check_interval : ℤ
  pub cfg : Option Config
  pub cfg_hash : GoString
  pub active : Bool
  pub pending_reconcile : Bool
  pub pending_disable : Bool
  pub backend_weights : Assoc BackendKey ℤ
  pub scheduler : Option Scheduler
  pub reconcile_attempts : ℕ
  pub next_retry : Option ℤ
  pub request_pending : Bool
  pub effects : List Effect
  pub orphans : List Scheduler

pub record EngineOptions : Type 0 where
  pub config_path : GoString
  pub has_network : Bool
  pub has_reconciler : Bool
  pub vip_check_interval : ℤ

pub data OptionError : Type 0 where
  missing_config_path missing_network missing_reconciler : OptionError

unfoldable pub new_engine : EngineOptions → Result OptionError Engine
new_engine o = do
  fail_if (o.config_path =s []) missing_config_path
  fail_if (not o.has_network) missing_network
  fail_if (not o.has_reconciler) missing_reconciler
  ok (record {
    vip_check_interval =
        if leb_ℤ o.vip_check_interval (pos 0) then pos second else o.vip_check_interval;
    cfg = none;
    cfg_hash = [];
    active = false;
    pending_reconcile = false;
    pending_disable = false;
    backend_weights = [];
    scheduler = none;
    reconcile_attempts = 0;
    next_retry = none;
    request_pending = false;
    effects = [];
    orphans = [];
  })

-- The newest effect is the head of the list.
unfoldable pub emit : Effect → Engine → Engine
emit x e = record e { effects = x ∷ e.effects }

unfoldable pub vip_check_interval_from_config : Engine → ℤ
vip_check_interval_from_config e = elim e.cfg [
  | none ↦ e.vip_check_interval
  | some c ↦
      if ltb_ℤ (pos 0) c.daemon.reconcile_interval_ms
      then milliseconds c.daemon.reconcile_interval_ms
      else e.vip_check_interval
]
