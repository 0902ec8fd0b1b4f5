-- ===== src/Daemon/Handlers.antt =====
-- internal/daemon/engine.go: the handlers of the main loop, over a world `W` that the reconciler's
-- `Apply` changes. What a handler asks of the clock, the network, the loader and the hash is an
-- argument. The logger, which nothing reads, is left out.
use libra_flux.Base.{
  ℕ, ◌+◌, Bool, true, false, not, ◌&&◌, ◌||◌, Option, none, some, List, [], ◌∷◌, ℤ, pos, ◌+ℤ◌,
  ltb_ℤ, Result, ok, err, if◌then◌else◌, length,
}
use libra_flux.Base.Text.{GoString, ◌=s◌}
use libra_flux.Base.Assoc.{insert}
use libra_flux.Config.Types.{Config, Service}
use libra_flux.Config.Validator.{ConfigError, validate}
use libra_flux.Health.Runner.{BackendKey, key_eq, State, state_eqb, healthy}
use libra_flux.Health.Scheduler.{StartError, new_scheduler, start}
use libra_flux.Daemon.Weights.{apply_effective_weights, health_targets, count_backends}
use libra_flux.Daemon.Backoff.{calculate_backoff}
use libra_flux.Daemon.Engine.{
  Engine, emit, config_loaded, config_changed, vip_acquired, vip_released, health_state_changed,
  backend_weight_changed, set_owner, count_acquire, count_release, set_duration, count_success,
  count_failure, set_healthy, set_weight,
}

-- What one attempt reads of the clock: at its start, after a failure, for the jitter, and how many
-- milliseconds the reconciler took.
pub record Readings : Type 0 where
  pub now : ℤ
  pub later : ℤ
  pub nanos : ℕ
  pub elapsed : ℤ

-- What `tryReconcile` takes along when it leaves its first locked region.
pub record Attempt : Type 0 where
  pub config : Config
  pub desired : List Service
  pub attempts : ℕ

-- now.After(retry); the zero Time is before every other.
abbrev pub is_after : ℤ → Option ℤ → Bool
is_after now none = true
is_after now (some retry) = ltb_ℤ retry now

-- `tryReconcile` up to the call of `Apply`; none means that it returns.
unfoldable pub begin_reconcile : ℤ → Engine → Option Attempt
begin_reconcile now e = if not (is_after now e.next_retry) then none else elim e.cfg [
  | none ↦ none
  | some c ↦
      if not e.active || not e.pending_reconcile
      then none
      else some (record {
        config = c;
        desired = apply_effective_weights c.services e.backend_weights;
        attempts = e.reconcile_attempts;
      })
]

-- `tryReconcile` after the call of `Apply`, given its error or nil.
unfoldable pub finish_reconcile : Readings → Attempt → Option GoString → Engine → Engine
unfolding emit
finish_reconcile r a none e =
    let t = emit count_success (emit (set_duration r.elapsed) e) in
    record t { pending_reconcile = false; reconcile_attempts = 0; next_retry = none }
finish_reconcile r a (some x) e =
    let t = emit count_failure (emit (set_duration r.elapsed) e) in
    record t {
      pending_reconcile = true;
      reconcile_attempts = t.reconcile_attempts + 1;
      next_retry = some (r.later +ℤ pos (calculate_backoff r.nanos (a.attempts + 1)));
    }

unfoldable pub request_reconcile : Engine → Engine
request_reconcile e = record e { request_pending = true }

-- The health scheduler's calls of its observer.
unfoldable pub on_state_change : BackendKey → State → State → Engine → Engine
unfolding emit
on_state_change k old new e = elim e.cfg [
  | none ↦ e
  | some c ↦ emit (health_state_changed k old new) (emit (set_healthy k (state_eqb new healthy)) e)
]

unfoldable pub on_weight_change : BackendKey → ℤ → ℤ → Engine → Engine
unfolding emit request_reconcile
on_weight_change k old new e = elim e.cfg [
  | none ↦ e
  | some c ↦
      let t = record e {
        backend_weights = insert k new e.backend_weights;
        pending_reconcile = true;
      } in
      let u = emit (backend_weight_changed k old new) (emit (set_weight k new) t) in
      if e.active then request_reconcile u else u
]

-- `Stop` returns when every runner has ended, and nothing refers to the scheduler from then on.
unfoldable pub stop_health_scheduler : Engine → Engine
stop_health_scheduler e = record e { scheduler = none }

pub data RunError : Type 0 where
  load_failed hash_failed : GoString → RunError
  invalid_config : ConfigError → RunError
  missing_config : RunError
  start_failed : StartError → RunError
  check_failed : GoString → RunError

-- `stopHealthScheduler`, `healthTargets`, and the `Start` of a new scheduler.
unfoldable pub start_health_scheduler : Engine → Option RunError × Engine
unfolding stop_health_scheduler
start_health_scheduler e = elim e.cfg [
  | none ↦ (some missing_config, e)
  | some c ↦
      let quiet = stop_health_scheduler e in
      elim (health_targets c.services) [
        | [] ↦ (none, quiet)
        | t ∷ ts ↦
            let (x, s) = start (t ∷ ts) (new_scheduler true true) in
            elim x [
              | some y ↦ (some (start_failed y), record quiet { orphans = s ∷ quiet.orphans })
              | none ↦ (none, record quiet { scheduler = some s })
            ]
      ]
]

module _ (is_ip : GoString → Bool) (hash_config : Config → Result GoString GoString) where
  -- The part of `loadAndSetConfig` after the checks.
  unfoldable pub set_config : Config → GoString → Bool → Engine → Engine
  unfolding emit
  set_config c hash is_startup e =
      let t = record e { cfg = some c; cfg_hash = hash; backend_weights = [] } in
      let u =
        emit (config_loaded hash (length c.services) (count_backends c.services) is_startup) t in
      if not (e.cfg_hash =s []) && not (e.cfg_hash =s hash)
      then emit (config_changed e.cfg_hash hash) u
      else u

  unfoldable pub load_and_set_config :
      Result GoString Config → Bool → Engine → Option RunError × Engine
  load_and_set_config loaded is_startup e = elim loaded [
    | err x ↦ (some (load_failed x), e)
    | ok c ↦
        let (invalid, filled) = validate is_ip c in
        elim invalid [
          | some y ↦ (some (invalid_config y), e)
          | none ↦ elim (hash_config filled) [
            | err z ↦ (some (hash_failed z), e)
            | ok hash ↦ (none, set_config filled hash is_startup e)
          ]
        ]
  ]

-- `tryDisable` after the call of `Apply`.
unfoldable pub finish_disable : ℤ → Option GoString → Engine → Engine
unfolding emit
finish_disable elapsed none e =
    let t = emit count_success (emit (set_duration elapsed) e) in
    record t { pending_disable = false }
finish_disable elapsed (some x) e =
    let t = emit count_failure (emit (set_duration elapsed) e) in
    record t { pending_disable = true }

unfoldable pub become_active : Config → Engine → Engine
unfolding emit
become_active c e =
    let t = emit (vip_acquired c.network.frontend.vip) e in
    let u = record t { active = true; pending_disable = false; pending_reconcile = true } in
    emit (set_owner true) (emit count_acquire u)

unfoldable pub become_standby : Config → Engine → Engine
unfolding emit
become_standby c e =
    let t = emit (vip_released c.network.frontend.vip) e in
    let u = record t { active = false; pending_reconcile = false; pending_disable = true } in
    emit (set_owner false) (emit count_release u)

module _ {W : Type 0} (apply : List Service → GoString → W → Option GoString × W) where
  unfoldable pub try_reconcile : Readings → Engine × W → Engine × W
  try_reconcile r (e, w) = elim (begin_reconcile r.now e) [
    | none ↦ (e, w)
    | some a ↦
        let (x, w') = apply a.desired a.config.network.frontend.vip w in
        (finish_reconcile r a x e, w')
  ]

  unfoldable pub try_disable : ℤ → Engine × W → Engine × W
  try_disable elapsed (e, w) = elim e.cfg [
    | none ↦ (e, w)
    | some c ↦
        if e.active || not e.pending_disable
        then (e, w)
        else (let (x, w') = apply [] c.network.frontend.vip w in (finish_disable elapsed x e, w'))
  ]

  unfoldable pub on_vip_acquired : Config → Readings → Engine × W → Engine × W
  on_vip_acquired c r (e, w) = try_reconcile r (become_active c e, w)

  unfoldable pub on_vip_released : Config → ℤ → Engine × W → Engine × W
  on_vip_released c elapsed (e, w) = try_disable elapsed (become_standby c e, w)

  -- The `switch` of `onVIPTick`.
  unfoldable pub on_presence : Config → Bool → Readings → Engine × W → Engine × W
  unfolding emit
  on_presence c present r (e, w) =
      if present && not e.active
      then on_vip_acquired c r (e, w)
      else if not present && e.active
      then on_vip_released c r.elapsed (e, w)
      else (emit (set_owner present) e, w)

  -- `onVIPTick`; the two attempts that it may make have clock readings of their own.
  unfoldable pub on_vip_tick : Result GoString Bool → Readings → Readings → Engine × W → Engine × W
  on_vip_tick check r₁ r₂ (e, w) = elim e.cfg [
    | none ↦ (e, w)
    | some c ↦ elim check [
      | err x ↦ (e, w)
      | ok present ↦
          let next = on_presence c present r₁ (e, w) in
          if present then try_reconcile r₂ next else try_disable r₂.elapsed next
    ]
  ]

  unfoldable pub initial_vip_sync :
      Result GoString Bool → Readings → Engine × W → Option RunError × Engine × W
  unfolding emit
  initial_vip_sync check r (e, w) = elim e.cfg [
    | none ↦ (some missing_config, e, w)
    | some c ↦ elim check [
      | err x ↦ (some (check_failed x), e, w)
      | ok present ↦
          let t = record e {
            active = present;
            pending_reconcile = present;
            pending_disable = false;
          } in
          let u = emit (set_owner present) t in
          let (e', w') = if present then try_reconcile r (u, w) else (u, w) in (none, e', w')
    ]
  ]

  -- The case of `reconcileReqCh` in the main loop.
  unfoldable pub on_request : Readings → Engine × W → Engine × W
  on_request r (e, w) =
      if e.request_pending
      then try_reconcile r (record e { request_pending = false }, w)
      else (e, w)

  module _ (is_ip : GoString → Bool) (hash_config : Config → Result GoString GoString) where
    -- `onReload` after the new configuration is in place.
    unfoldable pub after_reload : Readings → Engine × W → Engine × W
    after_reload r (e, w) =
        let t = (start_health_scheduler (stop_health_scheduler e)).1 in
        let u = record t { pending_reconcile = true } in
        if t.active then try_reconcile r (u, w) else (u, w)

    unfoldable pub on_reload : Result GoString Config → Readings → Engine × W → Engine × W
    on_reload loaded r (e, w) =
        let (x, e') = load_and_set_config is_ip hash_config loaded false e in
        elim x [ some y ↦ (e', w) | none ↦ after_reload r (e', w) ]

    -- `Run` before its loop. An error of the initial check is only logged.
    unfoldable pub run_startup :
        Result GoString Config
        → Result GoString Bool
        → Readings
        → Engine × W
        → Option RunError × Engine × W
    run_startup loaded check r (e, w) =
        let (x, e₁) = load_and_set_config is_ip hash_config loaded true e in
        elim x [
          | some y ↦ (some y, e₁, w)
          | none ↦
              let (z, e₂) = start_health_scheduler e₁ in
              elim z [
                | some v ↦ (some v, e₂, w)
                | none ↦ let (u, e₃, w') = initial_vip_sync check r (e₂, w) in (none, e₃, w')
              ]
        ]
