-- ===== src/Daemon/Loop.antt =====
-- internal/daemon/engine.go: the `select` loop of `Run` together with the health observer's calls, as a
-- sequence of events.
use libra_flux.Base.{
  ◌≡◌, refl, sym, ◌⊎◌, inl, inr, Bool, true, false, Option, List, [], ◌∷◌, arith, ℤ, Result, ok,
  err, Option-cases, Bool-cases, ◌||◌, not, pos,
}
use mathlib.Core.Path.{subst, ◌∙◌}
use libra_flux.Base.Text.{GoString}
use libra_flux.Config.Types.{Config, Service}
use libra_flux.Health.Runner.{BackendKey, State, healthy}
use libra_flux.Daemon.Engine.{Engine, emit}
use libra_flux.Daemon.Handlers.{
  Readings, begin_reconcile, on_vip_tick, on_presence, try_disable, finish_disable, try_reconcile,
  on_request, on_reload, after_reload, on_state_change, on_weight_change, request_reconcile,
  start_health_scheduler, stop_health_scheduler, load_and_set_config, set_config,
}

pub data Event : Type 0 where
  vip_tick : Result GoString Bool → Readings → Readings → Event
  reload : Result GoString Config → Readings → Event
  request : Readings → Event
  state_change : BackendKey → State → State → Event
  weight_change : BackendKey → ℤ → ℤ → Event

module _ {W : Type 0} (apply : List Service → GoString → W → Option GoString × W)
    (is_ip : GoString → Bool) (hash_config : Config → Result GoString GoString) where
  unfoldable pub handle : Event → Engine × W → Engine × W
  handle (vip_tick check r₁ r₂) p = on_vip_tick apply check r₁ r₂ p
  handle (reload loaded r) p = on_reload apply is_ip hash_config loaded r p
  handle (request r) p = on_request apply r p
  handle (state_change k old new) (e, w) = (on_state_change k old new e, w)
  handle (weight_change k old new) (e, w) = (on_weight_change k old new e, w)

  unfoldable pub run : List Event → Engine × W → Engine × W
  run [] p = p
  run (x ∷ xs) p = run xs (handle x p)

  -- No check of the events finds the address.
  unfoldable pub IsAbsent : List Event → Type 0
  IsAbsent [] = Unit
  IsAbsent (vip_tick (ok true) r₁ r₂ ∷ xs) = ⊥
  IsAbsent (x ∷ xs) = IsAbsent xs

  IsAbsent-split :
      (x : Event) (xs : List Event) → IsAbsent (x ∷ xs) → IsAbsent (x ∷ []) × IsAbsent xs
  unfolding IsAbsent
  IsAbsent-split (vip_tick (ok true) r₁ r₂) xs a = elim a [ ]
  IsAbsent-split (vip_tick (ok false) r₁ r₂) xs a = (tt, a)
  IsAbsent-split (vip_tick (err y) r₁ r₂) xs a = (tt, a)
  IsAbsent-split (reload loaded r) xs a = (tt, a)
  IsAbsent-split (request r) xs a = (tt, a)
  IsAbsent-split (state_change k old new) xs a = (tt, a)
  IsAbsent-split (weight_change k old new) xs a = (tt, a)

  load_and_set_config-active :
      (loaded : Result GoString Config) (b : Bool) (e : Engine)
      → (load_and_set_config is_ip hash_config loaded b e).1.active ≡ e.active
  unfolding load_and_set_config set_config
  load_and_set_config-active loaded b e = ground arith

  start_health_scheduler-active : (e : Engine) → (start_health_scheduler e).1.active ≡ e.active
  unfolding start_health_scheduler stop_health_scheduler
  start_health_scheduler-active e = ground arith

  -- The world is as before, or as one removal of all services leaves it.
  IsRemoval : W → W → Type 0
  IsRemoval w w' = (w' ≡ w) ⊎ ((vip : GoString) × (w' ≡ (apply [] vip w).1))

  try_disable-IsRemoval :
      (t : ℤ) (e : Engine) (w : W)
      → ((try_disable apply t (e, w)).0.active ≡ e.active)
        × IsRemoval w (try_disable apply t (e, w)).1
  unfolding try_disable finish_disable IsRemoval
  try_disable-IsRemoval t e w = elim (Option-cases e.cfg) [
    | inl none_ ↦ (ground arith, inl (ground arith))
    | inr (c, hc) ↦ elim (Bool-cases (e.active || not e.pending_disable)) [
      | inl idle ↦ (ground arith, inl (ground arith))
      | inr due ↦ (ground arith, inr (c.network.frontend.vip, ground arith))
    ]
  ]

  tick_absent :
      (r₁ r₂ : Readings) (e : Engine) (w : W)
      → e.active ≡ false
      → ((on_vip_tick apply (ok false) r₁ r₂ (e, w)).0.active ≡ false)
        × IsRemoval w (on_vip_tick apply (ok false) r₁ r₂ (e, w)).1
  unfolding on_vip_tick on_presence IsRemoval emit try_disable finish_disable
  tick_absent r₁ r₂ e w h = elim (Option-cases e.cfg) [
    | inl none_ ↦ (ground arith, inl (ground arith))
    | inr (c, hc) ↦ elim (Bool-cases e.pending_disable) [
      | inl due ↦ (ground arith, inr (c.network.frontend.vip, ground arith))
      | inr idle ↦ (ground arith, inl (ground arith))
    ]
  ]

  tick_unknown :
      (x : GoString) (r₁ r₂ : Readings) (p : Engine × W) → on_vip_tick apply (err x) r₁ r₂ p ≡ p
  unfolding on_vip_tick
  tick_unknown x r₁ r₂ (e, w) = ground arith

  request_idle :
      (r : Readings) (e : Engine) (w : W)
      → e.active ≡ false
      → ((on_request apply r (e, w)).0.active ≡ false) × ((on_request apply r (e, w)).1 ≡ w)
  unfolding on_request try_reconcile begin_reconcile
  request_idle r e w h = ground arith

  observer_idle :
      (k : BackendKey) (s t : State) (a b : ℤ) (e : Engine)
      → ((on_state_change k s t e).active ≡ e.active)
        × ((on_weight_change k a b e).active ≡ e.active)
  unfolding on_state_change on_weight_change request_reconcile emit
  observer_idle k s t a b e = ground arith

  after_reload_idle :
      (r : Readings) (e : Engine) (w : W)
      → e.active ≡ false
      → ((after_reload apply is_ip hash_config r (e, w)).0.active ≡ false)
        × ((after_reload apply is_ip hash_config r (e, w)).1 ≡ w)
  unfolding after_reload stop_health_scheduler
  after_reload_idle r e w h =
      ground (arith, start_health_scheduler-active (stop_health_scheduler e))

  reload_idle :
      (loaded : Result GoString Config) (r : Readings) (e : Engine) (w : W)
      → e.active ≡ false
      → ((on_reload apply is_ip hash_config loaded r (e, w)).0.active ≡ false)
        × ((on_reload apply is_ip hash_config loaded r (e, w)).1 ≡ w)
  unfolding on_reload
  reload_idle loaded r e w h =
      let e' = (load_and_set_config is_ip hash_config loaded false e).1 in
      ground (arith, load_and_set_config-active loaded false e, after_reload_idle r e' w)

  handle-IsRemoval :
      (x : Event) (e : Engine) (w : W)
      → IsAbsent (x ∷ [])
      → e.active ≡ false
      → ((handle x (e, w)).0.active ≡ false) × IsRemoval w (handle x (e, w)).1
  unfolding IsAbsent handle IsRemoval
  handle-IsRemoval (vip_tick (ok true) r₁ r₂) e w a h = elim a [ ]
  handle-IsRemoval (vip_tick (ok false) r₁ r₂) e w a h = tick_absent r₁ r₂ e w h
  handle-IsRemoval (vip_tick (err y) r₁ r₂) e w a h = rw (tick_unknown y r₁ r₂ (e, w)) (h, inl refl)
  handle-IsRemoval (reload loaded r) e w a h =
      let (q, same) = reload_idle loaded r e w h in (q, inl same)
  handle-IsRemoval (request r) e w a h = let (q, same) = request_idle r e w h in (q, inl same)
  handle-IsRemoval (state_change k old new) e w a h =
      ((observer_idle k old new (pos 0) (pos 0) e).0 ∙ h, inl refl)
  handle-IsRemoval (weight_change k old new) e w a h =
      ((observer_idle k healthy healthy old new e).1 ∙ h, inl refl)

  module _ (P : W → Type 0) (kept : (vip : GoString) (w : W) → P w → P (apply [] vip w).1) where
    removal-kept : {w w' : W} → IsRemoval w w' → P w → P w'
    unfolding IsRemoval
    removal-kept (inl q) p = subst P (sym q) p
    removal-kept (inr (vip, q)) p = subst P (sym q) (kept vip _ p)

    -- From a standby engine, as long as no check finds the address, the engine stays in standby, and
    -- whatever property of the world the application of the empty list keeps, still holds.
    pub run-standby :
        (xs : List Event) (e : Engine) (w : W)
        → IsAbsent xs
        → e.active ≡ false
        → P w
        → ((run xs (e, w)).0.active ≡ false) × P (run xs (e, w)).1
    unfolding run
    run-standby [] e w a h p = (h, p)
    run-standby (x ∷ xs) e w a h p =
        let (now_, later_) = IsAbsent-split x xs a in
        let (q, m) = handle-IsRemoval x e w now_ h in
        run-standby xs (handle x (e, w)).0 (handle x (e, w)).1 later_ q (removal-kept m p)
