-- ===== src/Daemon/Gating.antt =====
-- internal/daemon/engine.go: the virtual address decides whether the kernel is programmed.
use libra_flux.Base.{
  suc, ◌≡◌, ◌⊎◌, Bool, true, false, Option, none, some, List, [], arith, ℤ, ok, err, if◌then◌else◌,
}
use libra_flux.Base.Text.{GoString}
use libra_flux.Config.Types.{Config, Service}
use libra_flux.Daemon.Weights.{apply_effective_weights}
use libra_flux.Daemon.Engine.{Engine}
use libra_flux.Daemon.Handlers.{
  Readings, is_after, begin_reconcile, finish_reconcile, try_reconcile, finish_disable, try_disable,
  become_active, become_standby, on_vip_acquired, on_vip_released, on_presence, on_vip_tick,
}

module _ {W : Type 0} (apply : List Service → GoString → W → Option GoString × W) where
  -- A check that fails changes nothing.
  pub tick_failed :
      (x : GoString) (r₁ r₂ : Readings) (e : Engine) (w : W)
      → on_vip_tick apply (err x) r₁ r₂ (e, w) ≡ (e, w)
  unfolding on_vip_tick
  tick_failed x r₁ r₂ e w = ground arith

  try_reconcile-active :
      (r : Readings) (p : Engine × W)
      → ((try_reconcile apply r p).0.active ≡ p.0.active)
        × ((try_reconcile apply r p).0.cfg ≡ p.0.cfg)
        × ((try_reconcile apply r p).0.pending_disable ≡ p.0.pending_disable)
  unfolding try_reconcile begin_reconcile finish_reconcile
  try_reconcile-active r (e, w) = ground arith

  try_disable-active :
      (t : ℤ) (p : Engine × W)
      → ((try_disable apply t p).0.active ≡ p.0.active)
        × ((try_disable apply t p).0.cfg ≡ p.0.cfg)
        × ((try_disable apply t p).0.pending_reconcile ≡ p.0.pending_reconcile)
  unfolding try_disable finish_disable
  try_disable-active t (e, w) = ground arith

  presence-active :
      (c : Config) (present : Bool) (r : Readings) (p : Engine × W)
      → ((on_presence apply c present r p).0.active ≡ present)
        × ((on_presence apply c present r p).0.cfg ≡ p.0.cfg)
  unfolding on_presence on_vip_acquired on_vip_released become_active become_standby
  presence-active c true r (e, w) = ground (arith, try_reconcile-active r (become_active c e, w))
  presence-active c false r (e, w) =
      ground (arith, try_disable-active r.elapsed (become_standby c e, w))

  -- What the attempt does to the world, when it has one to make and when not.
  abbrev wanted : Config → Engine → List Service
  wanted c e = apply_effective_weights c.services e.backend_weights

  try_reconcile-idle :
      (r : Readings) (e : Engine) (w : W)
      → (e.active ≡ false) ⊎ (e.pending_reconcile ≡ false)
      → try_reconcile apply r (e, w) ≡ (e, w)
  unfolding try_reconcile begin_reconcile
  try_reconcile-idle r e w h = ground arith

  try_disable-idle :
      (t : ℤ) (e : Engine) (w : W)
      → (e.active ≡ true) ⊎ (e.pending_disable ≡ false)
      → try_disable apply t (e, w) ≡ (e, w)
  unfolding try_disable
  try_disable-idle t e w h = ground arith

  try_disable-cleared :
      (t : ℤ) (e : Engine) (w : W) (c : Config)
      → e.cfg ≡ some c
      → e.active ≡ false
      → e.pending_disable ≡ true
      → (apply [] c.network.frontend.vip w).0 ≡ none
      → ((try_disable apply t (e, w)).0.pending_disable ≡ false)
        × ((try_disable apply t (e, w)).1 ≡ (apply [] c.network.frontend.vip w).1)
  unfolding try_disable finish_disable
  try_disable-cleared t e w c hc ha hp ok_ = ground arith

  try_reconcile-applied :
      (r : Readings) (e : Engine) (w : W) (c : Config)
      → e.cfg ≡ some c
      → is_after r.now e.next_retry ≡ true
      → e.active ≡ true
      → e.pending_reconcile ≡ true
      → (apply (wanted c e) c.network.frontend.vip w).0 ≡ none
      → ((try_reconcile apply r (e, w)).0.pending_reconcile ≡ false)
        × ((try_reconcile apply r (e, w)).0.reconcile_attempts ≡ 0)
        × ((try_reconcile apply r (e, w)).0.next_retry ≡ none)
        × ((try_reconcile apply r (e, w)).1 ≡ (apply (wanted c e) c.network.frontend.vip w).1)
  unfolding try_reconcile begin_reconcile finish_reconcile
  try_reconcile-applied r e w c hc hn ha hp ok_ = ground arith

  try_reconcile-refused :
      (r : Readings) (e : Engine) (w : W) (c : Config) (x : GoString)
      → e.cfg ≡ some c
      → is_after r.now e.next_retry ≡ true
      → e.active ≡ true
      → e.pending_reconcile ≡ true
      → (apply (wanted c e) c.network.frontend.vip w).0 ≡ some x
      → ((try_reconcile apply r (e, w)).0.pending_reconcile ≡ true)
        × ((try_reconcile apply r (e, w)).0.reconcile_attempts ≡ suc e.reconcile_attempts)
  unfolding try_reconcile begin_reconcile finish_reconcile
  try_reconcile-refused r e w c x hc hn ha hp bad = ground arith

  -- After a check that succeeds, the engine is active exactly when the address was present, and keeps
  -- its configuration.
  pub tick-active :
      (present : Bool) (r₁ r₂ : Readings) (e : Engine) (w : W) {c : Config}
      → e.cfg ≡ some c
      → ((on_vip_tick apply (ok present) r₁ r₂ (e, w)).0.active ≡ present)
        × ((on_vip_tick apply (ok present) r₁ r₂ (e, w)).0.cfg ≡ some c)
  unfolding on_vip_tick
  tick-active true r₁ r₂ e w {c} hc =
      let next = on_presence apply c true r₁ (e, w) in
      rw (hc, on_vip_tick)
        (ground (arith, presence-active c true r₁ (e, w), try_reconcile-active r₂ next))
  tick-active false r₁ r₂ e w {c} hc =
      let next = on_presence apply c false r₁ (e, w) in
      rw (hc, on_vip_tick)
        (ground (arith, presence-active c false r₁ (e, w), try_disable-active r₂.elapsed next))

  -- A tick that finds the address present, with a configuration, no wait for a retry in force and
  -- either a standby engine or an unfinished reconcile, applies the weighted services: when the
  -- reconciler succeeds, the world is the one it left, no reconcile is pending, no attempt is counted
  -- and no time for a retry is set, and no removal is pending, but for one that an engine that was
  -- active already had pending.
  pub tick-programs :
      (r₁ r₂ : Readings) (e : Engine) (w : W) {c : Config}
      → e.cfg ≡ some c
      → is_after r₁.now e.next_retry ≡ true
      → is_after r₂.now e.next_retry ≡ true
      → (e.active ≡ false) ⊎ (e.pending_reconcile ≡ true)
      → (apply (wanted c e) c.network.frontend.vip w).0 ≡ none
      → ((on_vip_tick apply (ok true) r₁ r₂ (e, w)).0.pending_reconcile ≡ false)
        × ((on_vip_tick apply (ok true) r₁ r₂ (e, w)).0.reconcile_attempts ≡ 0)
        × ((on_vip_tick apply (ok true) r₁ r₂ (e, w)).0.next_retry ≡ none)
        × ((on_vip_tick apply (ok true) r₁ r₂ (e, w)).0.pending_disable
            ≡ (if e.active then e.pending_disable else false))
        × ((on_vip_tick apply (ok true) r₁ r₂ (e, w)).1
            ≡ (apply (wanted c e) c.network.frontend.vip w).1)
  unfolding on_vip_tick on_presence on_vip_acquired become_active try_reconcile begin_reconcile
      finish_reconcile
  tick-programs r₁ r₂ e w {c} hc h₁ h₂ hp done = ground arith

  -- A tick that finds the address absent, with a configuration and either an active engine or an
  -- unfinished removal, applies the empty list: when the reconciler succeeds, the world is the one it
  -- left, and no removal is pending.
  pub tick-withdraws :
      (r₁ r₂ : Readings) (e : Engine) (w : W) {c : Config}
      → e.cfg ≡ some c
      → (e.active ≡ true) ⊎ (e.pending_disable ≡ true)
      → (apply [] c.network.frontend.vip w).0 ≡ none
      → ((on_vip_tick apply (ok false) r₁ r₂ (e, w)).0.pending_disable ≡ false)
        × ((on_vip_tick apply (ok false) r₁ r₂ (e, w)).1 ≡ (apply [] c.network.frontend.vip w).1)
  unfolding on_vip_tick on_presence on_vip_released become_standby try_disable finish_disable
  tick-withdraws r₁ r₂ e w {c} hc hp done = ground arith
