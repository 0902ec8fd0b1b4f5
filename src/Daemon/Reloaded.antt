-- ===== src/Daemon/Reloaded.antt =====
-- internal/daemon/engine.go: what `onReload` makes of a usable configuration.
use libra_flux.Base.{
  ◌≡◌, refl, ap, sym, ◌∙◌, Bool, true, false, Option, none, some, List, [], ◌∷◌, map, arith, Result,
  ok, if◌then◌else◌,
}
use mathlib.Core.Path.{subst}
use libra_flux.Base.Text.{GoString}
use libra_flux.Base.Assoc.{lookup}
use libra_flux.Config.Types.{Config, Service, Backend}
use libra_flux.Config.Validator.{validate}
use libra_flux.Health.Runner.{key_eq}
use libra_flux.Daemon.Weights.{weighted, effective_weight, apply_effective_weights}
use libra_flux.Daemon.Engine.{Engine}
use libra_flux.Daemon.Handlers.{
  Readings, is_after, load_and_set_config, set_config, begin_reconcile, finish_reconcile,
  try_reconcile, after_reload, on_reload, start_health_scheduler, stop_health_scheduler,
}

-- Without weights from health, every backend has its own.
weighted_none : (s : Service) (bs : List Backend) → map (weighted [] s) bs ≡ bs
unfolding weighted effective_weight lookup
weighted_none s [] = refl
weighted_none s (b ∷ bs) = ap (λ (cs : List Backend). b ∷ cs) (weighted_none s bs)

apply_effective_weights_none : (ss : List Service) → apply_effective_weights ss [] ≡ ss
unfolding apply_effective_weights
apply_effective_weights_none [] = refl
apply_effective_weights_none (s ∷ ss) =
    rw (weighted_none s s.backends, apply_effective_weights_none ss) refl

-- The restart of the health scheduler leaves the rest of the engine.
pub record Kept (e t : Engine) : Type 0 where
  pub cfg : t.cfg ≡ e.cfg
  pub cfg_hash : t.cfg_hash ≡ e.cfg_hash
  pub backend_weights : t.backend_weights ≡ e.backend_weights
  pub active : t.active ≡ e.active
  pub pending_disable : t.pending_disable ≡ e.pending_disable
  pub next_retry : t.next_retry ≡ e.next_retry

restart-Kept : (e : Engine) → Kept e (start_health_scheduler (stop_health_scheduler e)).1
unfolding start_health_scheduler stop_health_scheduler
restart-Kept e = record {
  cfg = ground arith;
  cfg_hash = ground arith;
  backend_weights = ground arith;
  active = ground arith;
  pending_disable = ground arith;
  next_retry = ground arith;
}

-- The services of the configuration are applied as they are configured, and nothing of it is pending.
pub record Programmed {W : Type 0} (apply : List Service → GoString → W → Option GoString × W)
    (f : Config) (hash : GoString) (disable : Bool) (w : W) (p : Engine × W) : Type 0 where
  pub cfg : p.0.cfg ≡ some f
  pub cfg_hash : p.0.cfg_hash ≡ hash
  pub backend_weights : p.0.backend_weights ≡ []
  pub active : p.0.active ≡ true
  pub pending_reconcile : p.0.pending_reconcile ≡ false
  pub pending_disable : p.0.pending_disable ≡ disable
  pub world : p.1 ≡ (apply f.services f.network.frontend.vip w).1

module _ {W : Type 0} (apply : List Service → GoString → W → Option GoString × W) where
  due-Programmed :
      (r : Readings) (e : Engine) (w : W) (f : Config) {hash : GoString} {disable : Bool}
      → e.cfg_hash ≡ hash
      → e.pending_disable ≡ disable
      → e.cfg ≡ some f
      → e.backend_weights ≡ []
      → e.active ≡ true
      → e.pending_reconcile ≡ true
      → is_after r.now e.next_retry ≡ true
      → (apply f.services f.network.frontend.vip w).0 ≡ none
      → Programmed apply f hash disable w (try_reconcile apply r (e, w))
  unfolding try_reconcile begin_reconcile finish_reconcile
  due-Programmed r e w f eh ed hc hw ha hp hn done =
      let same = apply_effective_weights_none f.services in
      record {
        cfg = ground (arith, hw, same);
        cfg_hash = ground (arith, hw, same);
        backend_weights = ground (arith, hw, same);
        active = ground (arith, hw, same);
        pending_reconcile = ground (arith, hw, same);
        pending_disable = ground (arith, hw, same);
        world = ground (arith, hw, same);
      }

  module _ (is_ip : GoString → Bool) (hash_config : Config → Result GoString GoString) where
    after_reload-Programmed :
        (r : Readings) (e : Engine) (w : W) (f : Config) {hash : GoString} {disable : Bool}
        → e.cfg_hash ≡ hash
        → e.pending_disable ≡ disable
        → e.cfg ≡ some f
        → e.backend_weights ≡ []
        → e.active ≡ true
        → is_after r.now e.next_retry ≡ true
        → (apply f.services f.network.frontend.vip w).0 ≡ none
        → Programmed apply f hash disable w (after_reload apply is_ip hash_config r (e, w))
    unfolding after_reload
    after_reload-Programmed r e w f {hash} {disable} eh ed hc hw ha hn done =
        let kept = restart-Kept e in
        let t = (start_health_scheduler (stop_health_scheduler e)).1 in
        let u : Engine = record t { pending_reconcile = true } in
        let due =
          due-Programmed r u w f (kept.cfg_hash ∙ eh) (kept.pending_disable ∙ ed) (kept.cfg ∙ hc)
            (kept.backend_weights ∙ hw) (kept.active ∙ ha) refl (rw kept.next_retry hn) done in
        subst
          (λ b.
            Programmed apply f hash disable w (if b then try_reconcile apply r (u, w) else (u, w)))
          (sym (kept.active ∙ ha)) due

    -- The fields that the loading of an accepted configuration with a hash sets and leaves.
    record Loaded (f : Config) (hash : GoString) (e t : Engine) : Type 0 where
      cfg : t.cfg ≡ some f
      cfg_hash : t.cfg_hash ≡ hash
      backend_weights : t.backend_weights ≡ []
      active : t.active ≡ e.active
      pending_disable : t.pending_disable ≡ e.pending_disable
      next_retry : t.next_retry ≡ e.next_retry

    set_config-Loaded :
        (f : Config) (hash : GoString) (b : Bool) (e : Engine)
        → Loaded f hash e (set_config is_ip hash_config f hash b e)
    unfolding set_config
    set_config-Loaded f hash b e = record {
      cfg = ground arith;
      cfg_hash = ground arith;
      backend_weights = ground arith;
      active = ground arith;
      pending_disable = ground arith;
      next_retry = ground arith;
    }

    -- When an active engine with no wait for a retry in force reloads a configuration that is accepted and
    -- has a hash, whatever weights health gave before and whether or not the health scheduler can be
    -- started again, the services of that configuration, with the defaults filled in, are applied with
    -- the weights that are configured; when the reconciler succeeds, the world is the one it left, the
    -- engine is active with that configuration, its hash and no weights from health, no reconcile is
    -- pending, and a removal is pending if one was.
    pub on_reload-Programmed :
        (c : Config) (hash : GoString) (r : Readings) (e : Engine) (w : W)
        → (validate is_ip c).0 ≡ none
        → hash_config (validate is_ip c).1 ≡ ok hash
        → e.active ≡ true
        → is_after r.now e.next_retry ≡ true
        → (apply (validate is_ip c).1.services (validate is_ip c).1.network.frontend.vip w).0 ≡ none
        → Programmed apply
            (validate is_ip c).1
            hash
            e.pending_disable
            w
            (on_reload apply is_ip hash_config (ok c) r (e, w))
    unfolding on_reload load_and_set_config
    on_reload-Programmed c hash r e w valid hashed ha hn done =
        let f = (validate is_ip c).1 in
        let t = set_config is_ip hash_config f hash false e in
        let loaded = set_config-Loaded f hash false e in
        let after =
          after_reload-Programmed r t w f loaded.cfg_hash loaded.pending_disable loaded.cfg
            loaded.backend_weights (loaded.active ∙ ha) (rw loaded.next_retry hn) done in
        let loads : load_and_set_config is_ip hash_config (ok c) false e ≡ (none, t) =
          rw (valid, hashed, load_and_set_config) refl in
        subst
          (λ p. Programmed apply f hash e.pending_disable w (elim p.0 [
            | some y ↦ (p.1, w)
            | none ↦ after_reload apply is_ip hash_config r (p.1, w)
          ]))
          (sym loads) after
