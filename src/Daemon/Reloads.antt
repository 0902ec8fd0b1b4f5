-- ===== src/Daemon/Reloads.antt =====
-- internal/daemon/engine.go: `loadAndSetConfig`, `onReload` and the restart of the health scheduler.
use libra_flux.Base.{
  ◌≡◌, refl, ap, Bool, true, false, Option, none, some, List, [], ◌∷◌, ◌++◌, arith, Result, ok, err,
}
use libra_flux.Base.Text.{GoString}
use libra_flux.Base.Assoc.{has}
use libra_flux.Config.Types.{Config, Service}
use libra_flux.Config.Validator.{ConfigError, validate}
use libra_flux.Health.Runner.{Target, key_eq}
use libra_flux.Health.Scheduler.{
  Scheduler, StartError, duplicate_target, new_scheduler, validate_target, start_one, start,
}
use libra_flux.Health.Starting.{AllRunning, start-running, start-partial}
use libra_flux.Daemon.Weights.{health_targets}
use libra_flux.Daemon.Engine.{Engine}
use libra_flux.Daemon.Handlers.{
  Readings, RunError, start_failed, invalid_config, hash_failed, load_and_set_config, on_reload,
  start_health_scheduler, stop_health_scheduler,
}

module _ (is_ip : GoString → Bool) (hash_config : Config → Result GoString GoString) where
  -- The configuration cannot be read, is refused, or has no hash.
  pub data IsUnusable : Result GoString Config → Type 0 where
    unreadable : (x : GoString) → IsUnusable (err x)
    refused : (c : Config) (y : ConfigError) → (validate is_ip c).0 ≡ some y → IsUnusable (ok c)
    unhashed :
        (c : Config) (z : GoString)
        → (validate is_ip c).0 ≡ none
        → hash_config (validate is_ip c).1 ≡ err z
        → IsUnusable (ok c)

  load-IsUnusable :
      (loaded : Result GoString Config) (b : Bool) (e : Engine)
      → IsUnusable loaded
      → ((x : RunError) × (load_and_set_config is_ip hash_config loaded b e ≡ (some x, e)))
  unfolding load_and_set_config
  load-IsUnusable loaded b e (unreadable x) = (_, refl)
  load-IsUnusable loaded b e (refused c y h) = (invalid_config y, rw (h, load_and_set_config) refl)
  load-IsUnusable loaded b e (unhashed c z h q) =
      (hash_failed z, rw (h, q, load_and_set_config) refl)

  -- A reload of a configuration that cannot be read, is refused or has no hash changes neither the
  -- engine nor the world.
  pub reload-IsUnusable :
      {W : Type 0} (apply : List Service → GoString → W → Option GoString × W)
      (loaded : Result GoString Config) (r : Readings) (e : Engine) (w : W)
      → IsUnusable loaded
      → on_reload apply is_ip hash_config loaded r (e, w) ≡ (e, w)
  unfolding on_reload
  reload-IsUnusable apply loaded r e w h =
      let (x, q) = load-IsUnusable loaded false e h in ground (arith, q)

start-refused :
    (e : Engine) {c : Config} (t : Target) (ts : List Target) (y : StartError) (s : Scheduler)
    → e.cfg ≡ some c
    → health_targets c.services ≡ t ∷ ts
    → start (t ∷ ts) (new_scheduler true true) ≡ (some y, s)
    → ((start_health_scheduler e).0 ≡ some (start_failed y))
      × ((start_health_scheduler e).1.scheduler ≡ none)
      × ((start_health_scheduler e).1.orphans ≡ s ∷ e.orphans)
unfolding start_health_scheduler stop_health_scheduler
start-refused e t ts y s hc ht hs =
    let failed : (start (t ∷ ts) (new_scheduler true true)).0 ≡ some y =
      ap (λ (p : Option StartError × Scheduler). p.0) hs in
    let left : (start (t ∷ ts) (new_scheduler true true)).1 ≡ s =
      ap (λ (p : Option StartError × Scheduler). p.1) hs in
    rw (hc, ht, failed, start_health_scheduler) (refl, refl, ap (λ x. x ∷ e.orphans) left)

start_one-duplicate :
    (t : Target) (s : Scheduler)
    → validate_target t ≡ ok tt
    → has t.key s.runners ≡ true
    → start_one t s.runners ≡ err (duplicate_target t.key)
unfolding start_one
start_one-duplicate t s hv hk = rw (hv, hk, start_one) refl

-- When the health targets of the configuration are some that can all be started, then one that is valid
-- but has the key of one of those, and any others, the start of the health scheduler returns the
-- error for that key; the engine then has no scheduler, and one that it no longer refers to runs
-- all of the first targets.
pub start-duplicate :
    (e : Engine) {c : Config} (us : List Target) (t : Target) (ts : List Target)
    → e.cfg ≡ some c
    → health_targets c.services ≡ us ++ t ∷ ts
    → (start us (new_scheduler true true)).0 ≡ none
    → validate_target t ≡ ok tt
    → has t.key (start us (new_scheduler true true)).1.runners ≡ true
    → ((start_health_scheduler e).0 ≡ some (start_failed (duplicate_target t.key)))
      × ((start_health_scheduler e).1.scheduler ≡ none)
      × ((s : Scheduler) × ((start_health_scheduler e).1.orphans ≡ s ∷ e.orphans)
          × AllRunning s.runners us)
unfolding new_scheduler
start-duplicate e [] t ts hc ht hu hv hk =
    let fresh = new_scheduler true true in
    let partial =
      start-partial [] t ts fresh refl refl hu (start_one-duplicate t (start [] fresh).1 hv hk) in
    let (x, none_, orphans) = start-refused e t ts (duplicate_target t.key) _ hc ht partial in
    (x, none_, ((start [] fresh).1, orphans, (start-running [] fresh hu).1))
start-duplicate e (u ∷ us) t ts hc ht hu hv hk =
    let fresh = new_scheduler true true in
    let one = start_one-duplicate t (start (u ∷ us) fresh).1 hv hk in
    let partial = start-partial (u ∷ us) t ts fresh refl refl hu one in
    let (x, none_, orphans) =
      start-refused e u (us ++ t ∷ ts) (duplicate_target t.key) _ hc ht partial in
    (x, none_, ((start (u ∷ us) fresh).1, orphans, (start-running (u ∷ us) fresh hu).1))
