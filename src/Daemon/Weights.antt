-- ===== src/Daemon/Weights.antt =====
-- internal/daemon/engine.go: `applyEffectiveWeights`, `healthTargets` and `countBackends`.
use libra_flux.Base.{
  ℕ, ◌+◌, none, some, List, [], ◌∷◌, ◌++◌, map, ℤ, pos, ltb_ℤ, milliseconds, if◌then◌else◌, length,
}
use libra_flux.Base.Assoc.{Assoc, lookup}
use libra_flux.Config.Types.{Service, Backend}
use libra_flux.Health.Runner.{BackendKey, key_eq, Target}

unfoldable pub backend_key : Service → Backend → BackendKey
backend_key s b = record { service = s.name; backend = b.address }

-- The weight that a backend gets: the one that its health gave it, unless that is missing or negative.
unfoldable pub effective_weight : Assoc BackendKey ℤ → Service → Backend → ℤ
unfolding backend_key
effective_weight weights s b = elim (lookup (backend_key s b) weights) [
  | none ↦ b.weight
  | some w ↦ if ltb_ℤ w (pos 0) then b.weight else w
]

unfoldable pub weighted : Assoc BackendKey ℤ → Service → Backend → Backend
weighted weights s b = record b { weight = effective_weight weights s b }

-- The copies of the services; the originals are not written to.
unfoldable pub apply_effective_weights : List Service → Assoc BackendKey ℤ → List Service
apply_effective_weights [] weights = []
apply_effective_weights (s ∷ ss) weights =
    record s { backends = map (weighted weights s) s.backends } ∷ apply_effective_weights ss weights

unfoldable pub health_target : Service → Backend → Target
unfolding backend_key
health_target s b = record {
  key = backend_key s b;
  check_port = s.health.port;
  interval = milliseconds s.health.interval_ms;
  timeout = milliseconds s.health.timeout_ms;
  fail_after = s.health.fail_after;
  recover_after = s.health.recover_after;
  configured_weight = b.weight;
}

unfoldable pub health_targets : List Service → List Target
health_targets [] = []
health_targets (s ∷ ss) =
    (if s.health.enabled then map (health_target s) s.backends else []) ++ health_targets ss

unfoldable pub count_backends : List Service → ℕ
count_backends [] = 0
count_backends (s ∷ ss) = length s.backends + count_backends ss
