-- ===== src/Config/Validator.antt =====
-- internal/config/validator.go: `Validate`. A block of tests that return on the first fault is a `do`
-- block. The blocks of `validateGlobal` are in the order of the source, each a definition of its own.
use libra_flux.Base.{
  ℕ, suc, Bool, true, false, not, ◌&&◌, ◌||◌, Option, none, some, List, [], ◌∷◌, ℤ, pos, ltb_ℤ,
  eqb_ℤ, Result, ok, err, ◌>>=◌, ◌>>◌, fail_if, ltb, if◌then◌else◌, length, any,
}
use libra_flux.Base.Text.{GoString, ◌=s◌, codes, to_lower, trim_space, has_prefix}
use libra_flux.Base.Assoc.{Assoc, has, insert, string_eq}
use libra_flux.Config.Types.{
  Config, NodeConfig, NetworkConfig, VrrpConfig, ConsoleLogConfig, GelfLogConfig, InfluxConfig,
  PromConfig, SystemConfig, DaemonConfig, PortRange, Backend, HealthCheck, Service,
}
use libra_flux.Config.Names.{is_valid_name}

pub data ConfigError : Type 0 where
  invalid_mode invalid_node_name invalid_node_role : GoString → ConfigError
  invalid_frontend_interface invalid_frontend_vip invalid_backend_interface : GoString → ConfigError
  vip_required : ConfigError
  invalid_cidr invalid_vrid invalid_priority_primary invalid_priority_secondary : ℤ → ConfigError
  invalid_advert_interval : ℤ → ConfigError
  invalid_console_level invalid_gelf_protocol : GoString → ConfigError
  gelf_host_required gelf_facility_required influx_required : ConfigError
  invalid_gelf_port invalid_push_interval invalid_prometheus_port : ℤ → ConfigError
  invalid_prometheus_path invalid_prometheus_bind invalid_tuning_profile : GoString → ConfigError
  invalid_lock_idle_timeout invalid_reconcile_interval invalid_cache_ttl : ℤ → ConfigError
  invalid_service_name service_name_too_long : ℕ → GoString → ConfigError
  duplicate_service_name : GoString → ConfigError
  invalid_protocol invalid_scheduler : GoString → GoString → ConfigError
  no_ports : GoString → ConfigError
  invalid_port : GoString → ℤ → ConfigError
  invalid_port_range reversed_port_range : GoString → ℤ → ℤ → ConfigError
  invalid_backend_address : GoString → ℕ → GoString → ConfigError
  invalid_backend_weight invalid_backend_port : GoString → ℕ → ℤ → ConfigError
  invalid_health_type : GoString → GoString → ConfigError
  invalid_health_port health_interval_low health_timeout_low : GoString → ℤ → ConfigError
  invalid_fail_after invalid_recover_after : GoString → ℤ → ConfigError

abbrev pub Check : Type 0
Check = Result ConfigError (Unit {0})

-- x < lo || x > hi
abbrev pub outside : ℤ → ℤ → ℤ → Bool
outside lo hi x = ltb_ℤ x lo || ltb_ℤ hi x

unfoldable pub one_of : List GoString → GoString → Bool
unfolding any
one_of words s = any words (λ w. s =s w)

unfoldable pub validate_mode : GoString → Check
validate_mode mode =
    let m = to_lower (trim_space mode) in
    fail_if (not (m =s []) && not (m =s codes "dr") && not (m =s codes "nat")) (invalid_mode mode)

unfoldable pub validate_node : NodeConfig → Check
validate_node n = do
  fail_if (not (is_valid_name n.name)) (invalid_node_name n.name)
  fail_if (not (n.role =s codes "primary") && not (n.role =s codes "secondary"))
      (invalid_node_role n.role)

-- `is_ip s` says that `net.ParseIP(s)` is not nil.
unfoldable pub validate_network : (GoString → Bool) → NetworkConfig → Check
validate_network is_ip n = do
  fail_if (not (is_valid_name n.frontend.interface))
      (invalid_frontend_interface n.frontend.interface)
  fail_if (n.frontend.vip =s []) vip_required
  fail_if (not (is_ip n.frontend.vip)) (invalid_frontend_vip n.frontend.vip)
  fail_if (outside (pos 1) (pos 32) n.frontend.cidr) (invalid_cidr n.frontend.cidr)
  fail_if (not (is_valid_name n.backend.interface)) (invalid_backend_interface n.backend.interface)

unfoldable pub validate_vrrp : VrrpConfig → Check
validate_vrrp v = do
  fail_if (outside (pos 1) (pos 255) v.vrid) (invalid_vrid v.vrid)
  fail_if (outside (pos 1) (pos 255) v.priority_primary)
      (invalid_priority_primary v.priority_primary)
  fail_if (outside (pos 1) (pos 255) v.priority_secondary)
      (invalid_priority_secondary v.priority_secondary)
  fail_if (ltb_ℤ v.advert_interval_ms (pos 100)) (invalid_advert_interval v.advert_interval_ms)

abbrev pub log_levels : List GoString
log_levels = codes "debug" ∷ codes "info" ∷ codes "warn" ∷ codes "error" ∷ []

unfoldable pub validate_console : ConsoleLogConfig → Check
validate_console c =
    fail_if (not (c.level =s []) && not (one_of log_levels (to_lower c.level)))
      (invalid_console_level c.level)

unfoldable pub validate_gelf : GelfLogConfig → Check
validate_gelf g = if not g.enabled then ok tt else do
  fail_if (g.host =s []) gelf_host_required
  fail_if (outside (pos 1) (pos 65535) g.port) (invalid_gelf_port g.port)
  let proto = to_lower g.protocol
  fail_if (not (proto =s codes "udp") && not (proto =s codes "tcp"))
      (invalid_gelf_protocol g.protocol)
  fail_if (g.facility =s []) gelf_facility_required

unfoldable pub validate_influx : InfluxConfig → Check
validate_influx i = if not i.enabled then ok tt else do
  fail_if (i.url =s [] || i.token =s [] || i.org =s [] || i.bucket =s []) influx_required
  fail_if (ltb_ℤ i.push_interval_seconds (pos 1)) (invalid_push_interval i.push_interval_seconds)

unfoldable pub validate_prometheus : (GoString → Bool) → PromConfig → Check
validate_prometheus is_ip p = if not p.enabled then ok tt else do
  fail_if (outside (pos 1) (pos 65535) p.port) (invalid_prometheus_port p.port)
  fail_if (p.path =s [] || not (has_prefix p.path (codes "/"))) (invalid_prometheus_path p.path)
  fail_if
      (not (p.bind =s [])
        && not (p.bind =s codes "0.0.0.0")
        && not (p.bind =s codes "::")
        && not (is_ip p.bind))
      (invalid_prometheus_bind p.bind)

abbrev pub profiles : List GoString
profiles = codes "minimal" ∷ codes "balanced" ∷ codes "aggressive" ∷ []

unfoldable pub validate_system : SystemConfig → Check
validate_system s = do
  fail_if (not (s.tuning_profile =s []) && not (one_of profiles (to_lower s.tuning_profile)))
      (invalid_tuning_profile s.tuning_profile)
  fail_if (ltb_ℤ s.lock_idle_timeout_minutes (pos 0))
      (invalid_lock_idle_timeout s.lock_idle_timeout_minutes)

-- The block that fills in the defaults: `cfg` is changed also where a later test fails.
unfoldable pub validate_daemon : DaemonConfig → Option ConfigError × DaemonConfig
validate_daemon d =
    let interval =
      if eqb_ℤ d.reconcile_interval_ms (pos 0) then pos 1000 else d.reconcile_interval_ms in
    let e = record d { reconcile_interval_ms = interval } in
    let cache = d.state_cache in
    let ttl = if eqb_ℤ cache.ttl_ms (pos 0) then pos 500 else cache.ttl_ms in
    let filled = record e { state_cache = record cache { ttl_ms = ttl } } in
    if outside (pos 100) (pos 60000) interval
    then (some (invalid_reconcile_interval interval), e)
    else if ltb_ℤ cache.ttl_ms (pos 0)
    then (some (invalid_cache_ttl cache.ttl_ms), e)
    else if not cache.enabled
    then (none, e)
    else if outside (pos 1) (pos 60000) ttl
    then (some (invalid_cache_ttl ttl), filled)
    else (none, filled)

abbrev port_fault : ℤ → Bool
port_fault = outside (pos 1) (pos 65535)

unfoldable pub validate_ports : GoString → List ℤ → Check
validate_ports name [] = ok tt
validate_ports name (p ∷ ps) = do
  fail_if (port_fault p) (invalid_port name p)
  validate_ports name ps

unfoldable pub validate_ranges : GoString → List PortRange → Check
validate_ranges name [] = ok tt
validate_ranges name (r ∷ rs) = do
  fail_if (port_fault r.start || port_fault r.end) (invalid_port_range name r.start r.end)
  fail_if (ltb_ℤ r.end r.start) (reversed_port_range name r.start r.end)
  validate_ranges name rs

unfoldable pub validate_backend : (GoString → Bool) → GoString → ℕ → Backend → Check
validate_backend is_ip name j b = do
  fail_if (not (is_ip b.address)) (invalid_backend_address name j b.address)
  fail_if (ltb_ℤ b.weight (pos 1)) (invalid_backend_weight name j b.weight)
  fail_if (not (eqb_ℤ b.port (pos 0)) && port_fault b.port) (invalid_backend_port name j b.port)

unfoldable pub validate_backends : (GoString → Bool) → GoString → ℕ → List Backend → Check
validate_backends is_ip name j [] = ok tt
validate_backends is_ip name j (b ∷ bs) = do
  validate_backend is_ip name j b
  validate_backends is_ip name (suc j) bs

unfoldable pub validate_health : GoString → HealthCheck → Check
validate_health name h = if not h.enabled then ok tt else do
  fail_if (not (to_lower h.type =s codes "tcp")) (invalid_health_type name h.type)
  fail_if (port_fault h.port) (invalid_health_port name h.port)
  fail_if (ltb_ℤ h.interval_ms (pos 100)) (health_interval_low name h.interval_ms)
  fail_if (ltb_ℤ h.timeout_ms (pos 100)) (health_timeout_low name h.timeout_ms)
  fail_if (ltb_ℤ h.fail_after (pos 1)) (invalid_fail_after name h.fail_after)
  fail_if (ltb_ℤ h.recover_after (pos 1)) (invalid_recover_after name h.recover_after)

abbrev pub is_empty {ℓ} : {A : Type ℓ} → List A → Bool
is_empty [] = true
is_empty (x ∷ xs) = false

abbrev pub schedulers : List GoString
schedulers = codes "rr" ∷ codes "wrr" ∷ codes "sh" ∷ []

-- The tests of one service, but for those of its name.
unfoldable pub validate_body : (GoString → Bool) → Service → Check
validate_body is_ip s = do
  let proto = to_lower s.protocol
  fail_if (not (proto =s codes "tcp") && not (proto =s codes "udp"))
      (invalid_protocol s.name s.protocol)
  fail_if (not (one_of schedulers (to_lower s.scheduler))) (invalid_scheduler s.name s.scheduler)
  fail_if (is_empty s.ports && is_empty s.port_ranges) (no_ports s.name)
  validate_ports s.name s.ports
  validate_ranges s.name s.port_ranges
  validate_backends is_ip s.name 0 s.backends
  validate_health s.name s.health

-- One round of the loop over the services, `seen` its map of names.
unfoldable pub validate_service :
    (GoString → Bool) → ℕ → Assoc GoString Bool → Service → Result ConfigError (Assoc GoString Bool)
validate_service is_ip i seen s = do
  fail_if (not (is_valid_name s.name)) (invalid_service_name i s.name)
  fail_if (ltb 64 (length s.name)) (service_name_too_long i s.name)
  fail_if (has s.name seen) (duplicate_service_name s.name)
  validate_body is_ip s
  ok (insert s.name true seen)

unfoldable pub services_loop : (GoString → Bool) → ℕ → Assoc GoString Bool → List Service → Check
services_loop is_ip i seen [] = ok tt
services_loop is_ip i seen (s ∷ ss) = do
  more ← validate_service is_ip i seen s
  services_loop is_ip (suc i) more ss

unfoldable pub validate_services : (GoString → Bool) → List Service → Check
validate_services is_ip ss = services_loop is_ip 0 [] ss

-- The tests of `validateGlobal` above its last block.
unfoldable pub validate_static : (GoString → Bool) → Config → Check
validate_static is_ip c = do
  validate_mode c.mode
  validate_node c.node
  validate_network is_ip c.network
  validate_vrrp c.vrrp
  validate_console c.observability.logging.console
  validate_gelf c.observability.logging.gelf
  validate_influx c.observability.metrics.influx_db
  validate_prometheus is_ip c.observability.metrics.prometheus
  validate_system c.system

unfoldable pub validate_global : (GoString → Bool) → Config → Option ConfigError × Config
validate_global is_ip c = elim (validate_static is_ip c) [
  | err e ↦ (some e, c)
  | ok _ ↦ let (e, d) = validate_daemon c.daemon in (e, record c { daemon = d })
]

abbrev pub error_of : Check → Option ConfigError
error_of (ok _) = none
error_of (err e) = some e

-- `Validate`: the error that it returns, if any, and the configuration with the defaults filled in.
unfoldable pub validate : (GoString → Bool) → Config → Option ConfigError × Config
validate is_ip c =
    let (e, filled) = validate_global is_ip c in
    elim e [
      | some x ↦ (some x, filled)
      | none ↦ (error_of (validate_services is_ip filled.services), filled)
    ]
