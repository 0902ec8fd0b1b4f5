-- ===== src/Shell/ServiceMode.antt =====
-- internal/shell/service_mode.go: the lines of the service mode, which edit one service. A line that
-- returns an error leaves the service as it was, so the service comes only with success.
use libra_flux.Base.{
  Bool, true, false, not, Option, none, some, List, [], ◌∷◌, ◌++◌, map, ℤ, pos, Result, ok, err,
  ◌>>=◌, ◌>>◌, fail_if, if◌then◌else◌,
}
use libra_flux.Base.Text.{GoString, codes, ◌=s◌, to_lower, trim_space}
use libra_flux.Base.Split.{join, sort_strings}
use libra_flux.Base.Atoi.{NumError, atoi}
use libra_flux.Base.Decimal.{itoa_ℤ}
use libra_flux.Config.Types.{Service, Backend, HealthCheck, PortRange}
use libra_flux.Shell.Parsing.{ParseError, parse_csv_ports, parse_port_range}

pub data ServiceError : Type 0 where
  service_name_required : ServiceError
  protocol_usage scheduler_usage ports_usage port_range_usage backend_usage : ServiceError
  no_usage no_backend_usage health_usage tcp_only : ServiceError
  bad_ports bad_range : ParseError → ServiceError
  invalid_ip : GoString → ServiceError
  invalid_weight bad_health_number : NumError → ServiceError
  missing_health_value unknown_health_field : GoString → ServiceError
  unknown_no unknown_service_command : GoString → ServiceError

-- NewServiceMode
unfoldable pub new_service_mode : Service → Result ServiceError Service
new_service_mode s = do fail_if (trim_space s.name =s []) service_name_required; ok s

abbrev pub Edit : Type 0
Edit = Service → Result ServiceError Service

unfoldable pub set_protocol : List GoString → Edit
set_protocol [] s = err protocol_usage
set_protocol (p ∷ _) s = ok (record s { protocol = to_lower p })

unfoldable pub set_scheduler : List GoString → Edit
set_scheduler [] s = err scheduler_usage
set_scheduler (p ∷ _) s = ok (record s { scheduler = to_lower p })

unfoldable pub store_ports : Result ParseError (List ℤ) → Edit
store_ports (err e) s = err (bad_ports e)
store_ports (ok ports) s = ok (record s { ports = ports })

unfoldable pub set_ports : List GoString → Edit
unfolding store_ports
set_ports [] s = err ports_usage
set_ports (p ∷ _) s = store_ports (parse_csv_ports p) s

unfoldable pub store_range : Result ParseError PortRange → Edit
store_range (err e) s = err (bad_range e)
store_range (ok r) s = ok (record s { port_ranges = s.port_ranges ++ r ∷ [] })

unfoldable pub add_port_range : List GoString → Edit
unfolding store_range
add_port_range [] s = err port_range_usage
add_port_range (p ∷ _) s = store_range (parse_port_range p) s

unfoldable pub store_backend : GoString → Result NumError ℤ → Edit
store_backend ip (err e) s = err (invalid_weight e)
store_backend ip (ok w) s =
    ok
      (record s { backends = s.backends ++ record { address = ip; port = pos 0; weight = w } ∷ [] })

-- `is_ip ip` says that `net.ParseIP(ip)` is not nil.
unfoldable pub add_backend : (GoString → Bool) → List GoString → Edit
unfolding store_backend
add_backend is_ip [] s = err backend_usage
add_backend is_ip (ip ∷ []) s =
    fail_if (not (is_ip ip)) (invalid_ip ip) >> store_backend ip (ok (pos 1)) s
add_backend is_ip (ip ∷ w ∷ _) s =
    fail_if (not (is_ip ip)) (invalid_ip ip) >> store_backend ip (atoi w) s

-- The backends at other addresses, in their order.
unfoldable pub without_address : GoString → List Backend → List Backend
without_address ip [] = []
without_address ip (b ∷ bs) =
    let rest = without_address ip bs in if b.address =s ip then rest else b ∷ rest

unfoldable pub no_backend : List GoString → Edit
unfolding without_address
no_backend [] s = err no_backend_usage
no_backend (ip ∷ _) s = ok (record s { backends = without_address ip s.backends })

-- config.HealthCheck{Enabled: false, Type: "tcp"}
abbrev pub no_health : HealthCheck
no_health = record {
  enabled = false;
  type = codes "tcp";
  port = pos 0;
  interval_ms = pos 0;
  timeout_ms = pos 0;
  fail_after = pos 0;
  recover_after = pos 0;
}

unfoldable pub remove : List GoString → Edit
unfolding no_backend
remove [] s = err no_usage
remove (what ∷ rest) s =
    if to_lower what =s codes "backend"
    then no_backend rest s
    else if to_lower what =s codes "health"
    then ok (record s { health = no_health })
    else err (unknown_no what)

-- The setting of one field of the health check, by its name.
unfoldable pub health_field : GoString → Option (ℤ → HealthCheck → HealthCheck)
health_field name =
    let field = to_lower name in
    if field =s codes "port"
    then some (λ v h. record h { port = v })
    else if field =s codes "interval"
    then some (λ v h. record h { interval_ms = v })
    else if field =s codes "timeout"
    then some (λ v h. record h { timeout_ms = v })
    else if field =s codes "fail-after"
    then some (λ v h. record h { fail_after = v })
    else if field =s codes "recover-after"
    then some (λ v h. record h { recover_after = v })
    else none

unfoldable pub put_field :
    Option (ℤ → HealthCheck → HealthCheck)
    → GoString
    → Result NumError ℤ
    → HealthCheck
    → Result ServiceError HealthCheck
put_field none name v h = err (unknown_health_field name)
put_field (some set) name (err e) h = err (bad_health_number e)
put_field (some set) name (ok v) h = ok (set v h)

abbrev pub missing_value : Option (ℤ → HealthCheck → HealthCheck) → GoString → ServiceError
missing_value none name = unknown_health_field name
missing_value (some set) name = missing_health_value (to_lower name)

-- The fields of the line, two words at a time.
unfoldable pub health_loop : List GoString → HealthCheck → Result ServiceError HealthCheck
unfolding health_field put_field
health_loop [] h = ok h
health_loop (name ∷ []) h = err (missing_value (health_field name) name)
health_loop (name ∷ v ∷ rest) h = put_field (health_field name) name (atoi v) h >>= health_loop rest

abbrev pub fresh_health : HealthCheck
fresh_health = record {
  enabled = true;
  type = codes "tcp";
  port = pos 0;
  interval_ms = pos 0;
  timeout_ms = pos 0;
  fail_after = pos 3;
  recover_after = pos 2;
}

unfoldable pub set_health : List GoString → Edit
unfolding health_loop
set_health [] s = err health_usage
set_health (kind ∷ rest) s = do
  fail_if (not (to_lower kind =s codes "tcp")) tcp_only
  h ← health_loop rest fresh_health
  ok (record s { health = h })

-- The lines that `show` prints.
abbrev ports_lines : List ℤ → List GoString
ports_lines [] = []
ports_lines (p ∷ ps) =
    (codes "  ports " ++ join (codes ",") (sort_strings (map itoa_ℤ (p ∷ ps)))) ∷ []

abbrev range_line : PortRange → GoString
range_line r = codes "  port-range " ++ itoa_ℤ r.start ++ codes "-" ++ itoa_ℤ r.end

abbrev backend_line : Backend → GoString
backend_line b = codes "  backend " ++ b.address ++ codes " weight " ++ itoa_ℤ b.weight

abbrev health_lines : HealthCheck → List GoString
health_lines h =
    if h.enabled
    then (codes "  health tcp port "
        ++ itoa_ℤ h.port
        ++ codes " interval "
        ++ itoa_ℤ h.interval_ms
        ++ codes " timeout "
        ++ itoa_ℤ h.timeout_ms)
      ∷ []
    else []

unfoldable pub show : Service → List GoString
show s =
    (codes "service " ++ s.name) ∷ (codes "  protocol " ++ s.protocol) ∷ ports_lines s.ports
    ++ map range_line s.port_ranges
    ++ (codes "  scheduler " ++ s.scheduler) ∷ map backend_line s.backends
    ++ health_lines s.health

-- Handle: the first word of the line, and the others. The lines that are printed come with the service.
abbrev edited : Result ServiceError Service → Result ServiceError (Service × List GoString)
edited (ok s) = ok (s, [])
edited (err e) = err e

unfoldable pub handle :
    (GoString → Bool)
    → GoString
    → List GoString
    → Service
    → Result ServiceError (Service × List GoString)
unfolding set_protocol set_scheduler set_ports add_port_range add_backend remove set_health show
handle is_ip word rest s =
    let command = to_lower word in
    if command =s codes "show"
    then ok (s, show s)
    else if command =s codes "protocol"
    then edited (set_protocol rest s)
    else if command =s codes "scheduler"
    then edited (set_scheduler rest s)
    else if command =s codes "ports"
    then edited (set_ports rest s)
    else if command =s codes "port-range"
    then edited (add_port_range rest s)
    else if command =s codes "backend"
    then edited (add_backend is_ip rest s)
    else if command =s codes "no"
    then edited (remove rest s)
    else if command =s codes "health"
    then edited (set_health rest s)
    else err (unknown_service_command word)
