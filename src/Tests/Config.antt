-- ===== src/Tests/Config.antt =====
-- internal/config at a concrete configuration.
use libra_flux.Base.{◌≡◌, refl, ◌↔◌, none, All, all, any, ok}
use libra_flux.Base.Text.{
  ◌=s◌, codes, to_lower, trim_space, trim_left, is_blank, lower, contains, has_prefix,
}
use libra_flux.Base.Assoc.{has, insert}
use libra_flux.Config.Names.{
  is_valid_name, contains_injection_chars, is_name_char, matches_name, is_valid_name-matches_name,
}
use libra_flux.Config.Validator.{
  validate, validate_services, validate_global, validate_static, validate_mode, validate_node,
  validate_network, validate_vrrp, validate_console, one_of, validate_gelf, validate_influx,
  services_loop, validate_backend, validate_backends, validate_body, validate_daemon,
  validate_health, validate_ports, validate_prometheus, validate_ranges, validate_service,
  validate_system,
}
use libra_flux.Config.Services.{ServiceOk, DistinctNames, validate_services_iff}
use libra_flux.Config.Defaults.{ConfigOk, DaemonFilled, filled, validate_iff, validate-filled}
use libra_flux.Tests.Fixtures.{is_text, one_service, one_address_twice}

validate_iff_example : ((validate is_text one_service).0 ≡ none) ↔ ConfigOk is_text one_service
validate_iff_example = validate_iff is_text one_service

pub accepts_one_service : (validate is_text one_service).0 ≡ none
unfolding validate validate_global validate_static validate_mode ◌=s◌ to_lower trim_space trim_left
    is_blank lower validate_node is_valid_name validate_network validate_vrrp validate_console
    one_of validate_gelf validate_influx has insert any all contains contains_injection_chars
    has_prefix is_name_char matches_name services_loop validate_backend validate_backends
    validate_body validate_daemon validate_health validate_ports validate_prometheus validate_ranges
    validate_service validate_services validate_system
accepts_one_service = refl

-- Two backends of one service with one address are accepted.
accepts_one_address_twice : (validate is_text one_address_twice).0 ≡ none
unfolding validate validate_global validate_static validate_mode ◌=s◌ to_lower trim_space trim_left
    is_blank lower validate_node is_valid_name validate_network validate_vrrp validate_console
    one_of validate_gelf validate_influx has insert any all contains contains_injection_chars
    has_prefix is_name_char matches_name services_loop validate_backend validate_backends
    validate_body validate_daemon validate_health validate_ports validate_prometheus validate_ranges
    validate_service validate_services validate_system
accepts_one_address_twice = refl

validate-filled_example :
    ((validate is_text one_service).1 ≡ filled one_service)
    × DaemonFilled (filled one_service).daemon
    × (validate is_text (filled one_service) ≡ (none, filled one_service))
validate-filled_example = validate-filled is_text one_service accepts_one_service

validate_services_iff_example :
    (validate_services is_text one_service.services ≡ ok tt)
    ↔ (All (ServiceOk is_text) one_service.services × DistinctNames one_service.services)
validate_services_iff_example = validate_services_iff is_text one_service.services

is_valid_name-matches_name_example : is_valid_name (codes "eth0;") ≡ matches_name (codes "eth0;")
is_valid_name-matches_name_example = is_valid_name-matches_name (codes "eth0;")
