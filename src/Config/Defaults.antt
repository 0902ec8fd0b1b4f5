-- ===== src/Config/Defaults.antt =====
-- internal/config/validator.go: `Validate` as a whole, and the defaults that it fills in.
use libra_flux.Base.{
  ◌≡◌, refl, ap, ◌∙◌, ◌↔◌, ◌⊎◌, Bool, true, Option, none, arith, ℤ, pos, ◌≤ℤ◌, eqb_ℤ, ok,
  if◌then◌else◌, All,
}
use libra_flux.Base.Text.{GoString}
use libra_flux.Config.Types.{Config, DaemonConfig}
use libra_flux.Config.Services.{ServiceOk, DistinctNames, validate_services_iff}
use libra_flux.Config.Soundness.{StaticOk, static_iff}
use libra_flux.Config.Validator.{
  ConfigError, validate_static, validate_daemon, validate_global, validate_services, validate,
}

-- What the daemon's settings may be before validation: 0 asks for the default.
pub record DaemonOk (d : DaemonConfig) : Type 0 where
  pub interval_ok :
      (d.reconcile_interval_ms ≡ pos 0)
      ⊎ ((pos 100 ≤ℤ d.reconcile_interval_ms) × (d.reconcile_interval_ms ≤ℤ pos 60000))
  pub ttl_positive : pos 0 ≤ℤ d.state_cache.ttl_ms
  pub ttl_bounded : d.state_cache.enabled ≡ true → d.state_cache.ttl_ms ≤ℤ pos 60000

-- And after it.
pub record DaemonFilled (d : DaemonConfig) : Type 0 where
  pub interval_low : pos 100 ≤ℤ d.reconcile_interval_ms
  pub interval_high : d.reconcile_interval_ms ≤ℤ pos 60000
  pub ttl_positive : pos 0 ≤ℤ d.state_cache.ttl_ms
  pub ttl_used :
      d.state_cache.enabled ≡ true
      → (pos 1 ≤ℤ d.state_cache.ttl_ms) × (d.state_cache.ttl_ms ≤ℤ pos 60000)

abbrev default_to : ℤ → ℤ → ℤ
default_to d z = if eqb_ℤ z (pos 0) then d else z

-- The settings with the defaults in the place of zeros; the cache's only if it is enabled.
unfoldable pub fill : DaemonConfig → DaemonConfig
fill d = record {
  reconcile_interval_ms = default_to (pos 1000) d.reconcile_interval_ms;
  state_cache =
      if d.state_cache.enabled
      then record {
        enabled = d.state_cache.enabled;
        ttl_ms = default_to (pos 500) d.state_cache.ttl_ms;
      }
      else d.state_cache;
}

daemon_iff : (d : DaemonConfig) → ((validate_daemon d).0 ≡ none) ↔ DaemonOk d
unfolding validate_daemon
daemon_iff d = ground arith

daemon-fill : (d : DaemonConfig) → DaemonOk d → (validate_daemon d).1 ≡ fill d
unfolding validate_daemon fill
daemon-fill d h = ground arith

fill-DaemonFilled : (d : DaemonConfig) → DaemonOk d → DaemonFilled (fill d)
unfolding fill
fill-DaemonFilled d h = ground arith

fill-DaemonOk : (d : DaemonConfig) → DaemonOk d → DaemonOk (fill d)
unfolding fill
fill-DaemonOk d h = ground arith

fill_idem : (d : DaemonConfig) → fill (fill d) ≡ fill d
unfolding fill
fill_idem d = ground arith

-- A configuration is acceptable: every field is in its range, every service is well formed, and no two
-- services have one name.
pub record ConfigOk (is_ip : GoString → Bool) (c : Config) : Type 0 where
  pub static_ok : StaticOk is_ip c
  pub daemon_ok : DaemonOk c.daemon
  pub services_ok : All (ServiceOk is_ip) c.services
  pub names_ok : DistinctNames c.services

abbrev pub filled : Config → Config
filled c = record c { daemon = fill c.daemon }

-- The three parts of `Validate` as facts about its result.
accepts_parts :
    (is_ip : GoString → Bool) (c : Config)
    → validate_static is_ip c ≡ ok tt
    → validate_daemon c.daemon ≡ (none, fill c.daemon)
    → validate_services is_ip c.services ≡ ok tt
    → validate is_ip c ≡ (none, filled c)
unfolding validate validate_global
accepts_parts is_ip c st dm sv = ground arith

refuses_parts :
    (is_ip : GoString → Bool) (c : Config)
    → (validate is_ip c).0 ≡ none
    → (validate_static is_ip c ≡ ok tt)
      × ((validate_daemon c.daemon).0 ≡ none)
      × (validate_services is_ip c.services ≡ ok tt)
unfolding validate validate_global
refuses_parts is_ip c h = ground arith

accepts :
    (is_ip : GoString → Bool) (c : Config) → ConfigOk is_ip c → validate is_ip c ≡ (none, filled c)
accepts is_ip c h =
    let no_error = (daemon_iff c.daemon).1 h.daemon_ok in
    let changed = daemon-fill c.daemon h.daemon_ok in
    accepts_parts is_ip c ((static_iff is_ip c).1 h.static_ok) (cc (no_error, changed))
      ((validate_services_iff is_ip c.services).1 (h.services_ok, h.names_ok))

refuses : (is_ip : GoString → Bool) (c : Config) → (validate is_ip c).0 ≡ none → ConfigOk is_ip c
refuses is_ip c h =
    let (st, dm, sv) = refuses_parts is_ip c h in
    let services = (validate_services_iff is_ip c.services).0 sv in
    record {
      static_ok = (static_iff is_ip c).0 st;
      daemon_ok = (daemon_iff c.daemon).0 dm;
      services_ok = services.0;
      names_ok = services.1;
    }

filled-StaticOk :
    (is_ip : GoString → Bool) (c : Config) → StaticOk is_ip c → StaticOk is_ip (filled c)
filled-StaticOk is_ip c s = record {
  mode_ok = s.mode_ok;
  node_ok = s.node_ok;
  network_ok = s.network_ok;
  vrrp_ok = s.vrrp_ok;
  console_ok = s.console_ok;
  gelf_ok = s.gelf_ok;
  influx_ok = s.influx_ok;
  prometheus_ok = s.prometheus_ok;
  system_ok = s.system_ok;
}

filled-ConfigOk :
    (is_ip : GoString → Bool) (c : Config) → ConfigOk is_ip c → ConfigOk is_ip (filled c)
filled-ConfigOk is_ip c h = record {
  static_ok = filled-StaticOk is_ip c h.static_ok;
  daemon_ok = fill-DaemonOk c.daemon h.daemon_ok;
  services_ok = h.services_ok;
  names_ok = h.names_ok;
}

filled_idem : (c : Config) → filled (filled c) ≡ filled c
filled_idem c = ap (λ d. record c { daemon = d }) (fill_idem c.daemon)

-- `Validate` returns no error exactly on the acceptable configurations.
pub validate_iff :
    (is_ip : GoString → Bool) (c : Config) → ((validate is_ip c).0 ≡ none) ↔ ConfigOk is_ip c
validate_iff is_ip c = (refuses is_ip c, λ h. rw (accepts is_ip c h) refl)

-- An accepted configuration comes back with the defaults filled in and nothing else changed; its
-- daemon settings are then in the ranges that the daemon relies on, and to validate it again changes
-- nothing more.
pub validate-filled :
    (is_ip : GoString → Bool) (c : Config)
    → (validate is_ip c).0 ≡ none
    → ((validate is_ip c).1 ≡ filled c)
      × DaemonFilled (filled c).daemon
      × (validate is_ip (filled c) ≡ (none, filled c))
validate-filled is_ip c h =
    let fine = refuses is_ip c h in
    (
      ap (λ (r : Option ConfigError × Config). r.1) (accepts is_ip c fine),
      fill-DaemonFilled c.daemon fine.daemon_ok,
      accepts is_ip (filled c) (filled-ConfigOk is_ip c fine)
          ∙ ap (λ (d : Config). (none, d)) (filled_idem c),
    )
