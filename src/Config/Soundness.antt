-- ===== src/Config/Soundness.antt =====
-- internal/config/validator.go: exactly which configurations `Validate` accepts, and what it fills in.
use libra_flux.Base.{◌≡◌, ◌≢◌, ◌↔◌, ◌⊎◌, Bool, true, [], arith, ℤ, pos, ◌≤ℤ◌, ok}
use libra_flux.Base.Text.{GoString, =s_iff, codes, to_lower, trim_space, has_prefix}
use libra_flux.Config.Types.{
  Config, NodeConfig, NetworkConfig, VrrpConfig, ConsoleLogConfig, GelfLogConfig, InfluxConfig,
  PromConfig, SystemConfig,
}
use libra_flux.Config.Names.{IsName}
use libra_flux.Config.Checks.{seq_iff}
use libra_flux.Config.Services.{IsPort, IsName-iff}
use libra_flux.Config.Validator.{
  one_of, validate_mode, validate_node, validate_network, validate_vrrp, validate_console,
  validate_gelf, validate_influx, validate_prometheus, validate_system, validate_static,
}

abbrev pub ModeOk : GoString → Type 0
ModeOk mode =
    let m = to_lower (trim_space mode) in (m ≡ []) ⊎ ((m ≡ codes "dr") ⊎ (m ≡ codes "nat"))

pub record NodeOk (n : NodeConfig) : Type 0 where
  pub name_ok : IsName n.name
  pub role_ok : (n.role ≡ codes "primary") ⊎ (n.role ≡ codes "secondary")

pub record NetworkOk (is_ip : GoString → Bool) (n : NetworkConfig) : Type 0 where
  pub frontend_ok : IsName n.frontend.interface
  pub vip_given : n.frontend.vip ≢ []
  pub vip_ok : is_ip n.frontend.vip ≡ true
  pub cidr_ok : (pos 1 ≤ℤ n.frontend.cidr) × (n.frontend.cidr ≤ℤ pos 32)
  pub backend_ok : IsName n.backend.interface

abbrev pub IsByte : ℤ → Type 0
IsByte z = (pos 1 ≤ℤ z) × (z ≤ℤ pos 255)

pub record VrrpOk (v : VrrpConfig) : Type 0 where
  pub vrid_ok : IsByte v.vrid
  pub primary_ok : IsByte v.priority_primary
  pub secondary_ok : IsByte v.priority_secondary
  pub advert_ok : pos 100 ≤ℤ v.advert_interval_ms

abbrev pub IsLogLevel : GoString → Type 0
IsLogLevel l =
    (l ≡ codes "debug") ⊎ ((l ≡ codes "info") ⊎ ((l ≡ codes "warn") ⊎ (l ≡ codes "error")))

abbrev pub ConsoleOk : ConsoleLogConfig → Type 0
ConsoleOk c = (c.level ≡ []) ⊎ IsLogLevel (to_lower c.level)

pub record GelfFields (g : GelfLogConfig) : Type 0 where
  pub host_given : g.host ≢ []
  pub port_ok : IsPort g.port
  pub protocol_ok : (to_lower g.protocol ≡ codes "udp") ⊎ (to_lower g.protocol ≡ codes "tcp")
  pub facility_given : g.facility ≢ []

abbrev pub GelfOk : GelfLogConfig → Type 0
GelfOk g = g.enabled ≡ true → GelfFields g

pub record InfluxFields (i : InfluxConfig) : Type 0 where
  pub url_given : i.url ≢ []
  pub token_given : i.token ≢ []
  pub org_given : i.org ≢ []
  pub bucket_given : i.bucket ≢ []
  pub interval_ok : pos 1 ≤ℤ i.push_interval_seconds

abbrev pub InfluxOk : InfluxConfig → Type 0
InfluxOk i = i.enabled ≡ true → InfluxFields i

pub record PromFields (is_ip : GoString → Bool) (p : PromConfig) : Type 0 where
  pub port_ok : IsPort p.port
  pub path_given : p.path ≢ []
  pub path_rooted : has_prefix p.path (codes "/") ≡ true
  pub bind_ok :
      (p.bind ≡ []) ⊎ ((p.bind ≡ codes "0.0.0.0") ⊎ ((p.bind ≡ codes "::") ⊎ (is_ip p.bind ≡ true)))

abbrev pub PromOk : (GoString → Bool) → PromConfig → Type 0
PromOk is_ip p = p.enabled ≡ true → PromFields is_ip p

abbrev pub IsProfile : GoString → Type 0
IsProfile p = (p ≡ codes "minimal") ⊎ ((p ≡ codes "balanced") ⊎ (p ≡ codes "aggressive"))

pub record SystemOk (s : SystemConfig) : Type 0 where
  pub profile_ok : (s.tuning_profile ≡ []) ⊎ IsProfile (to_lower s.tuning_profile)
  pub timeout_ok : pos 0 ≤ℤ s.lock_idle_timeout_minutes

-- All but the daemon's settings and the services.
pub record StaticOk (is_ip : GoString → Bool) (c : Config) : Type 0 where
  pub mode_ok : ModeOk c.mode
  pub node_ok : NodeOk c.node
  pub network_ok : NetworkOk is_ip c.network
  pub vrrp_ok : VrrpOk c.vrrp
  pub console_ok : ConsoleOk c.observability.logging.console
  pub gelf_ok : GelfOk c.observability.logging.gelf
  pub influx_ok : InfluxOk c.observability.metrics.influx_db
  pub prometheus_ok : PromOk is_ip c.observability.metrics.prometheus
  pub system_ok : SystemOk c.system

mode_iff : (m : GoString) → (validate_mode m ≡ ok tt) ↔ ModeOk m
unfolding validate_mode
mode_iff m =
    let s = to_lower (trim_space m) in
    ground (arith, =s_iff s [], =s_iff s (codes "dr"), =s_iff s (codes "nat"))

node_iff : (n : NodeConfig) → (validate_node n ≡ ok tt) ↔ NodeOk n
unfolding validate_node
node_iff n =
    ground
      (arith, IsName-iff n.name, =s_iff n.role (codes "primary"), =s_iff n.role (codes "secondary"))

network_iff :
    (is_ip : GoString → Bool) (n : NetworkConfig)
    → (validate_network is_ip n ≡ ok tt) ↔ NetworkOk is_ip n
unfolding validate_network
network_iff is_ip n = ground (
  arith,
  IsName-iff n.frontend.interface,
  IsName-iff n.backend.interface,
  =s_iff n.frontend.vip [],
)

vrrp_iff : (v : VrrpConfig) → (validate_vrrp v ≡ ok tt) ↔ VrrpOk v
unfolding validate_vrrp
vrrp_iff v = ground arith

console_iff : (c : ConsoleLogConfig) → (validate_console c ≡ ok tt) ↔ ConsoleOk c
unfolding validate_console one_of
console_iff c =
    let l = to_lower c.level in
    ground (
      arith,
      =s_iff c.level [],
      =s_iff l (codes "debug"),
      =s_iff l (codes "info"),
      =s_iff l (codes "warn"),
      =s_iff l (codes "error"),
    )

gelf_iff : (g : GelfLogConfig) → (validate_gelf g ≡ ok tt) ↔ GelfOk g
unfolding validate_gelf
gelf_iff g = ground (
  arith,
  =s_iff g.host [],
  =s_iff (to_lower g.protocol) (codes "udp"),
  =s_iff (to_lower g.protocol) (codes "tcp"),
  =s_iff g.facility [],
)

influx_iff : (i : InfluxConfig) → (validate_influx i ≡ ok tt) ↔ InfluxOk i
unfolding validate_influx
influx_iff i =
    ground (arith, =s_iff i.url [], =s_iff i.token [], =s_iff i.org [], =s_iff i.bucket [])

prometheus_iff :
    (is_ip : GoString → Bool) (p : PromConfig)
    → (validate_prometheus is_ip p ≡ ok tt) ↔ PromOk is_ip p
unfolding validate_prometheus
prometheus_iff is_ip p = ground (
  arith,
  =s_iff p.path [],
  =s_iff p.bind [],
  =s_iff p.bind (codes "0.0.0.0"),
  =s_iff p.bind (codes "::"),
)

system_iff : (s : SystemConfig) → (validate_system s ≡ ok tt) ↔ SystemOk s
unfolding validate_system one_of
system_iff s =
    let p = to_lower s.tuning_profile in
    ground (
      arith,
      =s_iff s.tuning_profile [],
      =s_iff p (codes "minimal"),
      =s_iff p (codes "balanced"),
      =s_iff p (codes "aggressive"),
    )

pub static_iff :
    (is_ip : GoString → Bool) (c : Config) → (validate_static is_ip c ≡ ok tt) ↔ StaticOk is_ip c
unfolding validate_static
static_iff is_ip c =
    let parts = seq_iff (mode_iff c.mode) (
      seq_iff (node_iff c.node) (
        seq_iff (network_iff is_ip c.network) (
          seq_iff (vrrp_iff c.vrrp) (
            seq_iff (console_iff c.observability.logging.console) (
              seq_iff (gelf_iff c.observability.logging.gelf) (
                seq_iff (influx_iff c.observability.metrics.influx_db) (
                  seq_iff (prometheus_iff is_ip c.observability.metrics.prometheus)
                    (system_iff c.system)))))))) in
    (
      λ h. to (parts.0 h),
      λ s. parts.1 (
        s.mode_ok,
        (
          s.node_ok,
          (
            s.network_ok,
            (s.vrrp_ok, (s.console_ok, (s.gelf_ok, (s.influx_ok, (s.prometheus_ok, s.system_ok))))),
          ),
        ),
      ),
    )
  where
    to :
        ModeOk c.mode
          × (NodeOk c.node
              × (NetworkOk is_ip c.network
                  × (VrrpOk c.vrrp
                      × (ConsoleOk c.observability.logging.console
                          × (GelfOk c.observability.logging.gelf
                              × (InfluxOk c.observability.metrics.influx_db
                                  × (PromOk is_ip c.observability.metrics.prometheus
                                      × SystemOk c.system)))))))
        → StaticOk is_ip c
    to (a, (b, (d, (e, (f, (g, (h, (i, j)))))))) = record {
      mode_ok = a;
      node_ok = b;
      network_ok = d;
      vrrp_ok = e;
      console_ok = f;
      gelf_ok = g;
      influx_ok = h;
      prometheus_ok = i;
      system_ok = j;
    }
