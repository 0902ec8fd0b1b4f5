-- ===== src/Config/Types.antt =====
-- internal/config/types.go. A slice of which the program reads only the entries is a list.
use libra_flux.Base.{ℤ, Bool, List}
use libra_flux.Base.Text.{GoString}

pub record NodeConfig : Type 0 where
  pub name : GoString
  pub role : GoString

pub record InterfaceConfig : Type 0 where
  pub interface : GoString
  pub vip : GoString
  pub cidr : ℤ

pub record NetworkConfig : Type 0 where
  pub frontend : InterfaceConfig
  pub backend : InterfaceConfig

pub record VrrpConfig : Type 0 where
  pub vrid : ℤ
  pub priority_primary : ℤ
  pub priority_secondary : ℤ
  pub advert_interval_ms : ℤ

pub record ConsoleLogConfig : Type 0 where
  pub enabled : Bool
  pub level : GoString

pub record GelfLogConfig : Type 0 where
  pub enabled : Bool
  pub host : GoString
  pub port : ℤ
  pub protocol : GoString
  pub facility : GoString

pub record LoggingConfig : Type 0 where
  pub console : ConsoleLogConfig
  pub gelf : GelfLogConfig

pub record InfluxConfig : Type 0 where
  pub enabled : Bool
  pub url : GoString
  pub token : GoString
  pub org : GoString
  pub bucket : GoString
  pub push_interval_seconds : ℤ

pub record PromConfig : Type 0 where
  pub enabled : Bool
  pub port : ℤ
  pub path : GoString
  pub bind : GoString

pub record MetricsConfig : Type 0 where
  pub influx_db : InfluxConfig
  pub prometheus : PromConfig

pub record ObsConfig : Type 0 where
  pub logging : LoggingConfig
  pub metrics : MetricsConfig

pub record SystemConfig : Type 0 where
  pub state_dir : GoString
  pub frr_config : GoString
  pub sysctl_file : GoString
  pub tuning_profile : GoString
  pub lock_idle_timeout_minutes : ℤ

pub record CacheConfig : Type 0 where
  pub enabled : Bool
  pub ttl_ms : ℤ

pub record DaemonConfig : Type 0 where
  pub reconcile_interval_ms : ℤ
  pub state_cache : CacheConfig

pub record PortRange : Type 0 where
  pub start : ℤ
  pub end : ℤ

pub record Backend : Type 0 where
  pub address : GoString
  pub port : ℤ
  pub weight : ℤ

pub record HealthCheck : Type 0 where
  pub enabled : Bool
  pub type : GoString
  pub port : ℤ
  pub interval_ms : ℤ
  pub timeout_ms : ℤ
  pub fail_after : ℤ
  pub recover_after : ℤ

pub record Service : Type 0 where
  pub name : GoString
  pub protocol : GoString
  pub ports : List ℤ
  pub port_ranges : List PortRange
  pub scheduler : GoString
  pub backends : List Backend
  pub health : HealthCheck

pub record Config : Type 0 where
  pub mode : GoString
  pub node : NodeConfig
  pub network : NetworkConfig
  pub vrrp : VrrpConfig
  pub observability : ObsConfig
  pub system : SystemConfig
  pub daemon : DaemonConfig
  pub include : GoString
  pub services : List Service
