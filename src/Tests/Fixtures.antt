-- ===== src/Tests/Fixtures.antt =====
-- The inputs of the tests: texts, targets, a configuration and its parts.
use libra_flux.Base.{Bool, true, false, not, Option, none, some, List, [], ◌∷◌, pos}
use libra_flux.Base.Text.{GoString, ◌=s◌, codes}
use libra_flux.Config.Types.{Config, Backend, HealthCheck, Service}
use libra_flux.Health.Runner.{BackendKey, Target}
use libra_flux.Ipvs.Types.{Net}

-- Every text but the empty one is an address.
abbrev pub is_text : GoString → Bool
is_text s = not (s =s [])

abbrev pub printed : Option GoString → GoString
printed none = codes "<nil>"
printed (some bytes) = bytes

-- An address is its text.
abbrev pub text_net : Net
text_net = record {
  parse_ip = λ s. elim s [ [] ↦ none | c ∷ cs ↦ some (c ∷ cs) ];
  ip_string = printed;
}

abbrev pub web_key : BackendKey
web_key = record { service = codes "web"; backend = codes "10.0.0.2" }

abbrev pub web_target : Target
web_target = record {
  key = web_key;
  check_port = pos 80;
  interval = pos 1000000000;
  timeout = pos 500000000;
  fail_after = pos 2;
  recover_after = pos 2;
  configured_weight = pos 5;
}

abbrev pub web_backend : Backend
web_backend = record { address = codes "10.0.0.2"; port = pos 80; weight = pos 5 }

abbrev pub web_health : HealthCheck
web_health = record {
  enabled = true;
  type = codes "tcp";
  port = pos 80;
  interval_ms = pos 1000;
  timeout_ms = pos 500;
  fail_after = pos 2;
  recover_after = pos 2;
}

abbrev pub service_with : List Backend → Service
service_with backends = record {
  name = codes "web";
  protocol = codes "tcp";
  ports = pos 80 ∷ [];
  port_ranges = [];
  scheduler = codes "rr";
  backends = backends;
  health = web_health;
}

abbrev pub config_with : List Service → Config
config_with services = record {
  mode = codes "DR";
  node = record { name = codes "lb1"; role = codes "primary" };
  network = record {
    frontend = record { interface = codes "eth0"; vip = codes "10.0.0.1"; cidr = pos 24 };
    backend = record { interface = codes "eth1"; vip = []; cidr = pos 24 };
  };
  vrrp = record {
    vrid = pos 51;
    priority_primary = pos 150;
    priority_secondary = pos 100;
    advert_interval_ms = pos 1000;
  };
  observability = record {
    logging = record {
      console = record { enabled = false; level = codes "info" };
      gelf = record { enabled = false; host = []; port = pos 0; protocol = []; facility = [] };
    };
    metrics = record {
      influx_db = record {
        enabled = false;
        url = [];
        token = [];
        org = [];
        bucket = [];
        push_interval_seconds = pos 0;
      };
      prometheus = record { enabled = false; port = pos 0; path = []; bind = [] };
    };
  };
  system = record {
    state_dir = [];
    frr_config = [];
    sysctl_file = [];
    tuning_profile = codes "balanced";
    lock_idle_timeout_minutes = pos 5;
  };
  daemon = record {
    reconcile_interval_ms = pos 0;
    state_cache = record { enabled = true; ttl_ms = pos 0 };
  };
  include = [];
  services = services;
}

abbrev pub one_service : Config
one_service = config_with (service_with (web_backend ∷ []) ∷ [])

-- One address twice, under two ports.
abbrev pub one_address_twice : Config
one_address_twice =
    config_with (service_with (web_backend ∷ record web_backend { port = pos 81 } ∷ []) ∷ [])
