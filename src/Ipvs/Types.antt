-- ===== src/Ipvs/Types.antt =====
-- internal/ipvs/types.go, and the conversions of internal/ipvs/manager_linux.go.
use libra_flux.Base.{ℕ, Option, List, ◌++◌, ℤ, if◌then◌else◌}
use libra_flux.Base.Text.{GoString, ◌=s◌, codes, to_lower, trim_space}
use libra_flux.Base.Decimal.{itoa}

-- A net.IP: its bytes, or nil.
abbrev pub Ip : Type 0
Ip = Option (List ℕ)

-- What the program calls of package net.
pub record Net : Type 0 where
  pub parse_ip : GoString → Ip
  pub ip_string : Ip → GoString

pub record Service : Type 0 where
  pub address : Ip
  pub protocol : GoString
  pub port : ℕ
  pub scheduler : GoString

pub record Destination : Type 0 where
  pub address : Ip
  pub port : ℕ
  pub weight : ℤ

-- Service.Key, `%s:%s:%d`
unfoldable pub service_key : Net → Service → GoString
service_key net s =
    s.protocol ++ (codes ":" ++ (net.ip_string s.address ++ (codes ":" ++ itoa s.port)))

-- Destination.Key, `%s:%d`
unfoldable pub dest_key : Net → Destination → GoString
dest_key net d = net.ip_string d.address ++ (codes ":" ++ itoa d.port)

-- IPPROTO_TCP is 6, IPPROTO_UDP is 17.
unfoldable pub protocol_to_uint16 : GoString → ℕ
protocol_to_uint16 proto = if to_lower (trim_space proto) =s codes "udp" then 17 else 6

-- The service and the destination of the netlink library, as far as the conversions set them.
pub record LibService : Type 0 where
  pub address : Ip
  pub protocol : ℕ
  pub port : ℕ
  pub sched_name : GoString
  pub address_family : ℕ
  pub netmask : ℕ

pub record LibDestination : Type 0 where
  pub address : Ip
  pub port : ℕ
  pub weight : ℤ
  pub address_family : ℕ
