-- ===== src/Ipvs/Linux.antt =====
-- internal/ipvs/manager_linux.go: the manager over a handle of the netlink library.
use libra_flux.Base.{
  ℕ, ◌≡◌, refl, ◌⊎◌, inl, inr, Option, some, List, map, arith, Result, ok, err, ◌==◌, if◌then◌else◌,
}
use libra_flux.Base.Text.{GoString, ◌=s◌, codes}
use libra_flux.Config.Types as Config
use libra_flux.Ipvs.Types.{
  Ip, Net, Service, Destination, LibService, LibDestination, protocol_to_uint16,
}
use libra_flux.Ipvs.Manager.{Manager, Slice}
use libra_flux.Ipvs.Expand.{protocol_name, wanted}

-- The library's calls, over the kernel's state.
pub record Handle (S : Type 0) : Type 0 where
  pub get_services : S → Result GoString (List LibService) × S
  pub get_destinations : LibService → S → Result GoString (List LibDestination) × S
  pub new_service : LibService → S → Option GoString × S
  pub update_service : LibService → S → Option GoString × S
  pub del_service : LibService → S → Option GoString × S
  pub new_destination : LibService → LibDestination → S → Option GoString × S
  pub update_destination : LibService → LibDestination → S → Option GoString × S
  pub del_destination : LibService → LibDestination → S → Option GoString × S

unfoldable pub to_service : LibService → Service
to_service s = record {
  address = s.address;
  protocol = if s.protocol == 17 then codes "udp" else codes "tcp";
  port = s.port;
  scheduler = s.sched_name;
}

-- AF_INET is 2.
unfoldable pub from_service : Service → LibService
from_service s = record {
  address = s.address;
  protocol = if s.protocol =s codes "udp" then 17 else 6;
  port = s.port;
  sched_name = s.scheduler;
  address_family = 2;
  netmask = 4294967295;
}

unfoldable pub to_destination : LibDestination → Destination
to_destination d = record { address = d.address; port = d.port; weight = d.weight }

unfoldable pub from_destination : Destination → LibDestination
from_destination d = record {
  address = d.address;
  port = d.port;
  weight = d.weight;
  address_family = 2;
}

-- A result with each entry of its list converted.
abbrev converted :
    {A B S : Type 0} → (A → B) → Result GoString (List A) × S → Result GoString (Slice B) × S
converted f (err x, s) = (err x, s)
converted f (ok xs, s) = (ok (some (map f xs)), s)

unfoldable pub real_manager : {S : Type 0} → Handle S → Manager S
unfolding to_service from_service to_destination from_destination
real_manager h = record {
  get_services = λ s. converted to_service (h.get_services s);
  get_destinations = λ svc s. converted to_destination (h.get_destinations (from_service svc) s);
  create_service = λ svc. h.new_service (from_service svc);
  update_service = λ svc. h.update_service (from_service svc);
  delete_service = λ svc. h.del_service (from_service svc);
  create_destination = λ svc d. h.new_destination (from_service svc) (from_destination d);
  update_destination = λ svc d. h.update_destination (from_service svc) (from_destination d);
  delete_destination = λ svc d. h.del_destination (from_service svc) (from_destination d);
}

-- A service over tcp or udp, written for the library and read back, is the same service.
pub to_service-from_service :
    (s : Service)
    → (s.protocol ≡ codes "tcp") ⊎ (s.protocol ≡ codes "udp")
    → to_service (from_service s) ≡ s
unfolding to_service from_service ◌=s◌
to_service-from_service s (inl tcp) = ground (arith, tcp)
to_service-from_service s (inr udp) = ground (arith, udp)

-- A destination, written for the library and read back, is the same destination.
pub to_destination-from_destination : (d : Destination) → to_destination (from_destination d) ≡ d
unfolding to_destination from_destination
to_destination-from_destination d = refl

-- What is wanted for a configured service reaches the library under the protocol number of the
-- configured protocol, for every text of it.
pub from_service-protocol :
    (net : Net) (vip : Ip) (s : Config.Service) (port : ℕ)
    → (from_service (wanted net vip s port).service).protocol ≡ protocol_to_uint16 s.protocol
unfolding from_service wanted protocol_name protocol_to_uint16 ◌=s◌
from_service-protocol net vip s port = ground arith
