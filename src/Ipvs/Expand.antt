-- ===== src/Ipvs/Expand.antt =====
-- internal/ipvs/reconciler.go: `expandConfig`, from the configured services to the wanted state.
use libra_flux.Base.{
  ℕ, zero, suc, none, some, List, [], ◌∷◌, ◌++◌, map, ℤ, pos, pos_part, ◌+ℤ◌, ◌-ℤ◌, uint16, Result,
  ok, err, ◌==◌, if◌then◌else◌,
}
use libra_flux.Base.Text.{GoString, codes}
use libra_flux.Base.Assoc.{Assoc, insert, string_eq}
use libra_flux.Config.Types as Config
use libra_flux.Ipvs.Types.{Ip, Net, Service, Destination, service_key, protocol_to_uint16}

pub record DesiredState : Type 0 where
  pub service : Service
  pub destinations : List Destination

unfoldable pub protocol_name : GoString → GoString
protocol_name proto = if protocol_to_uint16 proto == 17 then codes "udp" else codes "tcp"

-- `for p := start; ...; p++` for this many rounds
unfoldable pub ports_from : ℤ → ℕ → List ℕ
ports_from p zero = []
ports_from p (suc n) = uint16 p ∷ ports_from (p +ℤ pos 1) n

-- The rounds of `for p := pr.Start; p <= pr.End; p++`.
unfoldable pub range_ports : Config.PortRange → List ℕ
unfolding ports_from
range_ports r = ports_from r.start (pos_part (r.end +ℤ pos 1 -ℤ r.start))

unfoldable pub ranges_ports : List Config.PortRange → List ℕ
ranges_ports [] = []
ranges_ports (r ∷ rs) = range_ports r ++ ranges_ports rs

unfoldable pub service_ports : Config.Service → List ℕ
service_ports s = map uint16 s.ports ++ ranges_ports s.port_ranges

module _ (net : Net) where
  -- A backend's destination for one port of its service: a port of 0 is the service's.
  unfoldable pub resolve : ℕ → Config.Backend → Destination
  resolve port b = record {
    address = net.parse_ip b.address;
    port = (let own = uint16 b.port in if own == 0 then port else own);
    weight = b.weight;
  }

  unfoldable pub wanted : Ip → Config.Service → ℕ → DesiredState
  wanted vip s port = record {
    service = record {
      address = vip;
      protocol = protocol_name s.protocol;
      port = port;
      scheduler = s.scheduler;
    };
    destinations = map (resolve port) s.backends;
  }

  -- The loop over the ports of one service.
  unfoldable pub expand_ports :
      Ip → Config.Service → List ℕ → Assoc GoString DesiredState → Assoc GoString DesiredState
  expand_ports vip s [] result = result
  expand_ports vip s (p ∷ ps) result =
      let state = wanted vip s p in
      expand_ports vip s ps (insert (service_key net state.service) state result)

  unfoldable pub expand_services :
      Ip → List Config.Service → Assoc GoString DesiredState → Assoc GoString DesiredState
  expand_services vip [] result = result
  expand_services vip (s ∷ ss) result =
      expand_services vip ss (expand_ports vip s (service_ports s) result)

  -- `invalid VIP: %s` is the only error.
  unfoldable pub expand_config :
      List Config.Service → GoString → Result GoString (Assoc GoString DesiredState)
  expand_config ss vip = elim (net.parse_ip vip) [
    | none ↦ err (codes "invalid VIP: " ++ vip)
    | some bytes ↦ ok (expand_services (some bytes) ss [])
  ]
