-- ===== src/Ipvs/Outcome.antt =====
-- internal/ipvs/reconciler.go: what `Apply` reports.
use libra_flux.Base.{◌≡◌, ◌↔◌, none, some, List, arith, ok, Option-cases, Result-cases, inl, inr}
use libra_flux.Base.Text.{GoString}
use libra_flux.Base.Assoc.{string_eq}
use libra_flux.Config.Types as Config
use libra_flux.Ipvs.Types.{Net, Service}
use libra_flux.Ipvs.Manager.{Manager, Slice}
use libra_flux.Ipvs.Expand.{expand_config}
use libra_flux.Ipvs.Reconciler.{MapOrder, apply}

-- `Apply` reports success exactly when the virtual address parses and the services can be listed:
-- whether the services and the backends could be written is no part of it.
pub apply-none_iff :
    {S : Type 0} (net : Net) (order : MapOrder) (m : Manager S) (services : List Config.Service)
    (vip : GoString) (s : S)
    → ((apply net order m services vip s).0 ≡ none) ↔ (
        ((b : _) × (net.parse_ip vip ≡ some b))
        × ((current : Slice Service) × ((m.get_services s).0 ≡ ok current)))
unfolding apply expand_config
apply-none_iff net order m services vip s = elim (Option-cases (net.parse_ip vip)) [
  | inl bad ↦ ground arith
  | inr (b, good) ↦ elim (Result-cases (m.get_services s).0) [
    | inl (current, q) ↦ (λ _. ((b, good), (current, q)), λ _. ground arith)
    | inr (x, q) ↦ ground arith
  ]
]
