-- ===== src/Tests/Ipvs.antt =====
-- internal/ipvs over a manager that keeps a table.
use libra_flux.Base.{
  ℕ, ◌≡◌, refl, ap, All, if◌then◌else◌, ◌↔◌, inl, none, some, List, [], ◌∷◌, arith, pos, ok,
}
use libra_flux.Base.Text.{GoString, ◌=s◌, codes}
use libra_flux.Base.Assoc.{Assoc, lookup, insert, has, string_eq}
use libra_flux.Base.Decimal.{itoa}
use libra_flux.Config.Types as Config
use libra_flux.Ipvs.Types.{Service, Destination, service_key}
use libra_flux.Ipvs.Manager.{Slice}
use libra_flux.Ipvs.Keys.{service_key-injective}
use libra_flux.Ipvs.Cache.{default_cache_config, new_cached_manager}
use libra_flux.Ipvs.Replies.{
  Timed, services, destinations, create_s, WellBehaved, replies_cached, replies_inner,
}
use libra_flux.Ipvs.Coherence.{replies-cached-inner}
use libra_flux.Ipvs.Reconciler.{
  MapOrder, is_wanted, index_services, index_destinations, apply, reconcile_destinations,
}
use libra_flux.Ipvs.Expand.{DesiredState, expand_services, expand_config}
use libra_flux.Ipvs.Laws.{OrderLaws}
use libra_flux.Ipvs.Applying.{HasDistinctBackends, Converged, apply-Converged}
use libra_flux.Ipvs.Linux.{
  real_manager, to_service, from_service, to_destination, from_destination, to_service-from_service,
  to_destination-from_destination,
}
use libra_flux.Ipvs.Kernel.{RangeLaws}
use libra_flux.Ipvs.Outcome.{apply-none_iff}
use libra_flux.Ipvs.Upsert.{DistinctDests, weight_in}
use libra_flux.Ipvs.Prune.{IsListed, Reconciled, reconcile_destinations-Reconciled}
use libra_flux.Tests.Fixtures.{text_net, one_service, service_with}
use libra_flux.Tests.Handle.{Rows, key, rows_manager, rows_view, rows_laws, rows_services}
use libra_flux.Tests.Kernel.{Table, key_of, table_manager, earliest_dest}

abbrev in_order : MapOrder
in_order = record { of_states = λ m. m; of_services = λ m. m; of_destinations = λ m. m }

in_order-RangeLaws : RangeLaws in_order
in_order-RangeLaws = record { distinct = λ m h. h; same = λ m k h. refl }

abbrev web : Service
web = record {
  address = some (codes "10.0.0.1");
  protocol = codes "tcp";
  port = 80;
  scheduler = codes "rr";
}

abbrev first : Destination
first = record { address = some (codes "10.0.0.2"); port = 80; weight = pos 5 }

abbrev second : Destination
second = record { address = some (codes "10.0.0.3"); port = 80; weight = pos 7 }

abbrev table : Table
table = record { rows = web ∷ []; columns = λ k. if k =s key_of web then first ∷ [] else [] }

-- The same as the library has it.
abbrev rows : Rows
rows = record {
  services = from_service web ∷ [];
  backends = λ k. if k =s key web then from_destination first ∷ [] else [];
}

serves_web : rows_view.scheduler_at (key web) rows ≡ some (codes "rr")
unfolding has ◌=s◌ service_key itoa lookup to_service from_service
serves_web = refl

distinct : DistinctDests text_net (second ∷ [])
unfolding DistinctDests is_wanted
distinct = (refl, tt)

listed :
    IsListed text_net in_order rows_manager rows_view rows_laws web (inl refl) (first ∷ []) rows
unfolding IsListed weight_in index_destinations lookup insert has ◌=s◌ service_key itoa
    to_destination from_destination
listed = λ k. ground arith

reconcile_destinations-Reconciled_example :
    Reconciled text_net in_order rows_manager rows_view rows_laws web
      (inl refl)
      (second ∷ [])
      rows
      (reconcile_destinations text_net in_order rows_manager web (second ∷ []) (first ∷ []) rows)
reconcile_destinations-Reconciled_example =
    reconcile_destinations-Reconciled text_net in_order rows_manager rows_view rows_laws web
      (inl refl) in_order-RangeLaws (second ∷ []) (first ∷ []) rows serves_web distinct listed

apply-none_iff_example :
    ((apply text_net in_order table_manager one_service.services (codes "10.0.0.1") table).0 ≡ none)
    ↔ (((b : List ℕ) × (text_net.parse_ip (codes "10.0.0.1") ≡ some b))
        × ((current : Slice Service) × ((table_manager.get_services table).0 ≡ ok current)))
apply-none_iff_example =
    apply-none_iff text_net in_order table_manager one_service.services (codes "10.0.0.1") table

abbrev web_udp : Service
web_udp = record web { scheduler = codes "wrr" }

service_key-injective_example :
    (web.protocol ≡ web_udp.protocol)
    × (text_net.ip_string web.address ≡ text_net.ip_string web_udp.address)
    × (web.port ≡ web_udp.port)
unfolding service_key
service_key-injective_example =
    service_key-injective text_net web web_udp (inl refl) (inl refl) refl

table-WellBehaved : WellBehaved table_manager text_net
table-WellBehaved = record {
  services_pure = λ t. refl;
  destinations_pure = λ svc t. refl;
  found_by_key = λ svc svc' t h. ap (λ k. (ok (some (earliest_dest (t.columns k))))) h;
  create_s_atomic = λ svc t x h. ground arith;
  update_s_atomic = λ svc t x h. ground arith;
  delete_s_atomic = λ svc t x h. ground arith;
  create_d_atomic = λ svc d t x h. ground arith;
  update_d_atomic = λ svc d t x h. ground arith;
  delete_d_atomic = λ svc d t x h. ground arith;
}

abbrev trace : List Timed
trace =
    record { call = services; now = pos 0; later = pos 1 }
    ∷ record { call = create_s web; now = pos 2; later = pos 3 }
    ∷ record { call = services; now = pos 4; later = pos 5 }
    ∷ record { call = destinations web; now = pos 6; later = pos 7 }
    ∷ []

replies-cached-inner_example :
    replies_cached table_manager text_net trace (new_cached_manager table default_cache_config)
    ≡ replies_inner table_manager trace table
replies-cached-inner_example =
    replies-cached-inner table_manager text_net table-WellBehaved default_cache_config trace table

to_service-from_service_example : to_service (from_service web) ≡ web
to_service-from_service_example = to_service-from_service web (inl refl)

to_destination-from_destination_example : to_destination (from_destination first) ≡ first
to_destination-from_destination_example = to_destination-from_destination first

-- A service over udp, its protocol written in capitals.
abbrev udp_service : Config.Service
udp_service = record (service_with []) { protocol = codes " UDP " }

in_order-OrderLaws : OrderLaws in_order
in_order-OrderLaws = record {
  destinations = in_order-RangeLaws;
  states_distinct = λ m h. h;
  states_same = λ m k h. refl;
  services_distinct = λ m h. h;
  services_same = λ m k h. refl;
}

web_backends : All (HasDistinctBackends text_net) one_service.services
unfolding HasDistinctBackends DistinctDests is_wanted
web_backends = (λ port. (refl, tt), tt)

abbrev web_desired : Assoc GoString DesiredState
web_desired = expand_services text_net (some (codes "10.0.0.1")) one_service.services []

expands : expand_config text_net one_service.services (codes "10.0.0.1") ≡ ok web_desired
unfolding expand_config
expands = refl

lists_web : (rows_manager.get_services rows).0 ≡ ok (some (web ∷ []))
unfolding real_manager to_service from_service ◌=s◌
lists_web = refl

apply-Converged_example :
    ((apply text_net in_order rows_manager one_service.services (codes "10.0.0.1") rows).0 ≡ none)
    × Converged text_net in_order rows_manager rows_view rows_laws rows_services in_order-OrderLaws
        web_desired
        (codes "10.0.0.1")
        (index_services text_net (web ∷ []) [])
        rows
        (apply text_net in_order rows_manager one_service.services (codes "10.0.0.1") rows).1
apply-Converged_example =
    apply-Converged text_net in_order rows_manager rows_view rows_laws rows_services
      in_order-OrderLaws one_service.services (codes "10.0.0.1") rows {desired = web_desired}
      {current = some (web ∷ [])} web_backends expands lists_web
