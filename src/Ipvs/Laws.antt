-- ===== src/Ipvs/Laws.antt =====
-- What the reconciler relies on of a manager's calls for services and of its lists, and of the order of a
-- range over its maps.
use libra_flux.Base.{◌≡◌, All, Option, none, some, [], ok, if◌then◌else◌}
use libra_flux.Base.Text.{GoString, ◌=s◌}
use libra_flux.Base.Assoc.{Assoc, lookup, Distinct, string_eq}
use libra_flux.Ipvs.Types.{Net, Service, Destination, service_key}
use libra_flux.Ipvs.Manager.{Manager, Slice, entries}
use libra_flux.Ipvs.Expand.{DesiredState}
use libra_flux.Ipvs.Reconciler.{MapOrder, index_services, index_destinations}
use libra_flux.Ipvs.Kernel.{View, IsWire, RangeLaws}
use libra_flux.Ipvs.Upsert.{weight_in}

unfoldable pub scheduler_in : GoString → Assoc GoString Service → Option GoString
scheduler_in k m = elim (lookup k m) [ none ↦ none | some svc ↦ some svc.scheduler ]

module _ {S : Type 0} (v : View S) where
  -- Nothing that can be seen is different.
  pub record Unchanged (s s' : S) : Type 0 where
    pub schedulers : (i : GoString) → v.scheduler_at i s' ≡ v.scheduler_at i s
    pub weights : (i l : GoString) → v.weight_at i l s' ≡ v.weight_at i l s

  -- A call succeeded, made or removed one service, which has no destinations, and wrote nothing else.
  pub record Placed (j : GoString) (x : Option GoString) (s : S) (r : Option GoString × S)
      : Type 0 where
    pub no_error : r.0 ≡ none
    pub schedulers :
        (i : GoString) → v.scheduler_at i r.1 ≡ (if i =s j then x else v.scheduler_at i s)
    pub weights :
        (i l : GoString) → v.weight_at i l r.1 ≡ (if i =s j then none else v.weight_at i l s)

  -- A call succeeded, and wrote the scheduler of one service and nothing else.
  pub record Rescheduled (j x : GoString) (s : S) (r : Option GoString × S) : Type 0 where
    pub no_error : r.0 ≡ none
    pub schedulers :
        (i : GoString) → v.scheduler_at i r.1 ≡ (if i =s j then some x else v.scheduler_at i s)
    pub weights : (i l : GoString) → v.weight_at i l r.1 ≡ v.weight_at i l s

  -- Of services over tcp or udp: one that is not there can be created, one that is there can be updated
  -- and deleted, and the lists are those of the state, each key with what was last written under it.
  pub record ServiceLaws (net : Net) (m : Manager S) : Type 0 where
    pub created :
        (svc : Service) (s : S)
        → IsWire svc
        → v.scheduler_at (service_key net svc) s ≡ none
        → Placed (service_key net svc) (some svc.scheduler) s (m.create_service svc s)
    pub updated :
        (svc : Service) (s : S) {x : GoString}
        → IsWire svc
        → v.scheduler_at (service_key net svc) s ≡ some x
        → Rescheduled (service_key net svc) svc.scheduler s (m.update_service svc s)
    pub deleted :
        (svc : Service) (s : S) {x : GoString}
        → IsWire svc
        → v.scheduler_at (service_key net svc) s ≡ some x
        → Placed (service_key net svc) none s (m.delete_service svc s)
    pub services_listed :
        (s : S)
        → (ss : Slice Service) × ((m.get_services s).0 ≡ ok ss)
          × Unchanged s (m.get_services s).1
          × All IsWire (entries ss)
          × ((k : GoString)
              → scheduler_in k (index_services net (entries ss) []) ≡ v.scheduler_at k s)
    pub destinations_listed :
        (svc : Service) (s : S) {x : GoString}
        → IsWire svc
        → v.scheduler_at (service_key net svc) s ≡ some x
        → (ds : Slice Destination) × ((m.get_destinations svc s).0 ≡ ok ds)
          × Unchanged s (m.get_destinations svc s).1
          × ((k : GoString)
              → weight_in net k (index_destinations net (entries ds) [])
                ≡ v.weight_at (service_key net svc) k s)

-- A range over a map goes through each of its entries once.
pub record OrderLaws (order : MapOrder) : Type 0 where
  pub destinations : RangeLaws order
  pub states_distinct :
      (m : Assoc GoString DesiredState) → Distinct m → Distinct (order.of_states m)
  pub states_same :
      (m : Assoc GoString DesiredState) (k : GoString)
      → Distinct m
      → lookup k (order.of_states m) ≡ lookup k m
  pub services_distinct : (m : Assoc GoString Service) → Distinct m → Distinct (order.of_services m)
  pub services_same :
      (m : Assoc GoString Service) (k : GoString)
      → Distinct m
      → lookup k (order.of_services m) ≡ lookup k m
