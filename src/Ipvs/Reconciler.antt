-- ===== src/Ipvs/Reconciler.antt =====
-- internal/ipvs/reconciler.go: `Apply`, `reconcile` and `reconcileDestinations`. The logger, which
-- nothing reads, is left out. A range over a Go map goes through the entries in an order of the
-- runtime's, which is the parameter `MapOrder`.
use libra_flux.Base.{
  Bool, true, false, not, ◌||◌, Option, none, some, List, [], ◌∷◌, ◌++◌, eqb_ℤ, ok, err,
  if◌then◌else◌,
}
use libra_flux.Base.Text.{GoString, ◌=s◌, codes}
use libra_flux.Base.Assoc.{Assoc, lookup, insert, has, string_eq}
use libra_flux.Config.Types as Config
use libra_flux.Ipvs.Types.{Net, Service, Destination, service_key, dest_key}
use libra_flux.Ipvs.Manager.{Manager, entries}
use libra_flux.Ipvs.Expand.{DesiredState, expand_config}

pub record MapOrder : Type 0 where
  pub of_states : Assoc GoString DesiredState → Assoc GoString DesiredState
  pub of_services : Assoc GoString Service → Assoc GoString Service
  pub of_destinations : Assoc GoString Destination → Assoc GoString Destination

module _ (net : Net) where
  -- The loop that fills `currentMap` in `reconcile`.
  unfoldable pub index_services : List Service → Assoc GoString Service → Assoc GoString Service
  index_services [] m = m
  index_services (s ∷ ss) m = index_services ss (insert (service_key net s) s m)

  -- The loop that fills `currentMap` in `reconcileDestinations`.
  unfoldable pub index_destinations :
      List Destination → Assoc GoString Destination → Assoc GoString Destination
  index_destinations [] m = m
  index_destinations (d ∷ ds) m = index_destinations ds (insert (dest_key net d) d m)

  -- The inner loop that looks for a key among the wanted destinations.
  unfoldable pub is_wanted : GoString → List Destination → Bool
  is_wanted key [] = false
  is_wanted key (d ∷ ds) = dest_key net d =s key || is_wanted key ds

  module _ {S : Type 0} (order : MapOrder) (m : Manager S) where
    -- The first loop of `reconcileDestinations`. The weight is also written into the entry of
    -- `currentMap`, which holds pointers.
    unfoldable pub upsert_loop :
        Service
        → List Destination
        → Assoc GoString Destination
        → S
        → Option GoString × Assoc GoString Destination × S
    upsert_loop svc [] current s = (none, current, s)
    upsert_loop svc (d ∷ ds) current s = elim (lookup (dest_key net d) current) [
      | none ↦
          let (e, s') = m.create_destination svc d s in
          elim e [ some x ↦ (some x, current, s') | none ↦ upsert_loop svc ds current s' ]
      | some c ↦ elim (eqb_ℤ c.weight d.weight) [
        | true ↦ upsert_loop svc ds current s
        | false ↦
            let c' : Destination = record c { weight = d.weight } in
            let written = insert (dest_key net d) c' current in
            let (e, s') = m.update_destination svc c' s in
            elim e [ some x ↦ (some x, written, s') | none ↦ upsert_loop svc ds written s' ]
      ]
    ]

    -- The second loop of `reconcileDestinations`.
    unfoldable pub prune_loop :
        Service → List Destination → Assoc GoString Destination → S → Option GoString × S
    prune_loop svc desired [] s = (none, s)
    prune_loop svc desired ((key, d) ∷ rest) s = elim (is_wanted key desired) [
      | true ↦ prune_loop svc desired rest s
      | false ↦
          let (e, s') = m.delete_destination svc d s in
          elim e [ some x ↦ (some x, s') | none ↦ prune_loop svc desired rest s' ]
    ]

    unfoldable pub reconcile_destinations :
        Service → List Destination → List Destination → S → Option GoString × S
    reconcile_destinations svc desired current s =
        let (e, cm, s') = upsert_loop svc desired (index_destinations current []) s in
        elim e [
          | some x ↦ (some x, s')
          | none ↦ prune_loop svc desired (order.of_destinations cm) s'
        ]

    -- The branch of `reconcile` for a service that does not exist. Errors are logged.
    unfoldable pub add_service : DesiredState → S → S
    add_service state s =
        let (e, s') = m.create_service state.service s in
        elim e [
          | some x ↦ s'
          | none ↦ (reconcile_destinations state.service state.destinations [] s').1
        ]

    -- `currentSvc.Scheduler = …` and the call of UpdateService, if the scheduler differs.
    unfoldable pub update_scheduler : Service → DesiredState → S → Service × S
    update_scheduler svc state s =
        if svc.scheduler =s state.service.scheduler
        then (svc, s)
        else (let svc' : Service = record svc { scheduler = state.service.scheduler } in
            (svc', (m.update_service svc' s).1))

    unfoldable pub refresh_destinations : Service → DesiredState → S → S
    refresh_destinations svc state s =
        let (r, s') = m.get_destinations svc s in
        elim r [
          | err x ↦ s'
          | ok current ↦ (reconcile_destinations svc state.destinations (entries current) s').1
        ]

    -- The branch of `reconcile` for a service that exists.
    unfoldable pub refresh_service : Service → DesiredState → S → S
    refresh_service svc state s =
        let (svc', s') = update_scheduler svc state s in refresh_destinations svc' state s'

    -- The loop over the wanted services.
    unfoldable pub apply_loop : Assoc GoString Service → Assoc GoString DesiredState → S → S
    apply_loop current [] s = s
    apply_loop current ((key, state) ∷ rest) s = elim (lookup key current) [
      | none ↦ apply_loop current rest (add_service state s)
      | some svc ↦ apply_loop current rest (refresh_service svc state s)
    ]

    -- The loop that deletes what is not wanted of the managed address.
    unfoldable pub remove_loop :
        Assoc GoString DesiredState → GoString → Assoc GoString Service → S → S
    remove_loop desired vip [] s = s
    remove_loop desired vip ((key, svc) ∷ rest) s =
        elim (not (net.ip_string svc.address =s vip) || has key desired) [
          | true ↦ remove_loop desired vip rest s
          | false ↦ remove_loop desired vip rest (m.delete_service svc s).1
        ]

    -- `reconcile` always returns nil: its result is the state.
    unfoldable pub reconcile : Assoc GoString DesiredState → List Service → GoString → S → S
    reconcile desired current vip s =
        let indexed = index_services current [] in
        remove_loop desired vip (order.of_services indexed)
          (apply_loop indexed (order.of_states desired) s)

    unfoldable pub apply : List Config.Service → GoString → S → Option GoString × S
    apply services vip s = elim (expand_config net services vip) [
      | err x ↦ (some x, s)
      | ok desired ↦
          let (r, s') = m.get_services s in
          elim r [
            | err x ↦ (some (codes "failed to get current IPVS services: " ++ x), s')
            | ok current ↦ (none, reconcile desired (entries current) vip s')
          ]
    ]
