-- ===== src/Ipvs/Programming.antt =====
-- internal/ipvs/reconciler.go: the loop of `reconcile` over the wanted services.
use libra_flux.Base.{
  ◌≡◌, refl, sym, ap, ◌∙◌, inl, inr, Option, none, some, List, [], arith, ℤ, if◌then◌else◌,
  Bool-cases,
}
use mathlib.Core.Path.{subst}
use libra_flux.Base.Text.{GoString, ◌=s◌, =s_iff, =s_refl}
use libra_flux.Base.Assoc.{Assoc, lookup, string_eq}
use libra_flux.Ipvs.Types.{Net, Service, Destination, service_key}
use libra_flux.Ipvs.Manager.{Manager, entries}
use libra_flux.Ipvs.Expand.{DesiredState}
use libra_flux.Ipvs.Reconciler.{
  MapOrder, index_destinations, reconcile_destinations, add_service, update_scheduler,
  refresh_destinations, refresh_service,
}
use libra_flux.Ipvs.Kernel.{View, IsWire, DestinationLaws}
use libra_flux.Ipvs.Upsert.{DistinctDests, weight_of, weight_in}
use libra_flux.Ipvs.Prune.{IsListed, Reconciled, reconcile_destinations-Reconciled}
use libra_flux.Ipvs.Laws.{ServiceLaws, OrderLaws}

module _ (net : Net) where
  -- Each state of the map is filed under its service's key, its destinations have different keys, and
  -- its protocol is one that reaches the library.
  unfoldable pub AreStates : Assoc GoString DesiredState → Type 0
  AreStates states =
      (key : GoString) (state : DesiredState)
      → lookup key states ≡ some state
      → (service_key net state.service ≡ key)
        × DistinctDests net state.destinations
        × IsWire state.service

  unfoldable pub scheduler_wanted :
      GoString → Assoc GoString DesiredState → Option GoString → Option GoString
  scheduler_wanted j states old = elim (lookup j states) [
    | none ↦ old
    | some state ↦ some state.service.scheduler
  ]

  unfoldable pub weight_wanted :
      GoString → GoString → Assoc GoString DesiredState → Option ℤ → Option ℤ
  weight_wanted j k states old = elim (lookup j states) [
    | none ↦ old
    | some state ↦ weight_of net k state.destinations
  ]

module _ (net : Net) {S : Type 0} (order : MapOrder) (m : Manager S) (v : View S)
    (laws : DestinationLaws v net m) (services : ServiceLaws v net m)
    (range : OrderLaws order) where
  -- One service is as wanted, and nothing else is different.
  pub record Stepped (key : GoString) (state : DesiredState) (s s' : S) : Type 0 where
    pub schedulers :
        (j : GoString)
        → v.scheduler_at j s'
          ≡ (if j =s key then some state.service.scheduler else v.scheduler_at j s)
    pub weights :
        (j k : GoString)
        → v.weight_at j k s'
          ≡ (if j =s key then weight_of net k state.destinations else v.weight_at j k s)

  reconciled :
      (svc : Service) (desired current : List Destination) (s : S) {x : GoString}
      → v.scheduler_at (service_key net svc) s ≡ some x
      → DistinctDests net desired
      → ((k : GoString)
          → weight_in net k (index_destinations net current [])
            ≡ v.weight_at (service_key net svc) k s)
      → (wire : IsWire svc)
      → Reconciled net order m v laws svc wire desired s
          (reconcile_destinations net order m svc desired current s)
  unfolding IsListed
  reconciled svc desired current s hs hd listed wire =
      reconcile_destinations-Reconciled net order m v laws svc wire range.destinations desired
        current s hs hd (λ k. listed k)

  pub add_service-Stepped :
      (state : DesiredState) (s : S)
      → v.scheduler_at (service_key net state.service) s ≡ none
      → DistinctDests net state.destinations
      → IsWire state.service
      → Stepped (service_key net state.service) state s (add_service net order m state s)
  unfolding add_service weight_in index_destinations lookup
  add_service-Stepped state s absent hd wire =
      let key = service_key net state.service in
      let made = services.created state.service s wire absent in
      let s' = (m.create_service state.service s).1 in
      let there : v.scheduler_at key s' ≡ some state.service.scheduler =
        ground (arith, made.schedulers key, =s_refl key) in
      let bare : (k : GoString)
          → weight_in net k (index_destinations net [] []) ≡ v.weight_at key k s' =
        λ k. ground (arith, made.weights key k, =s_refl key) in
      let done = reconciled state.service state.destinations [] s' there hd bare wire in
      rw (made.no_error, add_service)
        (record {
          schedulers = λ j. done.schedulers j ∙ made.schedulers j;
          weights = λ j k. ground (arith, done.weights j k, made.weights j k);
        })

  refresh_destinations-Stepped :
      (svc : Service) (state : DesiredState) (s : S)
      → v.scheduler_at (service_key net svc) s ≡ some state.service.scheduler
      → DistinctDests net state.destinations
      → IsWire svc
      → Stepped (service_key net svc) state s (refresh_destinations net order m svc state s)
  unfolding refresh_destinations
  refresh_destinations-Stepped svc state s there hd wire =
      let key = service_key net svc in
      let (ds, read, pure, listed) = services.destinations_listed svc s wire there in
      let s' = (m.get_destinations svc s).1 in
      let there' = pure.schedulers key ∙ there in
      let done =
        reconciled svc state.destinations (entries ds) s' there' hd
          (λ k. listed k ∙ sym (pure.weights key k)) wire in
      rw (read, refresh_destinations)
        (record {
          schedulers =
              λ j. ground (arith, done.schedulers j, pure.schedulers j, there, =s_iff j key);
          weights = λ j k. ground (arith, done.weights j k, pure.weights j k);
        })

  renamed_key :
      (svc : Service) (x : GoString)
      → service_key net (record svc { scheduler = x }) ≡ service_key net svc
  unfolding service_key
  renamed_key svc x = refl

  -- First the scheduler, then the destinations.
  rescheduled-Stepped :
      (svc : Service) (state : DesiredState) (s : S) {x : GoString}
      → v.scheduler_at (service_key net svc) s ≡ some x
      → svc.scheduler ≡ state.service.scheduler
      → DistinctDests net state.destinations
      → IsWire svc
      → Stepped
          (service_key net svc)
          state
          s
          (refresh_destinations net order m svc state (m.update_service svc s).1)
  rescheduled-Stepped svc state s hs same hd wire =
      let key = service_key net svc in
      let wrote = services.updated svc s wire hs in
      let s' = (m.update_service svc s).1 in
      let there : v.scheduler_at key s' ≡ some state.service.scheduler =
        ground (arith, wrote.schedulers key, =s_refl key, same) in
      let done = refresh_destinations-Stepped svc state s' there hd wire in
      record {
        schedulers = λ j. ground (arith, done.schedulers j, wrote.schedulers j);
        weights = λ j k. ground (arith, done.weights j k, wrote.weights j k);
      }

  pub refresh_service-Stepped :
      (svc : Service) (state : DesiredState) (s : S)
      → v.scheduler_at (service_key net svc) s ≡ some svc.scheduler
      → DistinctDests net state.destinations
      → IsWire svc
      → Stepped (service_key net svc) state s (refresh_service net order m svc state s)
  unfolding refresh_service update_scheduler
  refresh_service-Stepped svc state s hs hd wire =
      elim (Bool-cases (svc.scheduler =s state.service.scheduler)) [
        | inl same ↦
            let equal = (=s_iff svc.scheduler state.service.scheduler).0 same in
            rw (same, refresh_service)
              (refresh_destinations-Stepped svc state s (hs ∙ ap some equal) hd wire)
        | inr differs ↦
            let svc' : Service = record svc { scheduler = state.service.scheduler } in
            let key = renamed_key svc state.service.scheduler in
            let there : v.scheduler_at (service_key net svc') s ≡ some svc.scheduler = rw key hs in
            rw (differs, refresh_service)
              (subst
                (λ k.
                  Stepped k state s
                    (refresh_destinations net order m svc' state (m.update_service svc' s).1))
                key (rescheduled-Stepped svc' state s there refl hd wire))
      ]
