-- ===== src/Ipvs/Applying.antt =====
-- internal/ipvs/reconciler.go: what `Apply` as a whole makes of the kernel's table.
use libra_flux.Base.{
  ℕ, ◌≡◌, refl, sym, ◌∙◌, inl, inr, Bool, true, false, Option, none, some, List, [], ◌∷◌, map, All,
  arith, ℤ, Result, ok, err, if◌then◌else◌, Bool-cases, Option-cases,
}
use mathlib.Core.Path.{subst}
use libra_flux.Base.Text.{GoString, ◌=s◌, =s_iff}
use libra_flux.Base.Assoc.{
  Assoc, lookup, insert, has, Distinct, insert-Distinct, lookup-insert, lookup-has, has-lookup-none,
  lookup-none-has, string_eq,
}
use libra_flux.Config.Types as Config
use libra_flux.Ipvs.Types.{Ip, Net, Service, service_key}
use libra_flux.Ipvs.Manager.{Manager, Slice, entries}
use libra_flux.Ipvs.Expand.{
  DesiredState, protocol_name, resolve, wanted, service_ports, expand_ports, expand_services,
  expand_config,
}
use libra_flux.Ipvs.Reconciler.{MapOrder, index_services, apply_loop, reconcile, apply}
use libra_flux.Ipvs.Kernel.{View, IsWire, DestinationLaws}
use libra_flux.Ipvs.Upsert.{DistinctDests}
use libra_flux.Ipvs.Laws.{scheduler_in, Unchanged, ServiceLaws, OrderLaws}
use libra_flux.Ipvs.Programming.{AreStates, scheduler_wanted, weight_wanted}
use libra_flux.Ipvs.Converge.{
  AreFiled, index-AreFiled, at_address, drops, Agreed, apply_loop-Applied,
}
use libra_flux.Ipvs.Removal.{AreThere, remove_loop-Removed}

some_equal : {A : Type 0} {a b : A} → some a ≡ some b → a ≡ b
some_equal q = cc

ok_equal : {E A : Type 0} {a b : A} → ◌≡◌ {A = Result E A} (ok a) (ok b) → a ≡ b
ok_equal q = cc

none-some : {A : Type 0} {a : A} → none ≡ some a → ⊥
none-some q = cc

module _ (net : Net) where
  -- For every port, the backends of the service give destinations with different keys.
  unfoldable pub HasDistinctBackends : Config.Service → Type 0
  HasDistinctBackends s = (port : ℕ) → DistinctDests net (map (resolve net port) s.backends)

  insert-AreStates :
      (state : DesiredState) (states : Assoc GoString DesiredState)
      → DistinctDests net state.destinations
      → IsWire state.service
      → AreStates net states
      → AreStates net (insert (service_key net state.service) state states)
  unfolding AreStates
  insert-AreStates state states hd wire h k other found =
      elim (Bool-cases (service_key net state.service =s k)) [
        | inl same ↦
            let key = service_key net state.service in
            let at : (if key =s k then some state else lookup k states) ≡ some other =
              sym (lookup-insert key k state states) ∙ found in
            let equal : state ≡ other = some_equal (rw same at at) in
            rw (← equal) ((=s_iff key k).0 same, hd, wire)
        | inr apart ↦
            h k other
              (ground (arith, lookup-insert (service_key net state.service) k state states, found))
      ]

  wanted-DistinctDests :
      (vip : Ip) (s : Config.Service) (p : ℕ)
      → DistinctDests net (map (resolve net p) s.backends)
      → DistinctDests net (wanted net vip s p).destinations
  unfolding wanted
  wanted-DistinctDests vip s p h = h

  wanted-IsWire : (vip : Ip) (s : Config.Service) (p : ℕ) → IsWire (wanted net vip s p).service
  unfolding wanted protocol_name
  wanted-IsWire vip s p = ground arith

  expand_ports-AreStates :
      (vip : Ip) (s : Config.Service) (ports : List ℕ) (result : Assoc GoString DesiredState)
      → HasDistinctBackends s
      → AreStates net result × Distinct result
      → AreStates net (expand_ports net vip s ports result)
        × Distinct (expand_ports net vip s ports result)
  unfolding expand_ports HasDistinctBackends
  expand_ports-AreStates vip s [] result hb h = h
  expand_ports-AreStates vip s (p ∷ ps) result hb h =
      let state = wanted net vip s p in
      let key = service_key net state.service in
      expand_ports-AreStates vip s ps (insert key state result) hb (
        insert-AreStates state result (wanted-DistinctDests vip s p (hb p)) (wanted-IsWire vip s p)
            h.0,
        insert-Distinct key state result h.1,
      )

  expand_services-AreStates :
      (vip : Ip) (ss : List Config.Service) (result : Assoc GoString DesiredState)
      → All HasDistinctBackends ss
      → AreStates net result × Distinct result
      → AreStates net (expand_services net vip ss result)
        × Distinct (expand_services net vip ss result)
  unfolding expand_services
  expand_services-AreStates vip [] result hb h = h
  expand_services-AreStates vip (s ∷ ss) result hb h =
      expand_services-AreStates vip ss (expand_ports net vip s (service_ports s) result) hb.1
        (expand_ports-AreStates vip s (service_ports s) result hb.0 h)

  empty-AreStates : AreStates net []
  unfolding AreStates lookup
  empty-AreStates k state found = absurd (none-some found)

  expand_config-AreStates :
      (ss : List Config.Service) (vip : GoString) {desired : Assoc GoString DesiredState}
      → All HasDistinctBackends ss
      → expand_config net ss vip ≡ ok desired
      → AreStates net desired × Distinct desired
  unfolding expand_config
  expand_config-AreStates ss vip {desired} hb hx = elim (Option-cases (net.parse_ip vip)) [
    | inl bad ↦ absurd (err_ok (rw (bad, expand_config) at hx))
    | inr (bytes, good) ↦
        let equal : expand_services net (some bytes) ss [] ≡ desired =
          ok_equal (rw (good, expand_config) at hx) in
        subst (λ d. AreStates net d × Distinct d) equal
          (expand_services-AreStates (some bytes) ss [] hb (empty-AreStates, tt))
  ]
    where
      err_ok : {E A : Type 0} {x : E} {a : A} → ◌≡◌ {A = Result E A} (err x) (ok a) → ⊥
      err_ok q = cc

  empty-AreFiled : AreFiled net []
  unfolding AreFiled lookup
  empty-AreFiled k svc found = absurd (none-some found)

  listed_entry :
      (k : GoString) (listed ranged : Assoc GoString Service)
      → lookup k ranged ≡ lookup k listed
      → has k ranged ≡ true
      → (svc : Service) × (lookup k listed ≡ some svc)
  listed_entry k listed ranged same h = elim (Option-cases (lookup k ranged)) [
    | inl none_ ↦ absurd (false_true (sym (lookup-none-has k ranged none_) ∙ h))
    | inr (svc, found) ↦ (svc, sym same ∙ found)
  ]
    where
      false_true : ◌≡◌ {A = Bool} false true → ⊥
      false_true p = cc

  still_scheduled :
      (k : GoString) (states : Assoc GoString DesiredState) (listed : Assoc GoString Service)
      {svc : Service} {old mid : Option GoString}
      → lookup k states ≡ none
      → lookup k listed ≡ some svc
      → scheduler_in k listed ≡ old
      → mid ≡ scheduler_wanted net k states old
      → mid ≡ some svc.scheduler
  unfolding scheduler_wanted scheduler_in
  still_scheduled k states listed {svc} {old} {mid} unwanted found listed_ hm = ground arith

  final_scheduler :
      (j vip : GoString) (desired states : Assoc GoString DesiredState)
      (listed ranged : Assoc GoString Service) (old : Option GoString) {mid after : Option GoString}
      → lookup j states ≡ lookup j desired
      → lookup j ranged ≡ lookup j listed
      → mid ≡ scheduler_wanted net j states old
      → after ≡ (if drops net desired vip j ranged then none else mid)
      → after
        ≡ scheduler_wanted net j desired
            (if at_address net vip (lookup j listed) then none else old)
  unfolding scheduler_wanted
  final_scheduler j vip desired states listed ranged old {mid} {after} same lsame hm ha =
      elim (Option-cases (lookup j desired)) [
        | inl none_ ↦ ground (arith, lookup-none-has j desired none_)
        | inr (state, found) ↦ ground (arith, lookup-has j desired found)
      ]

  final_weight :
      (j k vip : GoString) (desired states : Assoc GoString DesiredState)
      (listed ranged : Assoc GoString Service) (old : Option ℤ) {mid after : Option ℤ}
      → lookup j states ≡ lookup j desired
      → lookup j ranged ≡ lookup j listed
      → mid ≡ weight_wanted net j k states old
      → after ≡ (if drops net desired vip j ranged then none else mid)
      → after
        ≡ weight_wanted net j k desired (if at_address net vip (lookup j listed) then none else old)
  unfolding weight_wanted
  final_weight j k vip desired states listed ranged old {mid} {after} same lsame hm ha =
      elim (Option-cases (lookup j desired)) [
        | inl none_ ↦ ground (arith, lookup-none-has j desired none_)
        | inr (state, found) ↦ ground (arith, lookup-has j desired found)
      ]

  module _ {S : Type 0} (order : MapOrder) (m : Manager S) (v : View S)
      (laws : DestinationLaws v net m) (services : ServiceLaws v net m)
      (range : OrderLaws order) where
    -- What was wanted is there as it was wanted; a service that was listed under the text of the virtual
    -- address and is not wanted is gone, with its destinations; everything else is as it was.
    pub record Converged (desired : Assoc GoString DesiredState) (vip : GoString)
        (listed : Assoc GoString Service) (s s' : S) : Type 0 where
      pub schedulers :
          (j : GoString)
          → v.scheduler_at j s'
            ≡ scheduler_wanted net j desired
                (if at_address net vip (lookup j listed) then none else v.scheduler_at j s)
      pub weights :
          (j k : GoString)
          → v.weight_at j k s'
            ≡ weight_wanted net j k desired
                (if at_address net vip (lookup j listed) then none else v.weight_at j k s)

    reconcile-Converged :
        (desired : Assoc GoString DesiredState) (current : List Service) (vip : GoString) (s : S)
        → All IsWire current
        → Distinct desired
        → AreStates net desired
        → ((k : GoString) → scheduler_in k (index_services net current []) ≡ v.scheduler_at k s)
        → Converged desired vip
            (index_services net current [])
            s
            (reconcile net order m desired current vip s)
    unfolding reconcile Agreed AreThere AreStates AreFiled
    reconcile-Converged desired current vip s hw hd hs listed =
        let indexed = index_services net current [] in
        let (filed, distinct) = index-AreFiled net current [] hw (empty-AreFiled) tt in
        let rs = order.of_states desired in
        let same = λ (j : GoString). range.states_same desired j hd in
        let applied =
          apply_loop-Applied net order m v laws services range indexed rs s filed
            (range.states_distinct desired hd) (λ k state found. hs k state (sym (same k) ∙ found))
            (λ k h. listed k) in
        let rl = order.of_services indexed in
        let lsame = λ (j : GoString). range.services_same indexed j distinct in
        let present : AreThere net order m v laws services range desired vip rl
            (apply_loop net order m indexed rs s) =
          λ k hk hw.
            let (svc, found) = listed_entry k indexed rl (lsame k) hk in
            (
              svc.scheduler,
              still_scheduled k rs indexed (same k ∙ has-lookup-none k desired hw) found (listed k)
                  (applied.schedulers k),
            ) in
        let removed =
          remove_loop-Removed net order m v laws services range desired vip rl _
            (range.services_distinct indexed distinct)
            (λ k svc found. filed k svc (sym (lsame k) ∙ found)) (λ k hk hw. present k hk hw) in
        record {
          schedulers = λ j.
              final_scheduler j vip desired rs indexed rl (v.scheduler_at j s) (same j) (lsame j)
                (applied.schedulers j) (removed.schedulers j);
          weights = λ j k.
              final_weight j k vip desired rs indexed rl (v.weight_at j k s) (same j) (lsame j)
                (applied.weights j k) (removed.weights j k);
        }

    -- The reads before the writes change nothing that can be seen.
    read_first :
        (desired : Assoc GoString DesiredState) (vip : GoString) (listed : Assoc GoString Service)
        (s s₁ s' : S)
        → Unchanged v s s₁
        → Converged desired vip listed s₁ s'
        → Converged desired vip listed s s'
    read_first desired vip listed s s₁ s' same done = record {
      schedulers = λ j. rw (← (same.schedulers j)) (done.schedulers j);
      weights = λ j k. rw (← (same.weights j k)) (done.weights j k);
    }

    -- On a manager each of whose calls for services over tcp or udp succeeds and writes what it says when
    -- the service, or the destination, is there or not as the call needs it, whose lists are those of
    -- the kernel, all over tcp or udp, and whose reads change nothing that can be seen, and with ranges
    -- over maps that go through each entry once: when the configuration expands, no service has two
    -- backends with one key, and the services can be listed, `Apply` returns no error and makes of the
    -- kernel's table the wanted one. Each service that the configuration asks for has its scheduler and
    -- exactly its destinations, each other service that was listed under the text of the virtual
    -- address is gone with its destinations, and everything else is as it was.
    pub apply-Converged :
        (ss : List Config.Service) (vip : GoString) (s : S) {desired : Assoc GoString DesiredState}
        {current : Slice Service}
        → All HasDistinctBackends ss
        → expand_config net ss vip ≡ ok desired
        → (m.get_services s).0 ≡ ok current
        → ((apply net order m ss vip s).0 ≡ none)
          × Converged desired vip
              (index_services net (entries current) [])
              s
              (apply net order m ss vip s).1
    unfolding apply
    apply-Converged ss vip s {desired} {current} hb hx hg =
        let (read, got, pure, wire, listed) = services.services_listed s in
        let s₁ = (m.get_services s).1 in
        let equal : read ≡ current = ok_equal (sym got ∙ hg) in
        let (states, distinct) = expand_config-AreStates ss vip hb hx in
        let now_wire = subst (λ c. All IsWire (entries c)) equal wire in
        let now_listed : (k : GoString)
            → scheduler_in k (index_services net (entries current) []) ≡ v.scheduler_at k s =
          subst
            (λ c.
              (k : GoString)
              → scheduler_in k (index_services net (entries c) []) ≡ v.scheduler_at k s)
            equal listed in
        let done =
          reconcile-Converged desired (entries current) vip s₁ now_wire distinct states
            (λ k. now_listed k ∙ sym (pure.schedulers k)) in
        rw (hx, hg, apply) (refl, read_first desired vip _ s s₁ _ pure done)
