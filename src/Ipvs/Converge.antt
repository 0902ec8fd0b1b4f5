-- ===== src/Ipvs/Converge.antt =====
-- internal/ipvs/reconciler.go: `reconcile` as a whole makes the kernel's table the wanted one.
use libra_flux.Base.{
  ◌∙◌, sym, Bool-cases, All, if◌then◌else◌, ◌≡◌, refl, inl, inr, Bool, true, false, not, ◌&&◌,
  Option, none, some, List, [], ◌∷◌, arith, Option-cases,
}
use mathlib.Core.Path.{subst}
use libra_flux.Base.Text.{GoString, ◌=s◌, =s_iff, =s_refl}
use libra_flux.Base.Assoc.{
  Assoc, lookup, insert, has, Distinct, insert-Distinct, lookup-insert, lookup-has, has-lookup-none,
  string_eq,
}
use libra_flux.Ipvs.Types.{Net, Service, service_key}
use libra_flux.Ipvs.Manager.{Manager}
use libra_flux.Ipvs.Expand.{DesiredState}
use libra_flux.Ipvs.Reconciler.{MapOrder, index_services, add_service, refresh_service, apply_loop}
use libra_flux.Ipvs.Kernel.{IsWire, View, DestinationLaws}
use libra_flux.Ipvs.Upsert.{DistinctDests}
use libra_flux.Ipvs.Laws.{scheduler_in, ServiceLaws, OrderLaws}
use libra_flux.Ipvs.Programming.{
  Stepped, add_service-Stepped, refresh_service-Stepped, AreStates, scheduler_wanted, weight_wanted,
}

some_equal : {A : Type 0} {a b : A} → some a ≡ some b → a ≡ b
some_equal q = cc

module _ (net : Net) where
  -- Each service of the map is filed under its key, and over tcp or udp.
  unfoldable pub AreFiled : Assoc GoString Service → Type 0
  AreFiled l =
      (k : GoString) (svc : Service)
      → lookup k l ≡ some svc
      → (service_key net svc ≡ k) × IsWire svc

  insert-AreFiled :
      (svc : Service) (l : Assoc GoString Service)
      → IsWire svc
      → AreFiled l
      → AreFiled (insert (service_key net svc) svc l)
  unfolding AreFiled
  insert-AreFiled svc l wire h k other found = elim (Bool-cases (service_key net svc =s k)) [
    | inl same ↦
        let at : (if service_key net svc =s k then some svc else lookup k l) ≡ some other =
          sym (lookup-insert (service_key net svc) k svc l) ∙ found in
        let equal : svc ≡ other = some_equal (rw same at at) in
        rw (← equal) ((=s_iff (service_key net svc) k).0 same, wire)
    | inr apart ↦ h k other (ground (arith, lookup-insert (service_key net svc) k svc l, found))
  ]

  pub index-AreFiled :
      (ss : List Service) (l : Assoc GoString Service)
      → All IsWire ss
      → AreFiled l
      → Distinct l
      → AreFiled (index_services net ss l) × Distinct (index_services net ss l)
  unfolding index_services
  index-AreFiled [] l hw hf hd = (hf, hd)
  index-AreFiled (svc ∷ ss) l hw hf hd =
      index-AreFiled ss (insert (service_key net svc) svc l) hw.1 (insert-AreFiled svc l hw.0 hf)
        (insert-Distinct (service_key net svc) svc l hd)

  -- The service has the text as its address.
  abbrev pub at_address : GoString → Option Service → Bool
  at_address vip none = false
  at_address vip (some svc) = net.ip_string svc.address =s vip

  -- What is deleted.
  abbrev pub drops :
      Assoc GoString DesiredState → GoString → GoString → Assoc GoString Service → Bool
  drops desired vip j l = at_address vip (lookup j l) && not (has j desired)

  module _ {S : Type 0} (order : MapOrder) (m : Manager S) (v : View S)
      (laws : DestinationLaws v net m) (services : ServiceLaws v net m)
      (range : OrderLaws order) where
    pub record Applied (states : Assoc GoString DesiredState) (s s' : S) : Type 0 where
      pub schedulers :
          (j : GoString) → v.scheduler_at j s' ≡ scheduler_wanted net j states (v.scheduler_at j s)
      pub weights :
          (j k : GoString) → v.weight_at j k s' ≡ weight_wanted net j k states (v.weight_at j k s)

    Applied-cons :
        (key : GoString) (state : DesiredState) (rest : Assoc GoString DesiredState) (s s₁ s' : S)
        → has key rest ≡ false
        → Stepped net order m v laws services range key state s s₁
        → Applied rest s₁ s'
        → Applied ((key, state) ∷ rest) s s'
    unfolding scheduler_wanted weight_wanted lookup
    Applied-cons key state rest s s₁ s' hd one more = record {
      schedulers = λ j. ground (
        arith,
        more.schedulers j,
        one.schedulers j,
        has-lookup-none key rest hd,
        =s_iff key j,
        =s_iff j key,
      );
      weights = λ j k. ground (
        arith,
        more.weights j k,
        one.weights j k,
        has-lookup-none key rest hd,
        =s_iff key j,
        =s_iff j key,
      );
    }

    -- The map of the current services says of the wanted ones what the kernel holds.
    unfoldable pub Agreed : Assoc GoString Service → Assoc GoString DesiredState → S → Type 0
    Agreed current states s =
        (k : GoString) → has k states ≡ true → scheduler_in k current ≡ v.scheduler_at k s

    step_service :
        (current : Assoc GoString Service) (key : GoString) (state : DesiredState) (svc : Service)
        (s : S)
        → AreFiled current
        → DistinctDests net state.destinations
        → scheduler_in key current ≡ v.scheduler_at key s
        → lookup key current ≡ some svc
        → Stepped net order m v laws services range key state s
            (refresh_service net order m svc state s)
    unfolding AreFiled scheduler_in
    step_service current key state svc s hf hd agreed found =
        let (filed, wire) = hf key svc found in
        let there : v.scheduler_at (service_key net svc) s ≡ some svc.scheduler =
          rw filed (ground (arith, agreed, found)) in
        subst
          (λ k.
            Stepped net order m v laws services range k state s
              (refresh_service net order m svc state s))
          filed
          (refresh_service-Stepped net order m v laws services range svc state s there hd wire)

    step_absent :
        (current : Assoc GoString Service) (key : GoString) (state : DesiredState) (s : S)
        → service_key net state.service ≡ key
        → DistinctDests net state.destinations
        → IsWire state.service
        → scheduler_in key current ≡ v.scheduler_at key s
        → lookup key current ≡ none
        → Stepped net order m v laws services range key state s (add_service net order m state s)
    unfolding scheduler_in
    step_absent current key state s filed hd wire agreed absent =
        let free : v.scheduler_at (service_key net state.service) s ≡ none =
          rw filed (ground (arith, agreed, absent)) in
        subst
          (λ k.
            Stepped net order m v laws services range k state s (add_service net order m state s))
          filed (add_service-Stepped net order m v laws services range state s free hd wire)

    head_state :
        (key : GoString) (state : DesiredState) (rest : Assoc GoString DesiredState)
        → AreStates net ((key, state) ∷ rest)
        → (service_key net state.service ≡ key)
          × DistinctDests net state.destinations
          × IsWire state.service
    unfolding AreStates lookup
    head_state key state rest h = h key state (rw (=s_refl key) refl)

    tail-AreStates :
        (key : GoString) (state : DesiredState) (rest : Assoc GoString DesiredState)
        → has key rest ≡ false
        → AreStates net ((key, state) ∷ rest)
        → AreStates net rest
    unfolding AreStates lookup
    tail-AreStates key state rest hd h k x found =
        h k x (ground (arith, found, hd, lookup-has k rest {v = x}, =s_iff key k))

    still-Agreed :
        (current : Assoc GoString Service) (key : GoString) (state : DesiredState)
        (rest : Assoc GoString DesiredState) (s s₁ : S)
        → has key rest ≡ false
        → Stepped net order m v laws services range key state s s₁
        → Agreed current ((key, state) ∷ rest) s
        → Agreed current rest s₁
    unfolding Agreed has
    still-Agreed current key state rest s s₁ hd one agreed k hk =
        let old = agreed k (ground (arith, hk)) in
        ground (arith, one.schedulers k, old, hd, hk, =s_iff k key)

    pub apply_loop-Applied :
        (current : Assoc GoString Service) (states : Assoc GoString DesiredState) (s : S)
        → AreFiled current
        → Distinct states
        → AreStates net states
        → Agreed current states s
        → Applied states s (apply_loop net order m current states s)
    unfolding apply_loop scheduler_wanted weight_wanted lookup Agreed has
    apply_loop-Applied current [] s hf hd hs agreed = record {
      schedulers = λ j. refl;
      weights = λ j k. refl;
    }
    apply_loop-Applied current ((key, state) ∷ rest) s hf hd hs agreed =
        let (filed, dests, wire) = head_state key state rest hs in
        let here = agreed key (ground (arith, =s_refl key)) in
        let tail = tail-AreStates key state rest hd.0 hs in
        elim (Option-cases (lookup key current)) [
          | inl absent ↦
              let one = step_absent current key state s filed dests wire here absent in
              let more =
                apply_loop-Applied current rest _ hf hd.1 tail
                  (still-Agreed current key state rest s _ hd.0 one agreed) in
              rw (absent, apply_loop) (Applied-cons key state rest s _ _ hd.0 one more)
          | inr (svc, found) ↦
              let one = step_service current key state svc s hf dests here found in
              let more =
                apply_loop-Applied current rest _ hf hd.1 tail
                  (still-Agreed current key state rest s _ hd.0 one agreed) in
              rw (found, apply_loop) (Applied-cons key state rest s _ _ hd.0 one more)
        ]
