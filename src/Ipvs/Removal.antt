-- ===== src/Ipvs/Removal.antt =====
-- internal/ipvs/reconciler.go: the loop of `reconcile` that deletes, and the whole of `Apply`.
use libra_flux.Base.{
  ◌≡◌, refl, inl, inr, true, false, not, ◌||◌, Option, none, some, [], ◌∷◌, arith, if◌then◌else◌,
  Bool-cases,
}
use mathlib.Core.Path.{subst}
use libra_flux.Base.Text.{GoString, ◌=s◌, =s_iff, =s_refl}
use libra_flux.Base.Assoc.{Assoc, lookup, has, Distinct, lookup-has, has-lookup-none, string_eq}
use libra_flux.Ipvs.Types.{Net, Service, service_key}
use libra_flux.Ipvs.Manager.{Manager}
use libra_flux.Ipvs.Expand.{DesiredState}
use libra_flux.Ipvs.Reconciler.{MapOrder, remove_loop}
use libra_flux.Ipvs.Kernel.{View, IsWire, DestinationLaws}
use libra_flux.Ipvs.Laws.{Placed, ServiceLaws, OrderLaws}
use libra_flux.Ipvs.Converge.{AreFiled, drops}

module _ (net : Net) {S : Type 0} (order : MapOrder) (m : Manager S) (v : View S)
    (laws : DestinationLaws v net m) (services : ServiceLaws v net m) (range : OrderLaws order)
    (desired : Assoc GoString DesiredState) (vip : GoString) where
  pub record Removed (l : Assoc GoString Service) (s s' : S) : Type 0 where
    pub schedulers :
        (j : GoString)
        → v.scheduler_at j s' ≡ (if drops net desired vip j l then none else v.scheduler_at j s)
    pub weights :
        (j k : GoString)
        → v.weight_at j k s' ≡ (if drops net desired vip j l then none else v.weight_at j k s)

  -- Each service of the list that is not wanted is in the kernel.
  unfoldable pub AreThere : Assoc GoString Service → S → Type 0
  AreThere l s =
      (k : GoString)
      → has k l ≡ true
      → has k desired ≡ false
      → (x : GoString) × (v.scheduler_at k s ≡ some x)

  head_filed :
      (key : GoString) (svc : Service) (rest : Assoc GoString Service)
      → AreFiled net ((key, svc) ∷ rest)
      → (service_key net svc ≡ key) × IsWire svc
  unfolding AreFiled lookup
  head_filed key svc rest h = h key svc (rw (=s_refl key) refl)

  tail-AreFiled :
      (key : GoString) (svc : Service) (rest : Assoc GoString Service)
      → has key rest ≡ false
      → AreFiled net ((key, svc) ∷ rest)
      → AreFiled net rest
  unfolding AreFiled lookup
  tail-AreFiled key svc rest hd h k x found =
      h k x (ground (arith, found, hd, lookup-has k rest {v = x}, =s_iff key k))

  Removed-kept :
      (key : GoString) (svc : Service) (rest : Assoc GoString Service) (s s' : S)
      → has key rest ≡ false
      → (not (net.ip_string svc.address =s vip) || has key desired) ≡ true
      → Removed rest s s'
      → Removed ((key, svc) ∷ rest) s s'
  unfolding lookup
  Removed-kept key svc rest s s' hd kept more = record {
    schedulers =
        λ j. ground (arith, more.schedulers j, has-lookup-none key rest hd, =s_iff key j, kept);
    weights =
        λ j k. ground (arith, more.weights j k, has-lookup-none key rest hd, =s_iff key j, kept);
  }

  Removed-cons :
      (key : GoString) (svc : Service) (rest : Assoc GoString Service) (s : S)
      (r : Option GoString × S) (s' : S)
      → has key rest ≡ false
      → (not (net.ip_string svc.address =s vip) || has key desired) ≡ false
      → Placed v key none s r
      → Removed rest r.1 s'
      → Removed ((key, svc) ∷ rest) s s'
  unfolding lookup
  Removed-cons key svc rest s r s' hd gone one more = record {
    schedulers = λ j. ground (
      arith,
      more.schedulers j,
      one.schedulers j,
      has-lookup-none key rest hd,
      =s_iff key j,
      =s_iff j key,
      gone,
    );
    weights = λ j k. ground (
      arith,
      more.weights j k,
      one.weights j k,
      has-lookup-none key rest hd,
      =s_iff key j,
      =s_iff j key,
      gone,
    );
  }

  delete-Placed :
      (key : GoString) (svc : Service) (s : S) {x : GoString}
      → (service_key net svc ≡ key) × IsWire svc
      → v.scheduler_at key s ≡ some x
      → Placed v key none s (m.delete_service svc s)
  delete-Placed key svc s {x} (filed, wire) h =
      let there : v.scheduler_at (service_key net svc) s ≡ some x = rw filed h in
      subst (λ k. Placed v k none s (m.delete_service svc s)) filed
        (services.deleted svc s wire there)

  still_there :
      (key : GoString) (svc : Service) (rest : Assoc GoString Service) (s : S)
      (r : Option GoString × S)
      → has key rest ≡ false
      → Placed v key none s r
      → AreThere ((key, svc) ∷ rest) s
      → AreThere rest r.1
  unfolding AreThere has
  still_there key svc rest s r hd one h k hk hw =
      let (x, there) = h k (ground (arith, hk)) hw in
      (x, ground (arith, one.schedulers k, there, hd, hk, =s_iff k key))

  pub remove_loop-Removed :
      (l : Assoc GoString Service) (s : S)
      → Distinct l
      → AreFiled net l
      → AreThere l s
      → Removed l s (remove_loop net order m desired vip l s)
  unfolding remove_loop lookup AreThere has
  remove_loop-Removed [] s hd hf ht = record { schedulers = λ j. refl; weights = λ j k. refl }
  remove_loop-Removed ((key, svc) ∷ rest) s hd hf ht =
      let tail = tail-AreFiled key svc rest hd.0 hf in
      elim (Bool-cases (not (net.ip_string svc.address =s vip) || has key desired)) [
        | inl kept ↦
            let more = remove_loop-Removed rest s hd.1 tail (λ k h. ht k (ground (arith, h))) in
            rw (kept, remove_loop) (Removed-kept key svc rest s _ hd.0 kept more)
        | inr gone ↦
            let (x, there) = ht key (ground (arith, =s_refl key)) (ground (arith, gone)) in
            let one = delete-Placed key svc s {x = x} (head_filed key svc rest hf) there in
            let more =
              remove_loop-Removed rest _ hd.1 tail (still_there key svc rest s _ hd.0 one ht) in
            rw (gone, remove_loop) (Removed-cons key svc rest s _ _ hd.0 gone one more)
      ]
