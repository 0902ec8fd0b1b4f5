-- ===== src/Ipvs/Prune.antt =====
-- internal/ipvs/reconciler.go: the second loop of `reconcileDestinations`, and the whole of it.
use libra_flux.Base.{
  ◌≡◌, refl, sym, ◌∙◌, inl, inr, true, false, not, ◌&&◌, Option, none, some, List, [], ◌∷◌, arith,
  ℤ, pos, if◌then◌else◌, Bool-cases, Option-cases,
}
use mathlib.Core.Path.{subst}
use libra_flux.Base.Text.{GoString, ◌=s◌, =s_iff, =s_refl}
use libra_flux.Base.Assoc.{
  Assoc, lookup, insert, insert-Distinct, has, Distinct, lookup-has, lookup-none-has, string_eq,
}
use libra_flux.Ipvs.Types.{Net, Service, Destination, service_key, dest_key}
use libra_flux.Ipvs.Manager.{Manager}
use libra_flux.Ipvs.Reconciler.{
  MapOrder, is_wanted, index_destinations, upsert_loop, prune_loop, reconcile_destinations,
}
use libra_flux.Ipvs.Kernel.{IsWire, View, Wrote, DestinationLaws, RangeLaws}
use libra_flux.Ipvs.Upsert.{
  DistinctDests, weight_of, weight_in, IsKeyed, upsert, or_else, weight_of-none, weight_of-some,
  insert-IsKeyed,
}

module _ (net : Net) {S : Type 0} (order : MapOrder) (m : Manager S) (v : View S)
    (laws : DestinationLaws v net m) (svc : Service) (wire : IsWire svc) where
  record Pruned (desired : List Destination) (l : Assoc GoString Destination) (s : S)
      (r : Option GoString × S) : Type 0 where
    no_error : r.0 ≡ none
    services : (j : GoString) → v.scheduler_at j r.1 ≡ v.scheduler_at j s
    weights :
        (k : GoString)
        → v.weight_at (service_key net svc) k r.1 ≡ (
            if has k l && not (is_wanted net k desired)
            then none
            else v.weight_at (service_key net svc) k s)
    others :
        (j k : GoString)
        → (j =s service_key net svc) ≡ false
        → v.weight_at j k r.1 ≡ v.weight_at j k s

  -- Each destination of the list that is not wanted is in the kernel.
  ArePresent : List Destination → Assoc GoString Destination → S → Type 0
  ArePresent desired l s =
      (k : GoString)
      → has k l ≡ true
      → is_wanted net k desired ≡ false
      → ((w : ℤ) × (v.weight_at (service_key net svc) k s ≡ some w))

  Pruned-more :
      (desired : List Destination) (key : GoString) (d : Destination)
      (rest : Assoc GoString Destination) (s : S) (s' r : Option GoString × S)
      → is_wanted net key desired ≡ false
      → has key rest ≡ false
      → Wrote v (service_key net svc) key none s s'
      → Pruned desired rest s'.1 r
      → Pruned desired ((key, d) ∷ rest) s r
  unfolding has
  Pruned-more desired key d rest s s' r hw hd wrote more = record {
    no_error = more.no_error;
    services = λ j. more.services j ∙ wrote.services j;
    weights = λ k. ground (
      arith,
      more.weights k,
      wrote.weights (service_key net svc) k,
      =s_refl (service_key net svc),
      =s_iff k key,
      =s_iff key k,
    );
    others = λ j k h. ground (arith, more.others j k h, wrote.weights j k);
  }

  Pruned-same :
      (desired : List Destination) (key : GoString) (d : Destination)
      (rest : Assoc GoString Destination) (s : S) (r : Option GoString × S)
      → is_wanted net key desired ≡ true
      → Pruned desired rest s r
      → Pruned desired ((key, d) ∷ rest) s r
  unfolding has
  Pruned-same desired key d rest s r hw same = record {
    no_error = same.no_error;
    services = same.services;
    weights = λ k. ground (arith, same.weights k, =s_iff key k);
    others = same.others;
  }

  head_key :
      (key : GoString) (d : Destination) (rest : Assoc GoString Destination)
      → IsKeyed net ((key, d) ∷ rest)
      → dest_key net d ≡ key
  unfolding IsKeyed lookup
  head_key key d rest h = h key d (rw (=s_refl key) refl)

  tail-IsKeyed :
      (key : GoString) (d : Destination) (rest : Assoc GoString Destination)
      → has key rest ≡ false
      → IsKeyed net ((key, d) ∷ rest)
      → IsKeyed net rest
  unfolding IsKeyed lookup
  tail-IsKeyed key d rest hd h k x found =
      h k x (ground (arith, found, hd, lookup-has k rest {v = x}, =s_iff key k))

  delete-Wrote :
      (key : GoString) (d : Destination) (s : S) {w : ℤ}
      → dest_key net d ≡ key
      → {x : GoString} → v.scheduler_at (service_key net svc) s ≡ some x
      → v.weight_at (service_key net svc) key s ≡ some w
      → Wrote v (service_key net svc) key none s (m.delete_destination svc d s)
  delete-Wrote key d s {w} filed hs h =
      let there : v.weight_at (service_key net svc) (dest_key net d) s ≡ some w = rw filed h in
      subst (λ k. Wrote v (service_key net svc) k none s (m.delete_destination svc d s)) filed
        (laws.deleted svc d s wire hs there)

  still_present :
      (desired : List Destination) (key : GoString) (d : Destination)
      (rest : Assoc GoString Destination) (s : S) (r : Option GoString × S)
      → has key rest ≡ false
      → Wrote v (service_key net svc) key none s r
      → ArePresent desired ((key, d) ∷ rest) s
      → ArePresent desired rest r.1
  unfolding ArePresent has
  still_present desired key d rest s r hd wrote hp k hk hw =
      let (w, there) = hp k (ground (arith, hk)) hw in
      (w, ground (arith, wrote.weights (service_key net svc) k, there, hd, hk, =s_iff k key))

  prune :
      (desired : List Destination) (l : Assoc GoString Destination) (s : S) {x : GoString}
      → v.scheduler_at (service_key net svc) s ≡ some x
      → Distinct l
      → IsKeyed net l
      → ArePresent desired l s
      → Pruned desired l s (prune_loop net order m svc desired l s)
  unfolding prune_loop has ArePresent
  prune desired [] s hs hd hk hp = record {
    no_error = refl;
    services = λ j. refl;
    weights = λ k. refl;
    others = λ j k h. refl;
  }
  prune desired ((key, d) ∷ rest) s hs hd hk hp = elim (Bool-cases (is_wanted net key desired)) [
    | inl kept ↦
        let rest_ =
          prune desired rest s hs hd.1 (tail-IsKeyed key d rest hd.0 hk)
            (λ k h. hp k (ground (arith, h))) in
        rw (kept, prune_loop) (Pruned-same desired key d rest s _ kept rest_)
    | inr extra ↦
        let filed = head_key key d rest hk in
        let (w, there) = hp key (ground (arith, =s_refl key)) extra in
        let wrote = delete-Wrote key d s {w = w} filed hs there in
        let more =
          prune desired rest _ (wrote.services (service_key net svc) ∙ hs) hd.1
            (tail-IsKeyed key d rest hd.0 hk)
            (still_present desired key d rest s _ hd.0 wrote hp) in
        rw (extra, prune_loop)
          (rw (wrote.no_error) (Pruned-more desired key d rest s _ _ extra hd.0 wrote more))
  ]

  -- There was no error; in this service the weights are those of the wanted destinations, and in every
  -- other they are as they were.
  pub record Reconciled (desired : List Destination) (s : S) (r : Option GoString × S)
      : Type 0 where
    pub no_error : r.0 ≡ none
    pub schedulers : (j : GoString) → v.scheduler_at j r.1 ≡ v.scheduler_at j s
    pub weights :
        (j k : GoString)
        → v.weight_at j k r.1
          ≡ (if j =s service_key net svc then weight_of net k desired else v.weight_at j k s)

  -- What `GetDestinations` returned is what the kernel holds.
  unfoldable pub IsListed : List Destination → S → Type 0
  IsListed current s =
      (k : GoString)
      → weight_in net k (index_destinations net current []) ≡ v.weight_at (service_key net svc) k s

  index-IsKeyed :
      (ds : List Destination) (l : Assoc GoString Destination)
      → IsKeyed net l
      → Distinct l
      → IsKeyed net (index_destinations net ds l) × Distinct (index_destinations net ds l)
  unfolding index_destinations
  index-IsKeyed [] l hk hd = (hk, hd)
  index-IsKeyed (d ∷ ds) l hk hd =
      index-IsKeyed ds (insert (dest_key net d) d l)
        (insert-IsKeyed net (dest_key net d) d l refl hk) (insert-Distinct (dest_key net d) d l hd)

  -- An entry of the ranged map was listed.
  ranged-listed :
      (start l ranged : Assoc GoString Destination) (k : GoString)
      → has k l ≡ has k start
      → lookup k ranged ≡ lookup k l
      → has k ranged ≡ has k start
  ranged-listed start l ranged k keys same = elim (Option-cases (lookup k l)) [
    | inl none_ ↦ ground (arith, lookup-none-has k l, lookup-none-has k ranged)
    | inr (d, found) ↦ ground (arith, lookup-has k l {v = d}, lookup-has k ranged {v = d})
  ]

  weight_in-has :
      (k : GoString) (l : Assoc GoString Destination)
      → (has k l ≡ true → ((w : ℤ) × (weight_in net k l ≡ some w)))
        × (has k l ≡ false → weight_in net k l ≡ none)
  unfolding weight_in
  weight_in-has k l = elim (Option-cases (lookup k l)) [
    | inl none_ ↦
        (λ h. (pos 0, ground (arith, lookup-none-has k l)), λ h. rw (none_, weight_in) refl)
    | inr (d, found) ↦
        (λ h. (d.weight, rw (found, weight_in) refl), λ h. ground (arith, lookup-has k l {v = d}))
  ]

  final_weight :
      (desired : List Destination) (start ranged : Assoc GoString Destination) (k : GoString)
      {before upserted after : Option ℤ}
      → has k ranged ≡ has k start
      → weight_in net k start ≡ before
      → upserted ≡ or_else net (weight_of net k desired) before
      → after ≡ (if has k ranged && not (is_wanted net k desired) then none else upserted)
      → after ≡ weight_of net k desired
  final_weight desired start ranged k {before} {upserted} {after} keys listed up pr =
      elim (Bool-cases (is_wanted net k desired)) [
        | inl kept ↦ let (w, q) = weight_of-some net k desired kept in ground arith
        | inr extra ↦ ground (arith, weight_of-none net k desired extra, (weight_in-has k start).1)
      ]

  -- On a manager whose calls for the destinations of a service over tcp or udp that exists succeed and
  -- write what they say, a creation when the destination is not there and an update or a deletion when
  -- it is, and with ranges over maps that go through each entry once: on such a service, with the
  -- kernel's destinations listed as they are and the wanted ones under different keys,
  -- `reconcileDestinations` returns no error; afterwards the weights in this service are exactly those
  -- of the wanted destinations, and those of every other service are as they were.
  pub reconcile_destinations-Reconciled :
      RangeLaws order
      → (desired current : List Destination) (s : S) {x : GoString}
      → v.scheduler_at (service_key net svc) s ≡ some x
      → DistinctDests net desired
      → IsListed current s
      → Reconciled desired s (reconcile_destinations net order m svc desired current s)
  unfolding reconcile_destinations ArePresent IsListed IsKeyed lookup
  reconcile_destinations-Reconciled range desired current s hs hd listed =
      let start = index_destinations net current [] in
      let (keyed, distinct) = index-IsKeyed current [] (λ k d h. cc) tt in
      let up =
        upsert net order m v laws svc wire desired start s hs hd keyed distinct (λ k h. listed k) in
      let r = upsert_loop net order m svc desired start s in
      let ranged = order.of_destinations r.1 in
      let same = λ (k : GoString). range.same r.1 k up.distinct in
      let live = up.services (service_key net svc) ∙ hs in
      let present : ArePresent desired ranged r.2 = λ k hr hw.
        let keys = ranged-listed start r.1 ranged k (up.keys k) (same k) in
        let (w, there) = (weight_in-has k start).0 (sym keys ∙ hr) in
        (w, ground (arith, up.weights k, listed k, there, weight_of-none net k desired hw)) in
      let pr =
        prune desired ranged r.2 live (range.distinct r.1 up.distinct)
          (λ k d found. up.keyed k d (sym (same k) ∙ found)) present in
      rw (up.no_error, reconcile_destinations)
        (record {
          no_error = pr.no_error;
          schedulers = λ j. pr.services j ∙ up.services j;
          weights = λ j k.
              let here =
                final_weight desired start ranged k
                  (ranged-listed start r.1 ranged k (up.keys k) (same k)) (listed k) (up.weights k)
                  (pr.weights k) in
              ground (arith, here, pr.others j k, up.others j k, =s_iff j (service_key net svc));
        })
