-- ===== src/Ipvs/Upsert.antt =====
-- internal/ipvs/reconciler.go: the first loop of `reconcileDestinations`.
use libra_flux.Base.{
  ◌≡◌, refl, ◌∙◌, inl, inr, true, false, ◌&&◌, Option, none, some, List, [], ◌∷◌, arith, ℤ, pos,
  eqb_ℤ, if◌then◌else◌, Bool-cases, Option-cases,
}
use mathlib.Core.Path.{subst}
use libra_flux.Base.Text.{GoString, ◌=s◌, =s_iff, =s_refl}
use libra_flux.Base.Assoc.{
  Assoc, lookup, insert, has, Distinct, insert-Distinct, lookup-insert, has-insert, lookup-has,
  string_eq,
}
use libra_flux.Ipvs.Types.{Net, Service, Destination, service_key, dest_key}
use libra_flux.Ipvs.Manager.{Manager}
use libra_flux.Ipvs.Reconciler.{MapOrder, is_wanted, upsert_loop}
use libra_flux.Ipvs.Kernel.{View, IsWire, Wrote, DestinationLaws}

module _ (net : Net) where
  -- No two destinations have one key.
  unfoldable pub DistinctDests : List Destination → Type 0
  DistinctDests [] = Unit
  DistinctDests (d ∷ ds) = (is_wanted net (dest_key net d) ds ≡ false) × DistinctDests ds

  -- The weight of the first destination with a key.
  unfoldable pub weight_of : GoString → List Destination → Option ℤ
  weight_of k [] = none
  weight_of k (d ∷ ds) = if dest_key net d =s k then some d.weight else weight_of k ds

  -- Each destination of the map is filed under its key.
  unfoldable pub IsKeyed : Assoc GoString Destination → Type 0
  IsKeyed m = (k : GoString) (d : Destination) → lookup k m ≡ some d → dest_key net d ≡ k

  unfoldable pub weight_in : GoString → Assoc GoString Destination → Option ℤ
  weight_in k m = elim (lookup k m) [ none ↦ none | some d ↦ some d.weight ]

  pub weight_of-none :
      (k : GoString) (ds : List Destination) → is_wanted net k ds ≡ false → weight_of k ds ≡ none
  unfolding weight_of is_wanted
  weight_of-none k [] h = refl
  weight_of-none k (d ∷ ds) h = ground (arith, weight_of-none k ds)

  pub weight_of-some :
      (k : GoString) (ds : List Destination)
      → is_wanted net k ds ≡ true
      → ((w : ℤ) × (weight_of k ds ≡ some w))
  unfolding weight_of is_wanted
  weight_of-some k [] h = (pos 0, ground arith)
  weight_of-some k (d ∷ ds) h = elim (Bool-cases (dest_key net d =s k)) [
    | inl same ↦ (d.weight, rw same refl)
    | inr apart ↦ let (w, q) = weight_of-some k ds (rw apart at h) in (w, rw apart q)
  ]

  wanted_apart :
      (k j : GoString) (ds : List Destination)
      → is_wanted net j ds ≡ false
      → is_wanted net k ds ≡ true
      → (j =s k) ≡ false
  wanted_apart k j ds hj hk = ground (arith, =s_iff j k)

  abbrev pub or_else : Option ℤ → Option ℤ → Option ℤ
  or_else none w = w
  or_else (some x) w = some x

  -- The entry after `currDest.Weight = dest.Weight`.
  abbrev written : Destination → Destination → Destination
  written c d = record c { weight = d.weight }

  written_key :
      (c d : Destination)
      → dest_key net c ≡ dest_key net d
      → dest_key net (written c d) ≡ dest_key net d
  unfolding dest_key
  written_key c d h = h

  insert-apart :
      (j k : GoString) (d : Destination) (m : Assoc GoString Destination)
      → (j =s k) ≡ false
      → lookup k (insert j d m) ≡ lookup k m
  insert-apart j k d m h = ground (arith, lookup-insert j k d m)

  insert-has :
      (j k : GoString) (d : Destination) (m : Assoc GoString Destination) {c : Destination}
      → lookup j m ≡ some c
      → has k (insert j d m) ≡ has k m
  insert-has j k d m {c} h = ground (arith, has-insert j k d m, lookup-has j m {v = c}, =s_iff j k)

  pub insert-IsKeyed :
      (j : GoString) (d : Destination) (m : Assoc GoString Destination)
      → dest_key net d ≡ j
      → IsKeyed m
      → IsKeyed (insert j d m)
  unfolding IsKeyed
  insert-IsKeyed j d m h hk k c found = ground (arith, lookup-insert j k d m, hk k c, =s_iff j k)

  module _ {S : Type 0} (order : MapOrder) (m : Manager S) (v : View S)
      (laws : DestinationLaws v net m) (svc : Service) (wire : IsWire svc) where
    pub record Upserted (ds : List Destination) (current : Assoc GoString Destination) (s : S)
        (r : Option GoString × Assoc GoString Destination × S) : Type 0 where
      pub no_error : r.0 ≡ none
      pub keyed : IsKeyed r.1
      pub distinct : Distinct r.1
      pub keys : (k : GoString) → has k r.1 ≡ has k current
      pub services : (j : GoString) → v.scheduler_at j r.2 ≡ v.scheduler_at j s
      pub weights :
          (k : GoString)
          → v.weight_at (service_key net svc) k r.2
            ≡ or_else (weight_of k ds) (v.weight_at (service_key net svc) k s)
      pub others :
          (j k : GoString)
          → (j =s service_key net svc) ≡ false
          → v.weight_at j k r.2 ≡ v.weight_at j k s

    -- The weight of one destination is now `d`'s, and nothing else is different.
    record Moved (d : Destination) (s s' : S) : Type 0 where
      services : (j : GoString) → v.scheduler_at j s' ≡ v.scheduler_at j s
      weights :
          (i l : GoString)
          → v.weight_at i l s' ≡ (
              if (i =s service_key net svc) && (l =s dest_key net d)
              then some d.weight
              else v.weight_at i l s)

    extend :
        (d : Destination) (ds : List Destination) (current current' : Assoc GoString Destination)
        (s s' : S) (r : Option GoString × Assoc GoString Destination × S)
        → is_wanted net (dest_key net d) ds ≡ false
        → ((k : GoString) → has k current' ≡ has k current)
        → Moved d s s'
        → Upserted ds current' s' r
        → Upserted (d ∷ ds) current s r
    unfolding weight_of
    extend d ds current current' s s' r hd hk moved rest = record {
      no_error = rest.no_error;
      keyed = rest.keyed;
      distinct = rest.distinct;
      keys = λ k. rest.keys k ∙ hk k;
      services = λ j. rest.services j ∙ moved.services j;
      weights = λ k.
          let last = rest.weights k in
          let here = moved.weights (service_key net svc) k in
          ground (
            arith,
            last,
            here,
            =s_refl (service_key net svc),
            =s_iff k (dest_key net d),
            =s_iff (dest_key net d) k,
            weight_of-none (dest_key net d) ds hd,
          );
      others = λ j k h.
          let last = rest.others j k h in
          let here = moved.weights j k in ground (arith, last, here);
    }

    update-Wrote :
        (d c : Destination) (s : S) {w : ℤ}
        → dest_key net c ≡ dest_key net d
        → c.weight ≡ d.weight
        → {x : GoString} → v.scheduler_at (service_key net svc) s ≡ some x
        → v.weight_at (service_key net svc) (dest_key net d) s ≡ some w
        → Wrote v
            (service_key net svc)
            (dest_key net d)
            (some d.weight)
            s
            (m.update_destination svc c s)
    update-Wrote d c s {w} key weight hs h =
        let there : v.weight_at (service_key net svc) (dest_key net c) s ≡ some w = rw key h in
        subst
          (λ k. Wrote v (service_key net svc) k (some d.weight) s (m.update_destination svc c s))
          key
          (subst
            (λ x.
              Wrote v (service_key net svc) (dest_key net c) (some x) s
                (m.update_destination svc c s))
            weight (laws.updated svc c s wire hs there))

    Moved-Wrote :
        (d : Destination) (s : S) (r : Option GoString × S)
        → Wrote v (service_key net svc) (dest_key net d) (some d.weight) s r
        → Moved d s r.1
    Moved-Wrote d s r w = record { services = w.services; weights = w.weights }

    unmoved :
        (d : Destination) (s : S)
        → v.weight_at (service_key net svc) (dest_key net d) s ≡ some d.weight
        → Moved d s s
    unmoved d s h = record {
      services = λ j. refl;
      weights = λ i l. ground (arith, =s_iff i (service_key net svc), =s_iff l (dest_key net d));
    }

    -- What the map says of the destinations still to come holds after the write.
    agree_on :
        (d : Destination) (ds : List Destination) (current current' : Assoc GoString Destination)
        (s s' : S)
        → is_wanted net (dest_key net d) ds ≡ false
        → ((k : GoString) → (dest_key net d =s k) ≡ false → lookup k current' ≡ lookup k current)
        → Moved d s s'
        → ((k : GoString)
            → is_wanted net k (d ∷ ds) ≡ true
            → weight_in k current ≡ v.weight_at (service_key net svc) k s)
        → (k : GoString) → is_wanted net k ds ≡ true
        → weight_in k current' ≡ v.weight_at (service_key net svc) k s'
    unfolding is_wanted weight_in
    agree_on d ds current current' s s' hd same moved agree k hk =
        let apart = wanted_apart k (dest_key net d) ds hd hk in
        let old = agree k (ground (arith, hk)) in
        ground (
          arith,
          moved.weights (service_key net svc) k,
          same k apart,
          old,
          apart,
          =s_iff k (dest_key net d),
          =s_iff (dest_key net d) k,
        )

    pub upsert :
        (ds : List Destination) (current : Assoc GoString Destination) (s : S) {x : GoString}
        → v.scheduler_at (service_key net svc) s ≡ some x
        → DistinctDests ds
        → IsKeyed current
        → Distinct current
        → ((k : GoString)
            → is_wanted net k ds ≡ true
            → weight_in k current ≡ v.weight_at (service_key net svc) k s)
        → Upserted ds current s (upsert_loop net order m svc ds current s)
    unfolding upsert_loop weight_of DistinctDests is_wanted weight_in IsKeyed
    upsert [] current s hs hd hk hm agree = record {
      no_error = refl;
      keyed = hk;
      distinct = hm;
      keys = λ k. refl;
      services = λ j. refl;
      weights = λ k. refl;
      others = λ j k h. refl;
    }
    upsert (d ∷ ds) current s hs hd hk hm agree =
        let sk = service_key net svc in
        let dk = dest_key net d in
        let here : weight_in dk current ≡ v.weight_at sk dk s =
          agree dk (ground (arith, =s_refl dk)) in
        elim (Option-cases (lookup dk current)) [
          | inl absent ↦
              let wrote = laws.created svc d s wire hs (ground (arith, here)) in
              let moved = Moved-Wrote d s _ wrote in
              let rest =
                upsert ds current _ (moved.services sk ∙ hs) hd.1 hk hm
                  (agree_on d ds current current s _ hd.0 (λ k h. refl) moved agree) in
              rw (absent, upsert_loop)
                (rw (wrote.no_error)
                  (extend d ds current current s _ _ hd.0 (λ k. refl) moved rest))
          | inr (c, found) ↦ elim (Bool-cases (eqb_ℤ c.weight d.weight)) [
            | inl equal ↦
                let moved = unmoved d s (ground (arith, here)) in
                let rest =
                  upsert ds current s hs hd.1 hk hm
                    (agree_on d ds current current s _ hd.0 (λ k h. refl) moved agree) in
                rw (found, equal, upsert_loop)
                  (extend d ds current current s _ _ hd.0 (λ k. refl) moved rest)
            | inr differs ↦
                let key = written_key c d (hk dk c found) in
                let wrote =
                  update-Wrote d (written c d) s {w = c.weight} key refl hs
                    (ground (arith, here)) in
                let moved = Moved-Wrote d s _ wrote in
                let next = insert dk (written c d) current in
                let rest =
                  upsert ds next _ (moved.services sk ∙ hs) hd.1
                    (insert-IsKeyed dk (written c d) current key hk)
                    (insert-Distinct dk (written c d) current hm)
                    (agree_on d ds current next s _ hd.0
                      (λ k h. insert-apart dk k (written c d) current h) moved agree) in
                rw (found, differs, upsert_loop)
                  (rw (wrote.no_error) (
                    extend d ds current next s _ _ hd.0
                      (λ k. insert-has dk k (written c d) current found) moved rest))
          ]
        ]
