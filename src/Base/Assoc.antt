-- ===== src/Base/Assoc.antt =====
-- Go's maps as lists of entries, over keys with a decided equality. A range over a map goes through
-- the entries in the order of the list.
use mathlib.Core.Path.{◌≡◌, refl}
use mathlib.Core.Logic.{◌↔◌}
use mathlib.Core.Bool.{Bool, true, false, ◌||◌}
use mathlib.Core.Option.{Option, none, some}
use mathlib.Core.List.{List, [], ◌∷◌}
use native.Mathlib.Omega.{arith}
use libra_flux.Base.Tests.{if◌then◌else◌}
use libra_flux.Base.Text.{GoString, ◌=s◌, =s_iff}

pub record Eq {ℓ} (A : Type ℓ) : Type ℓ where
  pub beq : (j k : A) → Bool
  pub beq_iff : (j k : A) → (beq j k ≡ true) ↔ (j ≡ k)

infix 50 ◌=k◌
abbrev pub ◌=k◌ {ℓ} : {A : Type ℓ} ⦃e : Eq A⦄ → A → A → Bool
◌=k◌ ⦃e⦄ = e.beq

instance abbrev pub string_eq : Eq GoString
string_eq = record { beq = ◌=s◌; beq_iff = =s_iff }

abbrev pub Assoc {ℓ κ} : Type ℓ → Type κ → Type (ℓ ⊔ κ)
Assoc K V = List (K × V)

pub =k_refl {ℓ} : {K : Type ℓ} ⦃e : Eq K⦄ (k : K) → (k =k k) ≡ true
=k_refl ⦃e⦄ k = (e.beq_iff k k).1 refl

module _ {ℓ κ} {K : Type ℓ} {V : Type κ} ⦃e : Eq K⦄ where
  -- v, ok := m[k]
  unfoldable pub lookup : K → Assoc K V → Option V
  lookup k [] = none
  lookup k ((j, v) ∷ m) = if j =k k then some v else lookup k m

  -- m[k] = v
  unfoldable pub insert : K → V → Assoc K V → Assoc K V
  insert k v [] = (k, v) ∷ []
  insert k v ((j, w) ∷ m) = if j =k k then (j, v) ∷ m else (j, w) ∷ insert k v m

  -- delete(m, k)
  unfoldable pub erase : K → Assoc K V → Assoc K V
  erase k [] = []
  erase k ((j, w) ∷ m) = let rest = erase k m in if j =k k then rest else (j, w) ∷ rest

  -- _, ok := m[k]
  unfoldable pub has : K → Assoc K V → Bool
  has k [] = false
  has k ((j, v) ∷ m) = j =k k || has k m

  -- No key twice, as in every Go map.
  abbrev pub Distinct : Assoc K V → Type 0
  Distinct [] = Unit
  Distinct ((k, v) ∷ m) = (has k m ≡ false) × Distinct m

  pub lookup-insert :
      (k j : K) (v : V) (m : Assoc K V)
      → lookup j (insert k v m) ≡ (if k =k j then some v else lookup j m)
  unfolding lookup insert
  lookup-insert k j v [] = refl
  lookup-insert k j v ((i, w) ∷ m) =
      ground (arith, e.beq_iff k j, e.beq_iff i k, e.beq_iff i j, lookup-insert k j v m)

  pub has-insert : (k j : K) (v : V) (m : Assoc K V) → has j (insert k v m) ≡ ((k =k j) || has j m)
  unfolding has insert
  has-insert k j v [] = refl
  has-insert k j v ((i, w) ∷ m) =
      ground (arith, e.beq_iff k j, e.beq_iff i k, e.beq_iff i j, has-insert k j v m)

  pub lookup-erase :
      (k j : K) (m : Assoc K V) → lookup j (erase k m) ≡ (if k =k j then none else lookup j m)
  unfolding lookup erase
  lookup-erase k j [] = ground arith
  lookup-erase k j ((i, w) ∷ m) =
      ground (arith, e.beq_iff k j, e.beq_iff i k, e.beq_iff i j, lookup-erase k j m)

  pub has-lookup-none : (k : K) (m : Assoc K V) → has k m ≡ false → lookup k m ≡ none
  unfolding lookup has
  has-lookup-none k [] h = refl
  has-lookup-none k ((j, v) ∷ m) h = ground (arith, has-lookup-none k m)

  pub lookup-has : (k : K) (m : Assoc K V) {v : V} → lookup k m ≡ some v → has k m ≡ true
  unfolding lookup has
  lookup-has k [] h = cc
  lookup-has k ((j, w) ∷ m) {v} h = ground (arith, lookup-has k m {v = v})

  pub lookup-none-has : (k : K) (m : Assoc K V) → lookup k m ≡ none → has k m ≡ false
  unfolding lookup has
  lookup-none-has k [] h = refl
  lookup-none-has k ((j, v) ∷ m) h = ground (arith, lookup-none-has k m)

  pub insert-Distinct : (k : K) (v : V) (m : Assoc K V) → Distinct m → Distinct (insert k v m)
  unfolding insert has
  insert-Distinct k v [] h = (refl, tt)
  insert-Distinct k v ((j, w) ∷ m) h =
      ground (arith, e.beq_iff j k, e.beq_iff k j, has-insert k j v m, insert-Distinct k v m)

  pub lookup-insert_same : (k : K) (v : V) (m : Assoc K V) → lookup k (insert k v m) ≡ some v
  lookup-insert_same k v m = ground (arith, lookup-insert k k v m, =k_refl k)

  pub lookup-erase_same : (k : K) (m : Assoc K V) → lookup k (erase k m) ≡ none
  lookup-erase_same k m = ground (arith, lookup-erase k k m, =k_refl k)
