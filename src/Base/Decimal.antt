-- ===== src/Base/Decimal.antt =====
-- `%d` of fmt and strconv.Itoa: decimal digits of a number.
use libra_flux.Base.Tests.{ltb, if◌then◌else◌, Bool-cases}
use libra_flux.Base.Lists.{All, All-append}
use libra_flux.Base.Int.{ℤ, pos, negsuc}
use libra_flux.Base.Text.{GoString}
use Prim.Native.Nat.{ℕ, zero, suc, ◌+◌, ◌-◌, ◌*◌, ◌/◌, ◌%◌, ◌<◌, ◌≤◌}
use mathlib.Core.Path.{◌≡◌, refl, sym, ap, ◌∙◌}
use mathlib.Core.Logic.{◌≢◌, inl, inr}
use mathlib.Core.List.{[], ◌∷◌, ◌++◌}
use native.Mathlib.Omega.{arith}

-- The digits of a number, with as much fuel as the number itself plus one.
unfoldable pub digits_from : ℕ → ℕ → GoString
digits_from zero n = []
digits_from (suc fuel) n =
    let front = digits_from fuel (n / 10) in
    if ltb n 10 then (48 + n) ∷ [] else front ++ (48 + n % 10) ∷ []

unfoldable pub itoa : ℕ → GoString
unfolding digits_from
itoa n = digits_from (suc n) n

unfoldable pub itoa_ℤ : ℤ → GoString
unfolding itoa
itoa_ℤ (pos n) = itoa n
itoa_ℤ (negsuc n) = 45 ∷ itoa (suc n)

-- The number that digits stand for, after those of `acc`.
abbrev pub value : ℕ → GoString → ℕ
value acc [] = acc
value acc (c ∷ s) = value (acc * 10 + (c - 48)) s

value-append : (acc c : ℕ) (s : GoString) → value acc (s ++ c ∷ []) ≡ value acc s * 10 + (c - 48)
value-append acc c [] = refl
value-append acc c (d ∷ s) = value-append (acc * 10 + (d - 48)) c s

value-digits_from : (fuel n : ℕ) → n < fuel → value 0 (digits_from fuel n) ≡ n
unfolding digits_from
value-digits_from zero n h = absurd (omega arith)
value-digits_from (suc fuel) n h = elim (Bool-cases (ltb n 10)) [
  | inl small ↦ rw small (omega arith)
  | inr large ↦ rw large (
      omega (
        arith,
        value-append 0 (48 + n % 10) (digits_from fuel (n / 10)),
        value-digits_from fuel (n / 10) (ground arith),
      ))
]

append-nonempty : (c : ℕ) (s : GoString) → s ++ c ∷ [] ≢ []
append-nonempty c [] e = cc
append-nonempty c (d ∷ s) e = cc

pub value-itoa : (n : ℕ) → value 0 (itoa n) ≡ n
unfolding itoa
value-itoa n = value-digits_from (suc n) n (omega arith)

-- Two numbers with the same digits are the same.
pub itoa-injective : (m n : ℕ) → itoa m ≡ itoa n → m ≡ n
unfolding itoa
itoa-injective m n e =
    sym (value-digits_from (suc m) m (omega arith))
    ∙ ap (value 0) e
    ∙ value-digits_from (suc n) n (omega arith)

-- A number is printed in digits alone.
digits_from-digits : (fuel n : ℕ) → All (λ c. (48 ≤ c) × (c < 58)) (digits_from fuel n)
unfolding digits_from
digits_from-digits zero n = tt
digits_from-digits (suc fuel) n = elim (Bool-cases (ltb n 10)) [
  | inl small ↦ rw small (ground arith)
  | inr large ↦ rw large (
      All-append (λ c. (48 ≤ c) × (c < 58)) (digits_from fuel (n / 10)) _
        (digits_from-digits fuel (n / 10)) (omega arith))
]

pub itoa-digits : (n : ℕ) → All (λ c. (48 ≤ c) × (c < 58)) (itoa n)
unfolding itoa
itoa-digits n = digits_from-digits (suc n) n

-- And in at least one.
pub itoa-nonempty : (n : ℕ) → itoa n ≢ []
unfolding itoa digits_from
itoa-nonempty n e = elim (Bool-cases (ltb n 10)) [
  | inl small ↦ absurd (ground (arith, e, small))
  | inr large ↦ absurd (append-nonempty _ (digits_from n (n / 10)) (rw large at e))
]
