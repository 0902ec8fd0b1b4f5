-- ===== src/Base/Atoi.antt =====
-- strconv.Atoi on 64 bits: an optional sign, then decimal digits alone, in the range of `int`.
use Prim.Native.Nat.{ℕ, zero, suc, ◌+◌, ◌-◌, ◌*◌, ◌^◌, ◌≤◌, ◌<◌}
use mathlib.Core.Path.{◌≡◌, refl, ap, ◌∙◌}
use mathlib.Core.Logic.{◌≢◌}
use mathlib.Core.Bool.{Bool, true, false, ◌&&◌}
use mathlib.Core.List.{[], ◌∷◌}
use native.Mathlib.Omega.{arith}
use libra_flux.Base.Tests.{ltb, leb, ◌==◌, if◌then◌else◌}
use libra_flux.Base.Errors.{Result, ok, err, ◌>>=◌}
use libra_flux.Base.Int.{ℤ, pos, negsuc}
use libra_flux.Base.Text.{GoString}
use libra_flux.Base.Lists.{All}
use libra_flux.Base.Decimal.{itoa, value, value-itoa, itoa-digits, itoa-nonempty}

pub data NumError : Type 0 where
  bad_syntax out_of_range : NumError

-- strconv.ParseUint: digits after those that have been read.
unfoldable pub parse_uint : ℕ → GoString → Result NumError ℕ
parse_uint n [] = ok n
parse_uint n (c ∷ s) =
    let next = n * 10 + (c - 48) in
    let rest = parse_uint next s in
    if leb 48 c && leb c 57
    then (if ltb next (2 ^ 64) then rest else err out_of_range)
    else err bad_syntax

unfoldable pub unsigned : GoString → Result NumError ℕ
unfolding parse_uint
unsigned [] = err bad_syntax
unsigned (c ∷ s) = parse_uint 0 (c ∷ s)

unfoldable pub to_int : Bool → ℕ → Result NumError ℤ
to_int false n = if ltb n (2 ^ 63) then ok (pos n) else err out_of_range
to_int true zero = ok (pos 0)
to_int true (suc n) = if ltb n (2 ^ 63) then ok (negsuc n) else err out_of_range

unfoldable pub atoi : GoString → Result NumError ℤ
unfolding unsigned to_int
atoi [] = err bad_syntax
atoi (c ∷ s) =
    if c == b'-'
    then unsigned s >>= to_int true
    else if c == b'+'
    then unsigned s >>= to_int false
    else unsigned (c ∷ s) >>= to_int false

abbrev Digits : GoString → Type 0
Digits = All (λ c. (48 ≤ c) × (c < 58))

value-grows : (acc : ℕ) (s : GoString) → acc ≤ value acc s
value-grows acc [] = omega arith
value-grows acc (c ∷ s) = omega (arith, value-grows (acc * 10 + (c - 48)) s)

-- Digits whose number fits are read as that number.
parse_uint-value :
    (acc : ℕ) (s : GoString) → Digits s → value acc s < 2 ^ 64 → parse_uint acc s ≡ ok (value acc s)
unfolding parse_uint
parse_uint-value acc [] d h = refl
parse_uint-value acc (c ∷ s) d h =
    let next = acc * 10 + (c - 48) in
    ground (arith, value-grows next s, parse_uint-value next s d.1 h)

atoi-value : (s : GoString) → Digits s → s ≢ [] → value 0 s < 2 ^ 63 → atoi s ≡ ok (pos (value 0 s))
unfolding atoi unsigned to_int
atoi-value [] d some_ h = absurd (some_ refl)
atoi-value (c ∷ s) d some_ h =
    let read = parse_uint-value 0 (c ∷ s) d (omega (arith, h)) in
    let minus : (c == b'-') ≡ false = ground (arith, d.0) in
    let plus : (c == b'+') ≡ false = ground (arith, d.0) in
    rw (minus, plus, read) (ground (arith, h))

-- What `%d` prints of a number in range is read back as this number.
pub atoi-itoa : (n : ℕ) → n < 2 ^ 63 → atoi (itoa n) ≡ ok (pos n)
atoi-itoa n h =
    let same = value-itoa n in
    atoi-value (itoa n) (itoa-digits n) (itoa-nonempty n) (rw same h)
    ∙ ap (λ (m : ℕ). ok (pos m)) same
