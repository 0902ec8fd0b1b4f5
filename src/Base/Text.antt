-- ===== src/Base/Text.antt =====
-- Go's strings as their bytes, and what the program uses of `strings` and `strconv`. Case and
-- blanks are those of ASCII.
use Prim.Native.Char.{code}
use Prim.Native.String.{String}
use Prim.Native.Nat.{ℕ, ◌+◌, ◌≤◌, ◌<◌}
use mathlib.Core.Path.{◌≡◌, refl}
use mathlib.Core.Logic.{◌↔◌}
use mathlib.Core.Bool.{Bool, true, false, ◌&&◌, ◌||◌}
use mathlib.Core.List.{List, [], ◌∷◌, map, reverse, reverse-cons, reverse-reverse}
use native.Mathlib.Omega.{arith}
use libra_flux.Base.Tests.{leb, ◌==◌, if◌then◌else◌}
use libra_flux.Base.Lists.{All, All-append}

abbrev pub GoString : Type 0
GoString = List ℕ

-- The bytes of an ASCII literal.
abbrev pub codes : String → GoString
codes String.[] = []
codes (String.◌∷◌ c s) = code c ∷ codes s

infix 50 ◌=s◌
unfoldable pub ◌=s◌ : GoString → GoString → Bool
[] =s [] = true
[] =s (d ∷ t) = false
(c ∷ s) =s [] = false
(c ∷ s) =s (d ∷ t) = c == d && s =s t

pub =s_iff : (s t : GoString) → ((s =s t) ≡ true) ↔ (s ≡ t)
unfolding ◌=s◌
=s_iff [] [] = ground arith
=s_iff [] (d ∷ t) = ground arith
=s_iff (c ∷ s) [] = ground arith
=s_iff (c ∷ s) (d ∷ t) = ground (arith, =s_iff s t)

pub =s_refl : (s : GoString) → (s =s s) ≡ true
=s_refl s = (=s_iff s s).1 refl

unfoldable pub lower : ℕ → ℕ
lower c = if leb b'A' c && leb c b'Z' then c + 32 else c

-- strings.ToLower
unfoldable pub to_lower : GoString → GoString
to_lower s = map lower s

unfoldable pub is_blank : ℕ → Bool
is_blank c = c == 32 || leb 9 c && leb c 13

unfoldable pub trim_left : GoString → GoString
trim_left [] = []
trim_left (c ∷ s) = let rest = trim_left s in if is_blank c then rest else c ∷ s

-- strings.TrimSpace
unfoldable pub trim_space : GoString → GoString
unfolding trim_left
trim_space s = reverse (trim_left (reverse (trim_left s)))

-- strings.HasPrefix
unfoldable pub has_prefix : GoString → GoString → Bool
has_prefix s [] = true
has_prefix [] (d ∷ t) = false
has_prefix (c ∷ s) (d ∷ t) = c == d && has_prefix s t

-- strings.Contains
unfoldable pub contains : GoString → GoString → Bool
unfolding has_prefix
contains [] t = has_prefix [] t
contains (c ∷ s) t = has_prefix (c ∷ s) t || contains s t

-- A text without blanks.
abbrev pub Solid : GoString → Type 0
Solid = All (λ c. is_blank c ≡ false)

trim_left-Solid : (s : GoString) → Solid s → trim_left s ≡ s
unfolding trim_left
trim_left-Solid [] h = refl
trim_left-Solid (c ∷ s) h = rw (h.0) refl

reverse-Solid : (s : GoString) → Solid s → Solid (reverse s)
reverse-Solid [] h = tt
reverse-Solid (c ∷ s) h =
    rw (reverse-cons c s)
      (All-append (λ c. is_blank c ≡ false) (reverse s) (c ∷ []) (reverse-Solid s h.1) (h.0, tt))

-- It is as it was after its ends are trimmed.
pub trim_space-Solid : (s : GoString) → Solid s → trim_space s ≡ s
unfolding trim_space
trim_space-Solid s h =
    rw (trim_left-Solid s h, trim_left-Solid (reverse s) (reverse-Solid s h)) (reverse-reverse s)

pub digit_solid : (c : ℕ) → 48 ≤ c → c < 58 → is_blank c ≡ false
unfolding is_blank
digit_solid c low high = ground arith
