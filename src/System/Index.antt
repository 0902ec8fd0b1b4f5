-- ===== src/System/Index.antt =====
-- strings.Index, and slices of texts, for the block that internal/system/frr.go replaces.
use libra_flux.Base.{
  ℕ, zero, suc, ◌≤◌, ◌≡◌, refl, sym, ap, ◌∙◌, inl, inr, Bool, true, false, ◌&&◌, ◌==◌, Option, none,
  some, [], ◌∷◌, ◌++◌, arith, if◌then◌else◌, length, length-append, Bool-cases,
}
use mathlib.Core.List.{append_assoc}
use libra_flux.Base.Text.{GoString, has_prefix}

unfoldable pub one_later : Option ℕ → Option ℕ
one_later none = none
one_later (some n) = some (suc n)

-- strings.Index, with none for -1
unfoldable pub index : GoString → GoString → Option ℕ
unfolding has_prefix one_later
index [] t = if has_prefix [] t then some 0 else none
index (c ∷ s) t =
    let later = one_later (index s t) in if has_prefix (c ∷ s) t then some 0 else later

-- s[:n]
unfoldable pub upto : ℕ → GoString → GoString
upto zero s = []
upto (suc n) [] = []
upto (suc n) (c ∷ s) = c ∷ upto n s

-- s[n:]
unfoldable pub from : ℕ → GoString → GoString
from zero s = s
from (suc n) [] = []
from (suc n) (c ∷ s) = from n s

pub upto-append : (s t : GoString) → upto (length s) (s ++ t) ≡ s
unfolding upto
upto-append [] t = refl
upto-append (c ∷ s) t = ap (λ (u : GoString). c ∷ u) (upto-append s t)

pub from-append : (s t : GoString) → from (length s) (s ++ t) ≡ t
unfolding from
from-append [] t = refl
from-append (c ∷ s) t = from-append s t

-- The text ends in its first occurrence of `t`, which stands after `s`.
abbrev pub First : GoString → GoString → Type 0
First s t = index (s ++ t) t ≡ some (length s)

starts_empty : (x : GoString) → has_prefix x [] ≡ true
unfolding has_prefix
starts_empty [] = refl
starts_empty (c ∷ x) = refl

-- What follows does not change whether a long enough text begins with another.
has_prefix-append :
    (s x t : GoString) → length t ≤ length s → has_prefix (s ++ x) t ≡ has_prefix s t
unfolding has_prefix
has_prefix-append [] x [] h = starts_empty x
has_prefix-append (c ∷ s) x [] h = refl
has_prefix-append [] x (d ∷ t) h = absurd (omega (arith, h))
has_prefix-append (c ∷ s) x (d ∷ t) h =
    ap (λ (b : Bool). (c == d) && b) (has_prefix-append s x t (omega (arith, h)))

-- A text that begins with `t` has it at 0.
index_here : (s t : GoString) → has_prefix s t ≡ true → index s t ≡ some 0
unfolding index
index_here [] t h = rw h refl
index_here (c ∷ s) t h = rw h refl

later-suc : (o : Option ℕ) (n : ℕ) → one_later o ≡ some (suc n) → o ≡ some n
unfolding one_later
later-suc none n h = absurd cc
later-suc (some m) n h = ground (arith, h)

First-tail :
    (c : ℕ) (s t : GoString) → First (c ∷ s) t → (has_prefix (c ∷ (s ++ t)) t ≡ false) × First s t
unfolding index
First-tail c s t h = elim (Bool-cases (has_prefix (c ∷ (s ++ t)) t)) [
  | inl e ↦ absurd (ground (arith, rw e at h))
  | inr e ↦ (e, later-suc (index (s ++ t) t) (length s) (rw e at h))
]

starts : (t x : GoString) → has_prefix (t ++ x) t ≡ true
unfolding has_prefix
starts [] x = starts_empty x
starts (c ∷ t) x = ground (arith, starts t x)

-- Wherever the text goes on after its first occurrence of `t`, that is found.
pub index-First : (s t x : GoString) → First s t → index (s ++ (t ++ x)) t ≡ some (length s)
unfolding index
index-First [] t x h = index_here (t ++ x) t (starts t x)
index-First (c ∷ s) t x h =
    let (other, rest) = First-tail c s t h in
    let same : has_prefix (c ∷ (s ++ (t ++ x))) t ≡ false =
      ap (λ (r : GoString). has_prefix (c ∷ r) t) (sym (append_assoc s t x))
      ∙ has_prefix-append (c ∷ (s ++ t)) x t (omega (arith, length-append s t))
      ∙ other in
    rw (same, index-First s t x rest) (unfold one_later in refl)
