-- ===== src/Base/Split.antt =====
-- What the program uses of `strings` to cut and join texts: Split at one byte, Fields, Join, and
-- sort.Strings.
use Prim.Native.Nat.{ℕ}
use mathlib.Core.Path.{◌≡◌, refl, ap, ◌∙◌}
use mathlib.Core.Bool.{Bool, true, false, ◌&&◌, ◌||◌}
use mathlib.Core.List.{List, [], ◌∷◌, ◌++◌}
use native.Mathlib.Omega.{arith}
use libra_flux.Base.Tests.{ltb, ◌==◌, if◌then◌else◌, if_elim}
use libra_flux.Base.Lists.{All, any}
use libra_flux.Base.Text.{GoString, is_blank}

-- A byte in front of the first of some texts.
unfoldable pub cons_head : ℕ → List GoString → List GoString
cons_head c [] = (c ∷ []) ∷ []
cons_head c (w ∷ ws) = (c ∷ w) ∷ ws

-- strings.Split(s, sep), for a separator of one byte
unfoldable pub split : ℕ → GoString → List GoString
split sep [] = [] ∷ []
split sep (c ∷ s) = let rest = split sep s in if c == sep then [] ∷ rest else cons_head c rest

-- The words of a text, given the bytes of the word that is being read.
unfoldable pub fields_from : GoString → GoString → List GoString
fields_from word [] = elim word [ [] ↦ [] | c ∷ w ↦ (c ∷ w) ∷ [] ]
fields_from word (c ∷ s) =
    let next = fields_from [] s in
    let longer = fields_from (word ++ c ∷ []) s in
    if is_blank c then elim word [ [] ↦ next | d ∷ w ↦ (d ∷ w) ∷ next ] else longer

-- strings.Fields
unfoldable pub fields : GoString → List GoString
unfolding fields_from
fields s = fields_from [] s

-- strings.Join
unfoldable pub join : GoString → List GoString → GoString
join sep [] = []
join sep (w ∷ ws) = elim ws [ [] ↦ w | _ ∷ _ ↦ w ++ (sep ++ join sep ws) ]

-- The order of Go's strings, by their bytes.
unfoldable pub before : GoString → GoString → Bool
before [] [] = false
before [] (d ∷ t) = true
before (c ∷ s) [] = false
before (c ∷ s) (d ∷ t) = ltb c d || c == d && before s t

unfoldable pub insert_sorted : GoString → List GoString → List GoString
unfolding before
insert_sorted w [] = w ∷ []
insert_sorted w (v ∷ vs) =
    let rest = insert_sorted w vs in if before v w then v ∷ rest else w ∷ v ∷ vs

-- sort.Strings
unfoldable pub sort_strings : List GoString → List GoString
unfolding insert_sorted
sort_strings [] = []
sort_strings (w ∷ ws) = insert_sorted w (sort_strings ws)

-- The byte is not in the text.
abbrev pub Without : ℕ → GoString → Type 0
Without sep = All (λ c. (c == sep) ≡ false)

-- A text without the separator is one piece.
pub split-Without : (sep : ℕ) (s : GoString) → Without sep s → split sep s ≡ s ∷ []
unfolding split cons_head
split-Without sep [] h = refl
split-Without sep (c ∷ s) h = rw (h.0, split-Without sep s h.1) refl

-- Up to the first separator, it is the first piece.
pub split-append :
    (sep : ℕ) (s t : GoString) → Without sep s → split sep (s ++ sep ∷ t) ≡ s ∷ split sep t
unfolding split cons_head
split-append sep [] t h = ground arith
split-append sep (c ∷ s) t h = rw (h.0, split-append sep s t h.1) refl

any-insert_sorted :
    (p : GoString → Bool) (w : GoString) (vs : List GoString)
    → any (insert_sorted w vs) p ≡ (p w || any vs p)
unfolding insert_sorted any
any-insert_sorted p w [] = refl
any-insert_sorted p w (v ∷ vs) = ground (arith, any-insert_sorted p w vs)

-- Sorting keeps which texts there are.
pub any-sort_strings :
    (p : GoString → Bool) (ws : List GoString) → any (sort_strings ws) p ≡ any ws p
unfolding sort_strings any
any-sort_strings p [] = refl
any-sort_strings p (w ∷ ws) =
    any-insert_sorted p w (sort_strings ws) ∙ ap (λ (b : Bool). p w || b) (any-sort_strings p ws)

All-insert_sorted :
    (P : GoString → Type 0) (w : GoString) (vs : List GoString)
    → P w
    → All P vs
    → All P (insert_sorted w vs)
unfolding insert_sorted
All-insert_sorted P w [] pw h = (pw, tt)
All-insert_sorted P w (v ∷ vs) pw h =
    if_elim (λ (us : List GoString). All P us) (before v w)
      (λ e. (h.0, All-insert_sorted P w vs pw h.1)) (λ e. (pw, h))

pub All-sort_strings :
    (P : GoString → Type 0) (ws : List GoString) → All P ws → All P (sort_strings ws)
unfolding sort_strings
All-sort_strings P [] h = tt
All-sort_strings P (w ∷ ws) h =
    All-insert_sorted P w (sort_strings ws) h.0 (All-sort_strings P ws h.1)
