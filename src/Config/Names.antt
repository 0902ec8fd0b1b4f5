-- ===== src/Config/Names.antt =====
-- internal/config/validator.go: `isValidName` and the check against injection characters.
use libra_flux.Base.{
  ℕ, ◌≡◌, ◌≢◌, ◌↔◌, ◌⊎◌, ◌≤◌, refl, All, Bool, true, false, not, ◌&&◌, ◌||◌, List, [], ◌∷◌, arith,
  leb, ◌==◌, if◌then◌else◌, all, any, Bool-cases, inl, inr,
}
use libra_flux.Base.Text.{GoString, ◌=s◌, codes, contains}

-- the class of `nameRegex`
unfoldable pub is_name_char : ℕ → Bool
is_name_char c =
    leb b'a' c && leb c b'z'
    || leb b'A' c && leb c b'Z'
    || leb b'0' c && leb c b'9'
    || c == b'_'
    || c == b'-'

-- `^[a-zA-Z0-9_-]+$`
unfoldable pub matches_name : GoString → Bool
unfolding is_name_char all
matches_name [] = false
matches_name (c ∷ s) = all (c ∷ s) is_name_char

abbrev pub injection_chars : List GoString
injection_chars =
    codes ";"
    ∷ codes "'"
    ∷ codes "\""
    ∷ codes "`"
    ∷ codes "&"
    ∷ codes "|"
    ∷ codes ">"
    ∷ codes "<"
    ∷ []

unfoldable pub contains_injection_chars : GoString → Bool
unfolding any contains
contains_injection_chars s = any injection_chars (λ char. contains s char)

unfoldable pub is_valid_name : GoString → Bool
unfolding matches_name contains_injection_chars
is_valid_name s =
    if s =s []
    then false
    else if not (matches_name s)
    then false
    else not (contains_injection_chars s)

-- One character that no name has is in no name.
contains-one :
    (d : ℕ) (s : GoString)
    → is_name_char d ≡ false
    → all s is_name_char ≡ true
    → contains s (d ∷ []) ≡ false
unfolding contains all
contains-one d [] h a = refl
contains-one d (c ∷ s) h a = ground (arith, contains-one d s)

no_injection : (s : GoString) → all s is_name_char ≡ true → contains_injection_chars s ≡ false
unfolding contains_injection_chars is_name_char
no_injection s a =
    rw
      (
        contains-one b';' s refl a,
        contains-one 39 s refl a,
        contains-one 34 s refl a,
        contains-one b'`' s refl a,
        contains-one b'&' s refl a,
        contains-one b'|' s refl a,
        contains-one b'>' s refl a,
        contains-one b'<' s refl a,
      )
      refl

-- The check against injection characters never refuses what the pattern accepts: a name is valid
-- exactly when it matches the pattern.
pub is_valid_name-matches_name : (s : GoString) → is_valid_name s ≡ matches_name s
unfolding is_valid_name ◌=s◌
is_valid_name-matches_name [] = refl
is_valid_name-matches_name (c ∷ s) = elim (Bool-cases (all (c ∷ s) is_name_char)) [
  | inl a ↦ ground (arith, no_injection (c ∷ s) a, a)
  | inr a ↦ ground (arith, a)
]

-- A letter, a digit, an underscore or a dash.
abbrev pub IsNameChar : ℕ → Type 0
IsNameChar c =
    ((b'a' ≤ c) × (c ≤ b'z'))
    ⊎ (((b'A' ≤ c) × (c ≤ b'Z')) ⊎ (((b'0' ≤ c) × (c ≤ b'9')) ⊎ ((c ≡ b'_') ⊎ (c ≡ b'-'))))

abbrev pub IsName : GoString → Type 0
IsName s = (s ≢ []) × All IsNameChar s

is_name_char_iff : (c : ℕ) → (is_name_char c ≡ true) ↔ IsNameChar c
unfolding is_name_char
is_name_char_iff c = ground arith

all_name_chars_iff : (s : GoString) → (all s is_name_char ≡ true) ↔ All IsNameChar s
unfolding all
all_name_chars_iff [] = ground arith
all_name_chars_iff (c ∷ s) = ground (arith, is_name_char_iff c, all_name_chars_iff s)

pub matches_name_iff : (s : GoString) → (matches_name s ≡ true) ↔ IsName s
unfolding matches_name
matches_name_iff [] = ground arith
matches_name_iff (c ∷ s) =
    let inner = all_name_chars_iff (c ∷ s) in (λ h. (cc, inner.0 h), λ h. inner.1 h.1)
