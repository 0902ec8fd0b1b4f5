-- ===== src/Config/References.antt =====
-- internal/config/loader.go: the matches of `\$\{([A-Z0-9_]+)\}` in a text, against the places where the
-- text has one.
use libra_flux.Base.{
  ℕ, zero, suc, ◌+◌, ◌≡◌, ◌≢◌, ◌↔◌, ◌⊎◌, ◌≤◌, refl, ap, sym, ◌∙◌, inl, inr, Bool, ◌||◌, true, false,
  Option, none, some, List, [], ◌∷◌, ◌++◌, arith, All, length, ◌==◌, Bool-cases, Option-cases,
}
use mathlib.Core.List.{append_assoc, append-nil, tail-eq_of_cons-eq}
use libra_flux.Base.Text.{GoString, ◌=s◌, =s_iff, =s_refl}
use libra_flux.Config.EnvVars.{
  is_variable_char, closing, reference, Piece, byte, variable, piece, pieces,
}

-- A capital, a digit or an underscore.
abbrev pub IsVariableChar : ℕ → Type 0
IsVariableChar c = ((b'A' ≤ c) × (c ≤ b'Z')) ⊎ (((b'0' ≤ c) × (c ≤ b'9')) ⊎ (c ≡ b'_'))

abbrev pub IsVariable : GoString → Type 0
IsVariable n = (n ≢ []) × All IsVariableChar n

-- `${n}`, and then the rest
abbrev pub braced : GoString → GoString → GoString
braced n rest = b'$' ∷ b'{' ∷ (n ++ b'}' ∷ rest)

-- Somewhere in the text stands `${n}`.
abbrev pub RefersTo : GoString → GoString → Type 0
RefersTo n s = IsVariable n × ((before rest : GoString) × (s ≡ before ++ braced n rest))

-- The text refers to the variable, by its pieces.
abbrev pub refers : GoString → List Piece → Bool
refers n [] = false
refers n (byte c ∷ ps) = refers n ps
refers n (variable v ∷ ps) = v =s n || refers n ps

IsVariableChar-iff : (c : ℕ) → (is_variable_char c ≡ true) ↔ IsVariableChar c
unfolding is_variable_char
IsVariableChar-iff c = ground arith

-- The characters of a name that has been read, and the closing brace.
named :
    {n : GoString}
    → n ≢ []
    → elim n as (λ x. Option GoString) [ [] ↦ none | d ∷ r ↦ some (d ∷ r) ] ≡ some n
named {n = []} full = absurd (full refl)
named {n = d ∷ r} full = refl

named-full :
    {n r : GoString}
    → elim n as (λ x. Option GoString) [ [] ↦ none | d ∷ r ↦ some (d ∷ r) ] ≡ some r
    → (r ≡ n) × (r ≢ [])
named-full {n = []} h = absurd cc
named-full {n = d ∷ n} {r} h = (cc, cc)

closing_complete :
    (name m rest : GoString)
    → All IsVariableChar m
    → name ++ m ≢ []
    → closing name (m ++ b'}' ∷ rest) ≡ some (name ++ m)
unfolding closing is_variable_char
closing_complete name [] rest h full =
    let same = append-nil name in named (λ e. full (same ∙ e)) ∙ ap some (sym same)
closing_complete name (c ∷ m) rest h full =
    let assoc = append_assoc name (c ∷ []) m in
    let inside : is_variable_char c ≡ true = (IsVariableChar-iff c).1 h.0 in
    let more = closing_complete (name ++ c ∷ []) m rest h.1 (λ e. full (sym assoc ∙ e)) in
    ground (arith, inside, more, assoc)

closing_sound :
    (name s n : GoString)
    → closing name s ≡ some n
    → (m rest : GoString) × (n ≡ name ++ m)
      × (s ≡ m ++ b'}' ∷ rest)
      × All IsVariableChar m
      × (n ≢ [])
unfolding closing
closing_sound name [] n h = absurd cc
closing_sound name (c ∷ s) n h = elim (Bool-cases (is_variable_char c)) [
  | inl inside ↦
      let (m, rest, en, es, hm, full) =
        closing_sound (name ++ c ∷ []) s n (ground (arith, h, inside)) in
      (
        c ∷ m,
        rest,
        en ∙ append_assoc name (c ∷ []) m,
        ap (λ (t : GoString). c ∷ t) es,
        ((IsVariableChar-iff c).0 inside, hm),
        full,
      )
  | inr outside ↦ elim (Bool-cases (c == b'}')) [
    | inl brace ↦
        let (same, full) = named-full {n = name} {r = n} (ground (arith, h, outside, brace)) in
        ([], s, same ∙ sym (append-nil name), ground (arith, brace), tt, full)
    | inr other ↦ absurd (ground (arith, h, outside, other))
  ]
]

reference_complete : (n rest : GoString) → IsVariable n → reference (braced n rest) ≡ some n
unfolding reference
reference_complete n rest h = closing_complete [] n rest h.1 h.0

opened :
    {c d : ℕ} {m n s : GoString} (rest : GoString)
    → c ≡ b'$'
    → d ≡ b'{'
    → s ≡ m ++ b'}' ∷ rest
    → n ≡ m
    → c ∷ d ∷ s ≡ braced n rest
opened rest hc hd hs hn = rw (hc, hd, hs, hn) refl

reference_sound :
    (s n : GoString)
    → reference s ≡ some n
    → IsVariable n × ((rest : GoString) × (s ≡ braced n rest))
unfolding reference
reference_sound [] n h = absurd cc
reference_sound (c ∷ []) n h = absurd cc
reference_sound (c ∷ d ∷ s) n h =
    let opens : (c ≡ b'$') × (d ≡ b'{') × (closing [] s ≡ some n) = ground (arith, h) in
    let (m, rest, en, es, hm, full) = closing_sound [] s n opens.2 in
    ((full, rw en hm), (rest, opened rest opens.0 opens.1 es en))

-- What the pieces refer to stands in the text, whatever has been skipped.
refers_sound :
    (n : GoString) (skip : ℕ) (s : GoString) → refers n (pieces skip s) ≡ true → RefersTo n s
unfolding pieces piece
refers_sound n zero [] h = absurd cc
refers_sound n (suc skip) [] h = absurd cc
refers_sound n (suc skip) (c ∷ s) h =
    let (valid, (before, rest, e)) = refers_sound n skip s h in
    (valid, (c ∷ before, rest, ap (λ (t : GoString). c ∷ t) e))
refers_sound n zero (c ∷ s) h = elim (Option-cases (reference (c ∷ s))) [
  | inl e ↦
      let (valid, (before, rest, q)) = refers_sound n 0 s (rw e at h) in
      (valid, (c ∷ before, rest, ap (λ (t : GoString). c ∷ t) q))
  | inr (m, e) ↦ elim (Bool-cases (m =s n)) [
    | inl same ↦
        let (valid, (rest, q)) = reference_sound (c ∷ s) m e in
        let one : m ≡ n = (=s_iff m n).0 same in (rw (← one) valid, ([], rest, rw (← one) q))
    | inr apart ↦
        let (valid, (before, rest, q)) = refers_sound n (length m + 2) s (rw (e, apart) at h) in
        (valid, (c ∷ before, rest, ap (λ (t : GoString). c ∷ t) q))
  ]
]

first_same : {c d : ℕ} {s t : GoString} → c ∷ s ≡ d ∷ t → c ≡ d
first_same e = cc

-- A character that is in no name and no brace stands after the name and the brace.
name_ends :
    (d b : ℕ) (m before tail rest : GoString)
    → (IsVariableChar d → ⊥)
    → d ≢ b
    → All IsVariableChar m
    → before ++ d ∷ tail ≡ m ++ b ∷ rest
    → length m + 1 ≤ length before
name_ends d b [] [] tail rest hd hb h e = absurd (hb (first_same e))
name_ends d b [] (x ∷ before) tail rest hd hb h e = omega arith
name_ends d b (c ∷ m) [] tail rest hd hb h e = absurd (hd (rw (first_same e) h.0))
name_ends d b (c ∷ m) (x ∷ before) tail rest hd hb h e =
    let more = name_ends d b m before tail rest hd hb h.1 (tail-eq_of_cons-eq e) in
    omega (arith, more)

reference_ends :
    (m before tail rest : GoString) {c : ℕ}
    → All IsVariableChar m
    → c ∷ (before ++ b'$' ∷ tail) ≡ braced m rest
    → length m + 2 ≤ length before
reference_ends m [] tail rest h e = absurd (first_brace (first_same (tail-eq_of_cons-eq e)))
  where
    first_brace : ◌≢◌ {A = ℕ} b'$' b'{'
    first_brace q = omega (arith, q)
reference_ends m (x ∷ before) tail rest h e =
    let more =
      name_ends b'$' b'}' m before tail rest (λ q. omega (arith, q)) (λ q. omega (arith, q)) h
        (tail-eq_of_cons-eq (tail-eq_of_cons-eq e)) in
    omega (arith, more)

refers_complete :
    (n : GoString) (skip : ℕ) (before rest : GoString)
    → IsVariable n
    → skip ≤ length before
    → refers n (pieces skip (before ++ braced n rest)) ≡ true
unfolding pieces piece
refers_complete n zero [] rest valid fits =
    rw (reference_complete n rest valid, piece) (ground (arith, =s_refl n))
refers_complete n (suc skip) [] rest valid fits = absurd (omega (arith, fits))
refers_complete n (suc skip) (c ∷ before) rest valid fits =
    refers_complete n skip before rest valid (omega (arith, fits))
refers_complete n zero (c ∷ before) rest valid fits =
    elim (Option-cases (reference (c ∷ (before ++ braced n rest)))) [
      | inl e ↦ rw (e, piece) (refers_complete n 0 before rest valid (omega arith))
      | inr (m, e) ↦
          let (within, (more, q)) = reference_sound (c ∷ (before ++ braced n rest)) m e in
          let ends = reference_ends m before (b'{' ∷ (n ++ b'}' ∷ rest)) more within.1 q in
          rw (e, piece) (ground (arith, refers_complete n (length m + 2) before rest valid ends))
    ]

-- The pieces refer to a variable exactly when its reference stands in the text.
pub refers_iff : (n s : GoString) → (refers n (pieces 0 s) ≡ true) ↔ RefersTo n s
refers_iff n s =
    (refers_sound n 0 s, λ h. rw h.1.2 (refers_complete n 0 h.1.0 h.1.1 h.0 (omega arith)))
