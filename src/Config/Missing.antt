-- ===== src/Config/Missing.antt =====
-- internal/config/loader.go: which variables ResolveEnvVars reports as missing.
use libra_flux.Base.{
  ◌≡◌, ◌↔◌, true, none, refl, ◌∙◌, inl, inr, Bool, false, not, ◌&&◌, ◌||◌, Option, List, [], ◌∷◌,
  ◌++◌, arith, Result, ok, err, any, Bool-cases,
}
use libra_flux.Base.Text.{GoString, ◌=s◌, =s_iff, =s_refl}
use libra_flux.Config.References.{RefersTo, refers, refers_iff}
use libra_flux.Config.EnvVars.{
  Piece, byte, variable, pieces, is_set, missing, replaced, unless_missing, resolve_env_vars,
}

abbrev pub among : GoString → List GoString → Bool
among n vs = any vs (λ v. v =s n)

-- No text twice.
abbrev pub Once : List GoString → Type 0
Once [] = Unit
Once (v ∷ vs) = (among v vs ≡ false) × Once vs

among-append :
    (n v : GoString) (vs : List GoString) → among n (vs ++ v ∷ []) ≡ (among n vs || v =s n)
unfolding any
among-append n v [] = ground arith
among-append n v (w ∷ vs) = ground (arith, among-append n v vs)

append-Once :
    (v : GoString) (vs : List GoString) → Once vs → among v vs ≡ false → Once (vs ++ v ∷ [])
unfolding any
append-Once v [] once new = (refl, tt)
append-Once v (w ∷ vs) once new = (
  among-append w v vs ∙ ground (arith, once.0, new, =s_iff v w, =s_iff w v),
  append-Once v vs once.1 (ground (arith, new)),
)

missing-among :
    (env : GoString → Option GoString) (n : GoString) (found : List GoString) (ps : List Piece)
    → among n (missing env found ps) ≡ (among n found || refers n ps && not (is_set env n))
unfolding missing
missing-among env n found [] = ground arith
missing-among env n found (byte c ∷ ps) = missing-among env n found ps
missing-among env n found (variable v ∷ ps) = elim (Bool-cases (v =s n)) [
  | inl same ↦
      let one : v ≡ n = (=s_iff v n).0 same in
      rw (one) (
        ground (
          arith,
          =s_refl n,
          missing-among env n found ps,
          missing-among env n (found ++ n ∷ []) ps,
          among-append n n found,
        ))
  | inr other ↦ ground (
    arith,
    other,
    missing-among env n found ps,
    missing-among env n (found ++ v ∷ []) ps,
    among-append n v found,
  )
]

missing-Once :
    (env : GoString → Option GoString) (found : List GoString) (ps : List Piece)
    → Once found
    → Once (missing env found ps)
unfolding missing
missing-Once env found [] once = once
missing-Once env found (byte c ∷ ps) once = missing-Once env found ps once
missing-Once env found (variable v ∷ ps) once = elim (Bool-cases (is_set env v || among v found)) [
  | inl known ↦ rw known (missing-Once env found ps once)
  | inr new ↦
      rw new
        (missing-Once env (found ++ v ∷ []) ps (append-Once v found once (ground (arith, new))))
]

abbrev pub reported : Result (List GoString) GoString → List GoString
reported (ok text) = []
reported (err vs) = vs

unless_missing-reported :
    (vs : List GoString) (text : GoString) → reported (unless_missing vs text) ≡ vs
unless_missing-reported [] text = refl
unless_missing-reported (v ∷ vs) text = refl

not_set_iff :
    (env : GoString → Option GoString) (n : GoString) → (is_set env n ≡ false) ↔ (env n ≡ none)
unfolding is_set
not_set_iff env n = ground arith

-- Whatever the text and the environment, each variable is reported missing at most once, and exactly when it
-- is not set and its reference stands somewhere in the text: a dollar sign and an opening brace, one
-- or more capitals, digits or underscores, which are its name, and a closing brace. None is reported
-- when the text is resolved.
pub resolve_env_vars-reported :
    (env : GoString → Option GoString) (s : GoString)
    → Once (reported (resolve_env_vars env s))
      × ((n : GoString)
          → (among n (reported (resolve_env_vars env s)) ≡ true) ↔ (RefersTo n s × (env n ≡ none)))
unfolding resolve_env_vars
resolve_env_vars-reported env s =
    let same = unless_missing-reported (missing env [] (pieces 0 s)) (replaced env (pieces 0 s)) in
    rw same (
      missing-Once env [] (pieces 0 s) tt,
      (λ n.
          let content : among n (missing env [] (pieces 0 s))
              ≡ (refers n (pieces 0 s) && not (is_set env n)) =
            unfold any in missing-among env n [] (pieces 0 s) in
          let unset = not_set_iff env n in
          let stands = refers_iff n s in
          (
            λ h. (stands.0 (ground (arith, content, h)), unset.0 (ground (arith, content, h))),
            λ h.
                let there = stands.1 h.0 in
                let missing_ = unset.1 h.1 in content ∙ rw (there, missing_) refl,
          )),
    )
