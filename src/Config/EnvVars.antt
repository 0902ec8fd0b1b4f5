-- ===== src/Config/EnvVars.antt =====
-- internal/config/loader.go: ResolveEnvVars, with the matches of `\$\{([A-Z0-9_]+)\}`.
use libra_flux.Base.{
  ℕ, zero, suc, ◌+◌, ◌==◌, Bool, true, false, ◌&&◌, ◌||◌, Option, none, some, List, [], ◌∷◌, ◌++◌,
  Result, ok, err, leb, if◌then◌else◌, any, length,
}
use libra_flux.Base.Text.{GoString, ◌=s◌}

unfoldable pub is_variable_char : ℕ → Bool
is_variable_char c = leb b'A' c && leb c b'Z' || leb b'0' c && leb c b'9' || c == b'_'

-- The rest of a name up to the closing brace, of which `name` has been read.
unfoldable pub closing : GoString → GoString → Option GoString
unfolding is_variable_char
closing name [] = none
closing name (c ∷ s) =
    let more = closing (name ++ c ∷ []) s in
    if is_variable_char c
    then more
    else if c == b'}'
    then elim name [ [] ↦ none | d ∷ n ↦ some (d ∷ n) ]
    else none

-- The name of the variable whose reference the text begins with.
unfoldable pub reference : GoString → Option GoString
unfolding closing
reference [] = none
reference (c ∷ []) = none
reference (c ∷ d ∷ s) = let name = closing [] s in if c == b'$' && d == b'{' then name else none

pub data Piece : Type 0 where
  byte : ℕ → Piece
  variable : GoString → Piece

-- A reference has two bytes before its name and one after it. `next` gives the pieces of what follows,
-- after as many bytes as it is told.
unfoldable pub piece : ℕ → Option GoString → (ℕ → List Piece) → List Piece
piece c none next = byte c ∷ next 0
piece c (some name) next = variable name ∷ next (length name + 2)

-- The text as its references and the bytes between them, after the bytes that belong to a reference.
unfoldable pub pieces : ℕ → GoString → List Piece
unfolding reference piece
pieces skip [] = []
pieces (suc skip) (c ∷ s) = pieces skip s
pieces zero (c ∷ s) = piece c (reference (c ∷ s)) (λ skip. pieces skip s)

unfoldable pub is_set : (GoString → Option GoString) → GoString → Bool
is_set env name = elim (env name) [ none ↦ false | some v ↦ true ]

-- The first pass: the variables that are not set, each once, after those that have been found.
unfoldable pub missing : (GoString → Option GoString) → List GoString → List Piece → List GoString
unfolding is_set any
missing env found [] = found
missing env found (byte c ∷ ps) = missing env found ps
missing env found (variable v ∷ ps) =
    let known = missing env found ps in
    let new = missing env (found ++ v ∷ []) ps in
    if is_set env v || any found (λ w. w =s v) then known else new

-- The second pass.
unfoldable pub replaced : (GoString → Option GoString) → List Piece → GoString
replaced env [] = []
replaced env (byte c ∷ ps) = c ∷ replaced env ps
replaced env (variable v ∷ ps) = elim (env v) [ none ↦ [] | some t ↦ t ] ++ replaced env ps

abbrev pub unless_missing : List GoString → GoString → Result (List GoString) GoString
unless_missing [] text = ok text
unless_missing (v ∷ vs) text = err (v ∷ vs)

-- ResolveEnvVars
unfoldable pub resolve_env_vars :
    (GoString → Option GoString) → GoString → Result (List GoString) GoString
unfolding pieces missing replaced
resolve_env_vars env s = unless_missing (missing env [] (pieces 0 s)) (replaced env (pieces 0 s))
