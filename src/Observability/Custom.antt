-- ===== src/Observability/Custom.antt =====
-- internal/observability/logger.go: the fields of the messages to GELF.
use libra_flux.Base.{
  ◌≡◌, false, refl, true, Option, none, some, [], ◌∷◌, arith, inl, inr, Bool-cases, ◌==◌,
  if◌then◌else◌,
}
use libra_flux.Base.Text.{GoString, codes, ◌=s◌, =s_iff, has_prefix}
use libra_flux.Base.Assoc.{
  Assoc, string_eq, lookup, insert, Distinct, lookup-insert, has-lookup-none,
}
use libra_flux.Observability.Logging.{
  LogLevel, put_all, put_custom, custom_name, Logger, gelf_message,
}

-- The name of a field with an underscore before it, unless it begins with one.
abbrev pub underscored : GoString → GoString
underscored [] = b'_' ∷ []
underscored (c ∷ k) = if c == b'_' then c ∷ k else b'_' ∷ c ∷ k

-- The value of the last field that is sent under a name.
abbrev pub sent : {V : Type 0} → GoString → Assoc GoString V → Option V
sent name [] = none
sent name ((k, v) ∷ fields) = elim (sent name fields) [
  | some w ↦ some w
  | none ↦ if underscored k =s name then some v else none
]

abbrev pub or_else : {V : Type 0} → Option V → Option V → Option V
or_else (some v) o = some v
or_else none o = o

custom_name-underscored : (k : GoString) → custom_name k ≡ underscored k
unfolding custom_name has_prefix
custom_name-underscored [] = refl
custom_name-underscored (c ∷ k) = ground arith

lookup-put_all :
    {V : Type 0} (k : GoString) (fm result : Assoc GoString V)
    → Distinct fm
    → lookup k (put_all fm result) ≡ or_else (lookup k fm) (lookup k result)
unfolding put_all lookup
lookup-put_all k [] result h = refl
lookup-put_all k ((j, v) ∷ fm) result h = ground (
  arith,
  lookup-put_all k fm (insert j v result) h.1,
  lookup-insert j k v result,
  has-lookup-none j fm h.0,
  =s_iff j k,
)

lookup-put_custom :
    {V : Type 0} (k : GoString) (fields extra : Assoc GoString V)
    → lookup k (put_custom fields extra) ≡ or_else (sent k fields) (lookup k extra)
unfolding put_custom
lookup-put_custom k [] extra = refl
lookup-put_custom k ((j, v) ∷ fields) extra = ground (
  arith,
  lookup-put_custom k fields (insert (custom_name j) v extra),
  lookup-insert (custom_name j) k v extra,
  custom_name-underscored j,
)

underscored-prefix : (k : GoString) → has_prefix (underscored k) (codes "_") ≡ true
unfolding has_prefix
underscored-prefix [] = refl
underscored-prefix (c ∷ k) = ground arith

-- A field with another name gives no value.
others :
    {V : Type 0} (j k : GoString) {v : V} (w : V) (o : Option V)
    → elim o [ some x ↦ some x | none ↦ if underscored j =s k then some w else none ] ≡ some v
    → (underscored j =s k) ≡ false
    → o ≡ some v
others j k w none h e = ground (arith, h, e)
others j k w (some x) h e = h

sent-prefix :
    {V : Type 0} (k : GoString) (fields : Assoc GoString V) (v : V)
    → sent k fields ≡ some v
    → has_prefix k (codes "_") ≡ true
sent-prefix k [] v h = absurd cc
sent-prefix k ((j, w) ∷ fields) v h = elim (Bool-cases (underscored j =s k)) [
  | inl e ↦ rw (← ((=s_iff (underscored j) k).0 e)) (underscored-prefix j)
  | inr e ↦ sent-prefix k fields v (others j k w (sent k fields) h e)
]

-- When the node's fields have no name twice, the value of a message to GELF under a name is that of the last
-- field of the call whose name, with an underscore before it unless it begins with one, is that
-- name, in the order of the range over the call's fields; when the call has no such field, it is the
-- node's value under the name, and when the node has none there is no such field. A field that is not
-- the node's has a name that begins with an underscore, as GELF asks.
pub lookup-gelf_message :
    {V : Type 0} (l : Logger V) (level : LogLevel) (message : GoString) (fields : Assoc GoString V)
    (k : GoString)
    → Distinct l.node_config
    → (lookup k (gelf_message l level message fields).extra
        ≡ or_else (sent k fields) (lookup k l.node_config))
      × ((v : V)
          → lookup k (gelf_message l level message fields).extra ≡ some v
          → lookup k l.node_config ≡ none
          → has_prefix k (codes "_") ≡ true)
unfolding gelf_message
lookup-gelf_message l level message fields k h =
    let node : lookup k (put_all l.node_config []) ≡ lookup k l.node_config =
      unfold lookup in ground (arith, lookup-put_all k l.node_config [] h) in
    let content : lookup k (put_custom fields (put_all l.node_config []))
        ≡ or_else (sent k fields) (lookup k l.node_config) =
      ground (arith, lookup-put_custom k fields (put_all l.node_config []), node) in
    (
      content,
      λ v in_message no_node. sent-prefix k fields v (ground (arith, content, in_message, no_node)),
    )
