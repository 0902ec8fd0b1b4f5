-- ===== src/Observability/Logging.antt =====
-- internal/observability/logger.go: what the logger writes. The values of fields have a type `V`, of which
-- `text` is what `%v` prints.
use libra_flux.Base.{
  ℕ, Bool, true, false, ◌&&◌, none, some, List, [], ◌∷◌, ◌++◌, ltb, if◌then◌else◌,
}
use libra_flux.Base.Text.{GoString, codes, ◌=s◌, to_lower, has_prefix}
use libra_flux.Base.Assoc.{Assoc, string_eq, lookup, insert}
use libra_flux.Base.Split.{sort_strings}

pub data LogLevel : Type 0 where
  debug_level info_level warn_level error_level : LogLevel

abbrev pub severity : LogLevel → ℕ
severity debug_level = 0
severity info_level = 1
severity warn_level = 2
severity error_level = 3

-- String
unfoldable pub level_string : LogLevel → GoString
level_string debug_level = codes "DEBUG"
level_string info_level = codes "INFO"
level_string warn_level = codes "WARN"
level_string error_level = codes "ERROR"

-- ParseLogLevel: the level, and whether the text was one.
unfoldable pub parse_log_level : GoString → LogLevel × Bool
parse_log_level given =
    let level = to_lower given in
    if level =s codes "debug"
    then (debug_level, true)
    else if level =s codes "info"
    then (info_level, true)
    else if level =s codes "warn"
    then (warn_level, true)
    else if level =s codes "warning"
    then (warn_level, true)
    else if level =s codes "error"
    then (error_level, true)
    else (info_level, false)

-- The levels of syslog that GELF has.
unfoldable pub gelf_level : LogLevel → ℕ
gelf_level debug_level = 7
gelf_level info_level = 6
gelf_level warn_level = 4
gelf_level error_level = 3

-- The name of a custom field.
unfoldable pub custom_name : GoString → GoString
unfolding has_prefix
custom_name k = if has_prefix k (codes "_") then k else b'_' ∷ k

module _ {V : Type 0} where
  -- `for k, v := range fm { result[k] = v }`
  unfoldable pub put_all : Assoc GoString V → Assoc GoString V → Assoc GoString V
  unfolding insert
  put_all [] result = result
  put_all ((k, v) ∷ fm) result = put_all fm (insert k v result)

  unfoldable pub merge_onto : List (Assoc GoString V) → Assoc GoString V → Assoc GoString V
  unfolding put_all
  merge_onto [] result = result
  merge_onto (fm ∷ fms) result = merge_onto fms (put_all fm result)

  -- mergeFields
  unfoldable pub merge_fields : List (Assoc GoString V) → Assoc GoString V
  unfolding merge_onto
  merge_fields fms = merge_onto fms []

  unfoldable pub field_names : Assoc GoString V → List GoString
  field_names [] = []
  field_names ((k, v) ∷ m) = k ∷ field_names m

  unfoldable pub printed_fields : (V → GoString) → Assoc GoString V → List GoString → GoString
  unfolding lookup
  printed_fields text fields [] = []
  printed_fields text fields (k ∷ ks) =
      let rest = printed_fields text fields ks in
      32 ∷ (k ++ (61 ∷ (elim (lookup k fields) [ none ↦ [] | some v ↦ text v ] ++ rest)))

  -- logConsole: `[LEVEL] message key=value key=value`, by the order of the keys
  unfoldable pub console_line : (V → GoString) → LogLevel → GoString → Assoc GoString V → GoString
  unfolding printed_fields field_names sort_strings level_string
  console_line text level message fields =
      codes "["
      ++ (level_string level
          ++ (codes "] "
              ++ (message
                  ++ (printed_fields text fields (sort_strings (field_names fields))
                      ++ (10 ∷ [])))))

  unfoldable pub put_custom : Assoc GoString V → Assoc GoString V → Assoc GoString V
  unfolding insert
  put_custom [] extra = extra
  put_custom ((k, v) ∷ fields) extra = put_custom fields (insert (custom_name k) v extra)

pub record GelfMessage (V : Type 0) : Type 0 where
  pub host : GoString
  pub short : GoString
  pub level : ℕ
  pub facility : GoString
  pub extra : Assoc GoString V

-- `has_gelf_writer` says that `gelfWriter` is not nil.
pub record Logger (V : Type 0) : Type 0 where
  pub level : LogLevel
  pub has_console : Bool
  pub has_gelf_writer : Bool
  pub gelf_enabled : Bool
  pub facility : GoString
  pub hostname : GoString
  pub node_config : Assoc GoString V

pub data Output (V : Type 0) : Type 0 where
  to_console : GoString → Output V
  to_gelf : GelfMessage V → Output V

module _ {V : Type 0} where
  -- NewLogger
  unfoldable pub new_logger : LogLevel → GoString → Logger V
  new_logger level host = record {
    level = level;
    has_console = true;
    has_gelf_writer = false;
    gelf_enabled = false;
    facility = codes "lbctl";
    hostname = host;
    node_config = [];
  }

  -- SetNodeConfig, with the node's name as a value
  unfoldable pub set_node_config : V → Assoc GoString V → Logger V → Logger V
  unfolding put_all
  set_node_config name more l = record l { node_config = put_all more ((codes "_node", name) ∷ []) }

  -- InitGELF, by whether the writer could be made
  unfoldable pub init_gelf : Bool → GoString → Logger V → Logger V
  init_gelf false facility l = l
  init_gelf true facility l = record l {
    has_gelf_writer = true;
    gelf_enabled = true;
    facility = facility;
  }

  -- DisableGELF
  unfoldable pub disable_gelf : Logger V → Logger V
  disable_gelf l = record l { has_gelf_writer = false; gelf_enabled = false }

  -- logGELF
  unfoldable pub gelf_message : Logger V → LogLevel → GoString → Assoc GoString V → GelfMessage V
  unfolding gelf_level put_custom put_all custom_name
  gelf_message l level message fields = record {
    host = l.hostname;
    short = message;
    level = gelf_level level;
    facility = l.facility;
    extra = put_custom fields (put_all l.node_config []);
  }

  -- log
  unfoldable pub log :
      (V → GoString) → Logger V → LogLevel → GoString → Assoc GoString V → List (Output V)
  unfolding gelf_message console_line
  log text l level message fields =
      let console =
        if l.has_console then to_console (console_line text level message fields) ∷ [] else [] in
      let gelf =
        if l.gelf_enabled && l.has_gelf_writer
        then to_gelf (gelf_message l level message fields) ∷ []
        else [] in
      if ltb (severity level) (severity l.level) then [] else console ++ gelf

  -- Debug, Info, Warn and Error of the logger
  unfoldable pub log_fields :
      (V → GoString) → Logger V → LogLevel → GoString → List (Assoc GoString V) → List (Output V)
  unfolding log merge_fields
  log_fields text l level message fms = log text l level message (merge_fields fms)

  -- Debug, Info, Warn and Error of a LoggerContext, whose fields come first
  unfoldable pub log_context :
      (V → GoString)
      → Logger V
      → Assoc GoString V
      → LogLevel
      → GoString
      → List (Assoc GoString V)
      → List (Output V)
  unfolding log merge_onto merge_fields
  log_context text l context level message fms =
      log text l level message (merge_onto fms (merge_fields (context ∷ [])))
