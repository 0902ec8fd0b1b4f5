-- ===== src/Tests/Observability.antt =====
-- internal/observability at a logger with a node.
use libra_flux.Base.{◌≡◌, refl, none, some, true, false, [], ◌∷◌}
use libra_flux.Base.Text.{GoString, codes, ◌=s◌, has_prefix}
use libra_flux.Base.Assoc.{Assoc, has, string_eq, lookup}
use libra_flux.Base.Split.{sort_strings, insert_sorted, before}
use libra_flux.Observability.Logging.{
  Logger, info_level, warn_level, debug_level, gelf_message, log, to_console, console_line,
  printed_fields, field_names, level_string,
}
use libra_flux.Observability.Custom.{lookup-gelf_message}

abbrev logger : Logger GoString
logger = record {
  level = info_level;
  has_console = true;
  has_gelf_writer = false;
  gelf_enabled = false;
  facility = codes "lbctl";
  hostname = codes "lb1";
  node_config = (codes "_node", codes "primary") ∷ [];
}

-- Two fields with one name, of which one is the node's too.
abbrev colliding : Assoc GoString GoString
colliding =
    (codes "node", codes "secondary")
    ∷ (codes "vip", codes "10.0.0.1")
    ∷ (codes "_vip", codes "10.0.0.2")
    ∷ []

lookup-gelf_message_example :
    (lookup (codes "_vip") (gelf_message logger warn_level (codes "lost") colliding).extra
      ≡ some (codes "10.0.0.2"))
    × ((v : GoString)
        → lookup (codes "_vip") (gelf_message logger warn_level (codes "lost") colliding).extra
          ≡ some v
        → lookup (codes "_vip") logger.node_config ≡ none
        → has_prefix (codes "_vip") (codes "_") ≡ true)
unfolding lookup has ◌=s◌
lookup-gelf_message_example =
    lookup-gelf_message logger warn_level (codes "lost") colliding (codes "_vip") (refl, tt)

-- The fields are printed by their keys.
prints_sorted :
    log
      (λ s. s)
      logger
      warn_level
      (codes "lost")
      ((codes "vip", codes "1") ∷ (codes "node", codes "a") ∷ [])
    ≡ to_console (codes "[WARN] lost node=a vip=1\n") ∷ []
unfolding log console_line printed_fields field_names level_string lookup sort_strings insert_sorted
    before ◌=s◌
prints_sorted = refl

-- A message below the level of the logger is not written.
keeps_quiet : log (λ s. s) logger debug_level (codes "probe") [] ≡ []
unfolding log
keeps_quiet = refl
