-- ===== src/Shell/Help.antt =====
-- internal/shell/help.go and completion.go: the texts of `help`, and the words that complete a line.
use libra_flux.Base.{
  ℕ, zero, suc, ◌-◌, ◌==◌, Bool, true, false, List, [], ◌∷◌, ◌++◌, map, if◌then◌else◌, length,
}
use libra_flux.Base.Text.{GoString, codes, has_prefix}
use libra_flux.Base.Split.{fields, sort_strings}
use libra_flux.Shell.Session.{Mode, root, config, service}

unfoldable pub help_entries : Mode → List (GoString × GoString)
help_entries root =
    (codes "configure", codes "Enter configuration mode")
    ∷ (codes "show", codes "Display running state and configuration")
    ∷ (codes "doctor", codes "Run system diagnostics")
    ∷ (codes "reload", codes "Reload configuration from disk")
    ∷ (codes "lock", codes "Manage configuration lock")
    ∷ (codes "exit", codes "Exit shell")
    ∷ (codes "help", codes "Show this help")
    ∷ []
help_entries config =
    (codes "service <name>", codes "Add or modify a service")
    ∷ (codes "delete <name>", codes "Delete a service")
    ∷ (codes "commit", codes "Write changes to disk")
    ∷ (codes "abort", codes "Discard uncommitted changes")
    ∷ (codes "show", codes "Show pending changes")
    ∷ (codes "exit", codes "Exit configuration mode")
    ∷ (codes "help", codes "Show this help")
    ∷ []
help_entries service =
    (codes "protocol <tcp|udp>", codes "Set service protocol")
    ∷ (codes "ports <p1,p2,...>", codes "Set discrete ports")
    ∷ (codes "port-range <start-end>", codes "Add a port range")
    ∷ (codes "scheduler <rr|wrr|sh>", codes "Set scheduler")
    ∷ (codes "backend <ip> [weight]", codes "Add backend")
    ∷ (codes "no backend <ip>", codes "Remove backend")
    ∷ (codes "health tcp port <p> interval <ms> timeout <ms>", codes "Enable health check")
    ∷ (codes "no health", codes "Disable health check")
    ∷ (codes "show", codes "Show current service")
    ∷ (codes "exit", codes "Exit to configure mode")
    ∷ (codes "help", codes "Show this help")
    ∷ []

spaces : ℕ → GoString
spaces zero = []
spaces (suc n) = 32 ∷ spaces n

-- PrintHelp: each line is `  %-18s %s`.
unfoldable pub print_help : Mode → List GoString
unfolding help_entries spaces
print_help m =
    codes "Commands"
    ∷ map (λ e. codes "  " ++ (e.0 ++ (spaces (18 - length e.0) ++ (codes " " ++ e.1))))
        (help_entries m)

unfoldable pub words : Mode → List GoString
words root =
    codes "configure"
    ∷ codes "show"
    ∷ codes "doctor"
    ∷ codes "reload"
    ∷ codes "lock"
    ∷ codes "exit"
    ∷ codes "help"
    ∷ codes "?"
    ∷ []
words config =
    codes "service"
    ∷ codes "delete"
    ∷ codes "commit"
    ∷ codes "abort"
    ∷ codes "show"
    ∷ codes "exit"
    ∷ codes "help"
    ∷ codes "?"
    ∷ []
words service =
    codes "protocol"
    ∷ codes "ports"
    ∷ codes "port-range"
    ∷ codes "scheduler"
    ∷ codes "backend"
    ∷ codes "no"
    ∷ codes "health"
    ∷ codes "show"
    ∷ codes "exit"
    ∷ codes "help"
    ∷ codes "?"
    ∷ []

unfoldable pub last_word : List GoString → GoString
last_word [] = []
last_word (w ∷ ws) = let rest = last_word ws in elim ws [ [] ↦ w | _ ∷ _ ↦ rest ]

unfoldable pub with_prefix : GoString → List GoString → List GoString
with_prefix p [] = []
with_prefix p (w ∷ ws) = let rest = with_prefix p ws in if has_prefix w p then w ∷ rest else rest

-- completeForMode
unfoldable pub complete_for_mode : Mode → List GoString → Bool → List GoString
unfolding words last_word with_prefix sort_strings
complete_for_mode m tokens trailing =
    sort_strings (with_prefix (if trailing then [] else last_word tokens) (words m))

unfoldable pub trim_spaces_left : GoString → GoString
trim_spaces_left [] = []
trim_spaces_left (c ∷ s) = let rest = trim_spaces_left s in if c == 32 then rest else c ∷ s

unfoldable pub ends_in_space : GoString → Bool
ends_in_space [] = false
ends_in_space (c ∷ s) = let rest = ends_in_space s in elim s [ [] ↦ c == 32 | _ ∷ _ ↦ rest ]

-- Complete
unfoldable pub complete : Mode → GoString → List GoString
unfolding complete_for_mode trim_spaces_left ends_in_space fields
complete m line = elim (trim_spaces_left line) [
  | [] ↦ complete_for_mode m [] true
  | c ∷ s ↦ complete_for_mode m (fields (c ∷ s)) (ends_in_space (c ∷ s))
]
