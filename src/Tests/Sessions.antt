-- ===== src/Tests/Sessions.antt =====
-- internal/shell at a session that commits, over files that are a list of paths with what they hold.
use libra_flux.Base.{
  ◌≡◌, refl, all, any, true, false, Option, none, some, List, [], ◌∷◌, ◌++◌, arith, pos, ok,
}
use libra_flux.Base.Text.{
  GoString, codes, ◌=s◌, =s_iff, trim_space, trim_left, is_blank, lower, to_lower, contains,
  has_prefix,
}
use libra_flux.Base.Assoc.{
  Assoc, string_eq, lookup, has, insert, erase, lookup-insert, lookup-erase,
}
use libra_flux.Config.Types.{Service}
use libra_flux.Base.Split.{before, insert_sorted, sort_strings}
use libra_flux.Config.Names.{is_valid_name, contains_injection_chars, is_name_char, matches_name}
use libra_flux.Config.Validator.{
  validate, validate_services, validate_global, validate_static, validate_mode, validate_node,
  validate_network, validate_vrrp, validate_console, one_of, validate_gelf, validate_influx,
  services_loop, validate_backend, validate_backends, validate_body, validate_daemon,
  validate_health, validate_ports, validate_prometheus, validate_ranges, validate_service,
  validate_system,
}
use libra_flux.Config.Writer.{validate_single_service}
use libra_flux.Shell.ConfigMode.{
  Store, ConfigMode, abort, keys, find_service, enter_service, stage_service,
}
use libra_flux.Shell.Commit.{
  commit, commit_loaded, commit_valid, finish, kept, merged, remove_loop, values, write_in,
  write_loop, write_next, write_service_config, write_staged, write_valid, file_of,
}
use libra_flux.Shell.Written.{Files, Separate}
use libra_flux.Shell.Publishing.{Named}
use libra_flux.Shell.Reverting.{recommit-base}
use libra_flux.Shell.Session.{Locking, Shell, root}
use libra_flux.Shell.Consistency.{IsConsistent}
use libra_flux.Shell.Lines.{run}
use libra_flux.Shell.Runs.{run-IsConsistent}
use libra_flux.Tests.Fixtures.{is_text, one_service, service_with, web_backend}
use mathlib.Core.List.{append_cancel_left, append_cancel_right, tail-eq_of_cons-eq}

abbrev Disk : Type 0
Disk = Assoc GoString (List Service)

-- The main file has the settings of a configuration, and the one service of the fixtures.
abbrev disk : Store (Unit {0}) Disk
disk = record {
  load = λ path w. ok one_service;
  mkdir = λ dir w. (none, w);
  write_services = λ path ss w. (none, insert path ss w);
  remove = λ path w. (none, erase path w);
  join_path = λ dir name. dir ++ b'/' ∷ name;
}

abbrev read : GoString → Disk → Option (List Service)
read p w = lookup p w

disk-Files : Files disk read
disk-Files = record {
  read-mkdir = λ p d w. refl;
  read-write = λ p q ss w e. lookup-insert q p ss w;
  read-remove = λ p q w e. lookup-erase q p w;
  read-refused = λ p q w e. absurd cc;
}

disk-Separate : (dir : GoString) → Separate disk dir
disk-Separate dir a b va vb e =
    append_cancel_right a b (codes ".yaml") (tail-eq_of_cons-eq (append_cancel_left dir _ _ e))

-- A session that changes the service and deletes another.
abbrev editing : ConfigMode
editing = record {
  config_path = codes "/etc/lb.yaml";
  config_dir = codes "/etc/lb.d";
  base = one_service;
  staged = (codes "web", service_with []) ∷ [];
  deleted = (codes "db", true) ∷ [];
}

editing-Named : Named editing.staged
unfolding lookup
editing-Named n s e = ground (arith, e, =s_iff (codes "web") n)

editing-commits : (commit is_text disk editing []).error ≡ none
unfolding commit commit_loaded commit_valid finish kept merged remove_loop values write_in
    write_loop write_next write_service_config write_staged write_valid validate_single_service keys
    abort validate validate_global validate_static validate_mode ◌=s◌ to_lower trim_space trim_left
    is_blank lower validate_node is_valid_name validate_network validate_vrrp validate_console
    one_of validate_gelf validate_influx has insert lookup any all contains contains_injection_chars
    has_prefix is_name_char matches_name services_loop validate_backend validate_backends
    validate_body validate_daemon validate_health validate_ports validate_prometheus validate_ranges
    validate_service validate_services validate_system before insert_sorted sort_strings
editing-commits = refl

abbrev web : Service
web = service_with (web_backend ∷ [])

-- The name that the operator gives is not blank, and the base has its service.
web_given : (trim_space (codes "web") =s []) ≡ false
unfolding trim_space trim_left is_blank ◌=s◌
web_given = refl

web_found : find_service (trim_space (codes "web")) editing.base.services ≡ some web
unfolding trim_space trim_left is_blank ◌=s◌ find_service
web_found = refl

web_plain : trim_space web.name ≡ web.name
unfolding trim_space trim_left is_blank
web_plain = refl

recommit-base_example :
    (entered : ConfigMode) × (left : ConfigMode) × (enter_service
        (codes "web")
        (commit is_text disk editing []).mode
      ≡ (ok web, entered))
    × (stage_service web entered ≡ ok left)
    × ((commit is_text disk left (commit is_text disk editing []).world).error ≡ none
        → read
            (file_of disk editing.config_dir web.name)
            (commit is_text disk left (commit is_text disk editing []).world).world
          ≡ some (web ∷ []))
recommit-base_example =
    recommit-base is_text disk read editing [] (codes "web") web disk-Files
      (disk-Separate editing.config_dir) editing-Named editing-commits web_given web_found web_plain

-- A lock that every session gets, and of which no activity is known.
abbrev open_lock : Locking (Unit {0}) (Unit {0}) Disk
open_lock = record {
  acquire = λ w. (ok tt, w);
  release = λ l w. w;
  update_activity = λ l w. (l, w);
  last_activity = λ l. none;
  status = λ w. ok none;
  break_lock = λ force w. (none, w);
  now = λ w. pos 0;
  duration_text = λ d. codes "10m0s";
}

abbrev fresh_shell : Shell (Unit {0})
fresh_shell = record {
  config_path = codes "/etc/lb.yaml";
  config_dir = codes "/etc/lb.d";
  idle_timeout = pos 600000000000;
  mode = root;
  config_mode = none;
  service_mode = none;
}

abbrev session : List GoString
session =
    codes "configure"
    ∷ codes "service web"
    ∷ codes "scheduler wrr"
    ∷ codes "exit"
    ∷ codes "commit"
    ∷ []

run-IsConsistent_example : IsConsistent (run is_text disk open_lock session fresh_shell []).0
run-IsConsistent_example =
    run-IsConsistent is_text disk open_lock session fresh_shell [] (refl, refl)
