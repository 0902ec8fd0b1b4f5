-- ===== src/Shell/Commands.antt =====
-- internal/shell/commands.go, and the lines of shell.go: a line in each mode, and a run of lines.
use libra_flux.Base.{
  Bool, false, Option, none, some, List, [], ◌∷◌, ◌++◌, Result, ok, err, if◌then◌else◌, when_none,
}
use libra_flux.Base.Text.{GoString, codes, ◌=s◌, to_lower}
use libra_flux.Base.Decimal.{itoa_ℤ}
use libra_flux.Config.Types.{Service}
use libra_flux.Shell.ServiceMode.{ServiceError, handle}
use libra_flux.Shell.ConfigMode.{Store, ConfigMode, delete_service, show_pending, abort}
use libra_flux.Shell.Commit.{Outcome, commit}
use libra_flux.Shell.Lock.{LockMetadata}
use libra_flux.Shell.Session.{
  Locking, Mode, root, config, service, Editing, Shell, exit_shell, lock_error, service_error,
  commit_error, not_in_configure_mode, not_in_service_mode, service_usage, delete_usage,
  unknown_command, unknown_lock_command, unknown_configure_command, Turn, done, fails,
  enter_configure_mode, leave_configure_mode, enter_service_mode, leave_service_mode,
}
use libra_flux.Shell.Help.{print_help}

abbrev aborted : GoString
aborted = codes "Aborted pending changes."

-- The configure mode with other changes.
abbrev pub with_changes : {L : Type 0} → Editing L → ConfigMode → Shell L → Shell L
with_changes m after s = record s { config_mode = some (record m { changes = after }) }

module _ {L X E W : Type 0} (is_ip : GoString → Bool) (store : Store E W)
    (locks : Locking L X W) where
  abbrev discarded : Editing L → Shell L → Shell L
  discarded m s = with_changes m (abort m.changes) s

  abbrev committed : Editing L → Shell L → Outcome E W → Turn L X E W
  committed m s o = record {
    error = elim o.error [ none ↦ none | some e ↦ some (commit_error e) ];
    shell = with_changes m o.mode s;
    world = o.world;
    printed = o.printed;
  }

  unfoldable pub deleted : Editing L → Result ServiceError ConfigMode → Shell L → W → Turn L X E W
  deleted m (err e) s w = fails (service_error e) s w
  deleted m (ok after) s w = done (with_changes m after s) w []

  unfoldable pub config_exit : Editing L → Shell L → W → Turn L X E W
  unfolding leave_configure_mode abort
  config_exit m s w =
      let (left, u) = leave_configure_mode locks (discarded m s) w in done left u (aborted ∷ [])

  unfoldable pub config_service : Editing L → List GoString → Shell L → W → Turn L X E W
  unfolding enter_service_mode
  config_service m [] s w = fails service_usage s w
  config_service m (name ∷ _) s w = enter_service_mode m name s w

  unfoldable pub config_delete : Editing L → List GoString → Shell L → W → Turn L X E W
  unfolding deleted delete_service
  config_delete m [] s w = fails delete_usage s w
  config_delete m (name ∷ _) s w = deleted m (delete_service name m.changes) s w

  -- handleConfig: the first word of the line, and the others.
  unfoldable pub handle_config :
      Option (Editing L) → GoString → List GoString → Shell L → W → Turn L X E W
  unfolding config_exit config_service config_delete commit show_pending print_help abort
  handle_config none word rest s w = fails not_in_configure_mode s w
  handle_config (some m) word rest s w =
      let command = to_lower word in
      if command =s codes "help"
      then done s w (print_help config)
      else if command =s codes "exit"
      then config_exit m s w
      else if command =s codes "abort"
      then done (discarded m s) w (aborted ∷ [])
      else if command =s codes "commit"
      then committed m s (commit is_ip store m.changes w)
      else if command =s codes "show"
      then done s w (show_pending m.changes)
      else if command =s codes "service"
      then config_service m rest s w
      else if command =s codes "delete"
      then config_delete m rest s w
      else fails (unknown_configure_command word) s w

  unfoldable pub service_handled :
      Result ServiceError (Service × List GoString) → Shell L → W → Turn L X E W
  service_handled (err e) s w = fails (service_error e) s w
  service_handled (ok (u, lines)) s w = done (record s { service_mode = some u }) w lines

  -- handleService
  unfoldable pub handle_service :
      Option (Editing L) → Option Service → GoString → List GoString → Shell L → W → Turn L X E W
  unfolding service_handled leave_service_mode print_help handle
  handle_service none u word rest s w = fails not_in_service_mode s w
  handle_service (some m) none word rest s w = fails not_in_service_mode s w
  handle_service (some m) (some u) word rest s w =
      let command = to_lower word in
      if command =s codes "help"
      then done s w (print_help service)
      else if command =s codes "exit"
      then leave_service_mode m u s w
      else service_handled (handle is_ip word rest u) s w

  -- After `configure`, the rest of the line goes to the configure mode.
  unfoldable pub then_config : List GoString → Turn L X E W → Turn L X E W
  unfolding handle_config
  then_config [] t = t
  then_config (word ∷ rest) t =
      when_none t.error (handle_config t.shell.config_mode word rest t.shell t.world) t

  abbrev status_lines : Option LockMetadata → List GoString
  status_lines none = codes "No configuration lock held." ∷ []
  status_lines (some d) =
      (codes "Configuration locked by "
        ++ (d.user ++ (codes "@" ++ (d.host ++ (codes " (PID " ++ (itoa_ℤ d.pid ++ codes ")"))))))
      ∷ []

  unfoldable pub lock_status : Result X (Option LockMetadata) → Shell L → W → Turn L X E W
  lock_status (err x) s w = fails (lock_error x) s w
  lock_status (ok d) s w = done s w (status_lines d)

  abbrev pub forced : List GoString → Bool
  forced [] = false
  forced (flag ∷ _) = flag =s codes "--force"

  abbrev pub broken : Option X × W → Shell L → Turn L X E W
  broken (none, w) s = done s w []
  broken (some x, w) s = fails (lock_error x) s w

  unfoldable pub handle_lock : List GoString → Shell L → W → Turn L X E W
  unfolding lock_status print_help
  handle_lock [] s w = done s w (print_help root)
  handle_lock (word ∷ rest) s w =
      let command = to_lower word in
      if command =s codes "status"
      then lock_status (locks.status w) s w
      else if command =s codes "break"
      then broken (locks.break_lock (forced rest) w) s
      else fails (unknown_lock_command word) s w

  -- handleRoot
  unfoldable pub handle_root : GoString → List GoString → Shell L → W → Turn L X E W
  unfolding then_config handle_lock enter_configure_mode print_help
  handle_root word rest s w =
      let command = to_lower word in
      if command =s codes "help"
      then done s w (print_help root)
      else if command =s codes "exit"
      then fails exit_shell s w
      else if command =s codes "configure"
      then then_config rest (enter_configure_mode store locks s w)
      else if command =s codes "lock"
      then handle_lock rest s w
      else if command =s codes "show"
      then done s w (codes "show: not implemented (daemon integration in Phase 7)" ∷ [])
      else if command =s codes "doctor"
      then done s w (codes "doctor: not implemented (Phase 7)" ∷ [])
      else if command =s codes "reload"
      then done s w (codes "reload: not implemented (Phase 7)" ∷ [])
      else fails (unknown_command word) s w

  -- The line goes to the handler of the mode.
  unfoldable pub dispatch : Mode → GoString → List GoString → Shell L → W → Turn L X E W
  unfolding handle_root handle_config handle_service
  dispatch root word rest s w = handle_root word rest s w
  dispatch config word rest s w = handle_config s.config_mode word rest s w
  dispatch service word rest s w = handle_service s.config_mode s.service_mode word rest s w
