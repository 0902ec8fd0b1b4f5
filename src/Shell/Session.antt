-- ===== src/Shell/Session.antt =====
-- internal/shell/shell.go: the modes of the shell and the changes between them. A session in configure mode
-- holds the lock, whose operations are an interface here.
use libra_flux.Base.{
  Bool, not, ◌||◌, Option, none, some, List, [], ℤ, pos, Result, ok, err, eqb_ℤ, if◌then◌else◌,
  when_none,
}
use libra_flux.Base.Text.{GoString, codes, ◌=s◌}
use libra_flux.Config.Types.{Service}
use libra_flux.Shell.ServiceMode.{ServiceError}
use libra_flux.Shell.ConfigMode.{Store, ConfigMode, new_config_mode, enter_service, stage_service}
use libra_flux.Shell.Commit.{CommitError}
use libra_flux.Shell.Lock.{LockMetadata}

-- What the shell uses of the lock manager and of a lock of type `L` that it holds, with errors of type `X`
-- in a world of type `W`, and of the clock: `s.now()`, and the text of a duration.
pub record Locking (L X W : Type 0) : Type 0 where
  pub acquire : W → Result X L × W
  pub release : L → W → W
  pub update_activity : L → W → L × W
  pub last_activity : L → Option ℤ
  pub status : W → Result X (Option LockMetadata)
  pub break_lock : Bool → W → Option X × W
  pub now : W → ℤ
  pub duration_text : ℤ → GoString

pub data Mode : Type 0 where
  root config service : Mode

-- A configure mode with its lock.
pub record Editing (L : Type 0) : Type 0 where
  pub changes : ConfigMode
  pub lock : L

pub record Shell (L : Type 0) : Type 0 where
  pub config_path : GoString
  pub config_dir : GoString
  pub idle_timeout : ℤ
  pub mode : Mode
  pub config_mode : Option (Editing L)
  pub service_mode : Option Service

pub data ShellError (X E : Type 0) : Type 0 where
  exit_shell : ShellError X E
  lock_error : X → ShellError X E
  store_error : E → ShellError X E
  service_error : ServiceError → ShellError X E
  commit_error : CommitError E → ShellError X E
  not_in_configure_mode not_in_service_mode : ShellError X E
  service_usage delete_usage : ShellError X E
  unknown_command unknown_lock_command unknown_configure_command : GoString → ShellError X E

-- The options of New: whether the writers and the lock manager are there, the paths, and the idle
-- timeout, of which zero asks for ten minutes.
pub record ShellOptions : Type 0 where
  pub has_writers : Bool
  pub config_path : GoString
  pub config_dir : GoString
  pub has_lock_manager : Bool
  pub idle_timeout : ℤ

pub data OptionsError : Type 0 where
  writers_required paths_required lock_manager_required : OptionsError

-- New
unfoldable pub new_shell : {L : Type 0} → ShellOptions → Result OptionsError (Shell L)
new_shell o =
    if not o.has_writers
    then err writers_required
    else if (o.config_path =s []) || (o.config_dir =s [])
    then err paths_required
    else if not o.has_lock_manager
    then err lock_manager_required
    else ok (record {
      config_path = o.config_path;
      config_dir = o.config_dir;
      idle_timeout = if eqb_ℤ o.idle_timeout (pos 0) then pos 600000000000 else o.idle_timeout;
      mode = root;
      config_mode = none;
      service_mode = none;
    })

-- Prompt
unfoldable pub prompt : Mode → GoString
prompt root = codes "lbctl> "
prompt config = codes "lbctl(config)> "
prompt service = codes "lbctl(config-svc)> "

-- What a line comes to: the error that is returned, the shell and the world then, and what is printed.
pub record Turn (L X E W : Type 0) : Type 0 where
  pub error : Option (ShellError X E)
  pub shell : Shell L
  pub world : W
  pub printed : List GoString

module _ {L X W : Type 0} where
  unfoldable pub release_held : Locking L X W → Option (Editing L) → W → W
  release_held locks none w = w
  release_held locks (some m) w = locks.release m.lock w

  -- leaveConfigureMode
  unfoldable pub leave_configure_mode : Locking L X W → Shell L → W → Shell L × W
  unfolding release_held
  leave_configure_mode locks s w = (
    record s { mode = root; config_mode = none; service_mode = none },
    release_held locks s.config_mode w,
  )

module _ {L X E W : Type 0} where
  abbrev pub done : Shell L → W → List GoString → Turn L X E W
  done s w lines = record { error = none; shell = s; world = w; printed = lines }

  abbrev pub fails : ShellError X E → Shell L → W → Turn L X E W
  fails e s w = record { error = some e; shell = s; world = w; printed = [] }

  -- The configuration is loaded, or the lock is given back.
  unfoldable pub begin_editing :
      Locking L X W → L → Result E ConfigMode → Shell L → W → Turn L X E W
  begin_editing locks l (err e) s w = fails (store_error e) s (locks.release l w)
  begin_editing locks l (ok m) s w =
      done (record s { mode = config; config_mode = some (record { changes = m; lock = l }) }) w []

  unfoldable pub begin_locked : Store E W → Locking L X W → Result X L × W → Shell L → Turn L X E W
  unfolding begin_editing new_config_mode
  begin_locked store locks (err x, w) s = fails (lock_error x) s w
  begin_locked store locks (ok l, w) s =
      begin_editing locks l (new_config_mode store s.config_path s.config_dir w) s w

  -- enterConfigureMode
  unfoldable pub enter_configure_mode : Store E W → Locking L X W → Shell L → W → Turn L X E W
  unfolding begin_locked
  enter_configure_mode store locks s w =
      let begun = begin_locked store locks (locks.acquire w) s in
      when_none s.config_mode begun (done s w [])

  unfoldable pub entered_service :
      Editing L → Result ServiceError Service × ConfigMode → Shell L → W → Turn L X E W
  entered_service m (err e, after) s w =
      fails (service_error e) (record s { config_mode = some (record m { changes = after }) }) w
  entered_service m (ok u, after) s w =
      done
        (record s {
          mode = service;
          config_mode = some (record m { changes = after });
          service_mode = some u;
        })
        w []

  -- enterServiceMode, in a configure mode
  unfoldable pub enter_service_mode : Editing L → GoString → Shell L → W → Turn L X E W
  unfolding entered_service enter_service
  enter_service_mode m name s w = entered_service m (enter_service name m.changes) s w

  unfoldable pub staged_then :
      Editing L → Result ServiceError ConfigMode → Shell L → W → Turn L X E W
  staged_then m (err e) s w = fails (service_error e) s w
  staged_then m (ok after) s w =
      done
        (record s {
          mode = config;
          config_mode = some (record m { changes = after });
          service_mode = none;
        })
        w []

  -- leaveServiceMode, of a service in a configure mode
  unfoldable pub leave_service_mode : Editing L → Service → Shell L → W → Turn L X E W
  unfolding staged_then stage_service
  leave_service_mode m u s w = staged_then m (stage_service u m.changes) s w
