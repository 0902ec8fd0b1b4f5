-- ===== src/Shell/Commit.antt =====
-- internal/shell/config_mode.go: Commit, with WriteServiceConfig of internal/config/writer.go. What is
-- written before an error stays, so the world comes with the error.
use libra_flux.Base.{
  Bool, false, Option, none, some, List, [], ◌∷◌, ◌++◌, pos, Result, ok, err, if◌then◌else◌,
}
use libra_flux.Base.Text.{GoString, codes}
use libra_flux.Base.Assoc.{Assoc, string_eq, lookup, has}
use libra_flux.Base.Split.{sort_strings}
use libra_flux.Config.Types.{Config, Service}
use libra_flux.Config.Validator.{ConfigError, validate}
use libra_flux.Config.Writer.{validate_single_service}
use libra_flux.Shell.ConfigMode.{Store, ConfigMode, keys, abort}

-- The services that are loaded, but for those that are deleted or staged.
unfoldable pub kept : ConfigMode → List Service → List Service
unfolding has
kept m [] = []
kept m (s ∷ ss) =
    let rest = kept m ss in
    if has s.name m.deleted then rest else if has s.name m.staged then rest else s ∷ rest

unfoldable pub values : {V : Type 0} → Assoc GoString V → List V
values [] = []
values ((k, v) ∷ m) = v ∷ values m

-- The configuration that the commit would lead to.
unfoldable pub merged : ConfigMode → Config → Config
unfolding kept values
merged m current = record current { services = kept m current.services ++ values m.staged }

pub data CommitError (E : Type 0) : Type 0 where
  storage : E → CommitError E
  invalid : ConfigError → CommitError E

abbrev pub file_of : {E W : Type 0} → Store E W → GoString → GoString → GoString
file_of store dir name = store.join_path dir (name ++ codes ".yaml")

-- The file of the service, once its directory is there, or why it is not.
unfoldable pub write_in :
    {E W : Type 0} → Store E W → GoString → Service → Option E × W → Option (CommitError E) × W
write_in store dir s (some e, w) = (some (storage e), w)
write_in store dir s (none, w) =
    let (e, u) = store.write_services (file_of store dir s.name) (s ∷ []) w in
    (elim e [ none ↦ none | some x ↦ some (storage x) ], u)

unfoldable pub write_valid :
    {E W : Type 0}
    → Store E W
    → GoString
    → Service
    → Result ConfigError (Unit {0})
    → W
    → Option (CommitError E) × W
unfolding write_in
write_valid store dir s (err e) w = (some (invalid e), w)
write_valid store dir s (ok _) w = write_in store dir s (store.mkdir dir w)

-- WriteServiceConfig
unfoldable pub write_service_config :
    {E W : Type 0}
    → (GoString → Bool)
    → Store E W
    → GoString
    → Service
    → W
    → Option (CommitError E) × W
unfolding write_valid validate_single_service
write_service_config is_ip store dir s w =
    write_valid store dir s (validate_single_service is_ip s) w

-- What has come of a commit so far: the error, if there is one, the world, and the lines printed.
abbrev pub Written : Type 0 → Type 0 → Type 0
Written E W = Option (CommitError E) × W × List GoString

unfoldable pub write_next :
    {E W : Type 0} → GoString → Option (CommitError E) × W → (W → Written E W) → Written E W
write_next line (some e, w) next = (some e, w, line ∷ [])
write_next line (none, w) next = let (e, u, lines) = next w in (e, u, line ∷ lines)

-- The zero Service, which a lookup of a name that is not staged would give.
abbrev pub zero_service : Service
zero_service = record {
  name = [];
  protocol = [];
  ports = [];
  port_ranges = [];
  scheduler = [];
  backends = [];
  health = record {
    enabled = false;
    type = [];
    port = pos 0;
    interval_ms = pos 0;
    timeout_ms = pos 0;
    fail_after = pos 0;
    recover_after = pos 0;
  };
}

abbrev pub staged_service : GoString → Assoc GoString Service → Service
staged_service n staged = elim (lookup n staged) [ none ↦ zero_service | some s ↦ s ]

-- The loop that writes the staged services, in the order of their names.
unfoldable pub write_loop :
    {E W : Type 0}
    → (GoString → Bool)
    → Store E W
    → GoString
    → Assoc GoString Service
    → List GoString
    → W
    → Written E W
unfolding write_next write_service_config lookup
write_loop is_ip store dir staged [] w = (none, w, [])
write_loop is_ip store dir staged (n ∷ ns) w =
    write_next (codes "Writing " ++ (file_of store dir n ++ codes "..."))
      (write_service_config is_ip store dir (staged_service n staged) w)
      (write_loop is_ip store dir staged ns)

-- The loop that removes the files of the deleted services. What os.Remove returns is not looked at.
unfoldable pub remove_loop : {E W : Type 0} → Store E W → GoString → List GoString → W → W
remove_loop store dir [] w = w
remove_loop store dir (n ∷ ns) w =
    let (ignored, u) = store.remove (file_of store dir n) w in remove_loop store dir ns u

pub record Outcome (E W : Type 0) : Type 0 where
  pub error : Option (CommitError E)
  pub mode : ConfigMode
  pub world : W
  pub printed : List GoString

-- After the writes, the deleted services' files go, and nothing is pending.
unfoldable pub finish : {E W : Type 0} → Store E W → ConfigMode → Written E W → Outcome E W
unfolding remove_loop sort_strings keys abort
finish store m (some e, w, lines) = record { error = some e; mode = m; world = w; printed = lines }
finish store m (none, w, lines) = record {
  error = none;
  mode = abort m;
  world = remove_loop store m.config_dir (sort_strings (keys m.deleted)) w;
  printed = lines ++ (codes "Committed." ∷ []);
}

unfoldable pub write_staged :
    {E W : Type 0} → (GoString → Bool) → Store E W → ConfigMode → Option E × W → Outcome E W
unfolding finish write_loop sort_strings keys
write_staged is_ip store m (some e, w) = record {
  error = some (storage e);
  mode = m;
  world = w;
  printed = [];
}
write_staged is_ip store m (none, w) =
    finish store m (write_loop is_ip store m.config_dir m.staged (sort_strings (keys m.staged)) w)

unfoldable pub commit_valid :
    {E W : Type 0}
    → (GoString → Bool)
    → Store E W
    → ConfigMode
    → Option ConfigError
    → W
    → Outcome E W
unfolding write_staged
commit_valid is_ip store m (some e) w = record {
  error = some (invalid e);
  mode = m;
  world = w;
  printed = [];
}
commit_valid is_ip store m none w = write_staged is_ip store m (store.mkdir m.config_dir w)

unfoldable pub commit_loaded :
    {E W : Type 0} → (GoString → Bool) → Store E W → ConfigMode → Result E Config → W → Outcome E W
unfolding commit_valid merged validate
commit_loaded is_ip store m (err e) w = record {
  error = some (storage e);
  mode = m;
  world = w;
  printed = [];
}
commit_loaded is_ip store m (ok current) w =
    commit_valid is_ip store m (validate is_ip (merged m current)).0 w

-- Commit
unfoldable pub commit :
    {E W : Type 0} → (GoString → Bool) → Store E W → ConfigMode → W → Outcome E W
unfolding commit_loaded
commit is_ip store m w = commit_loaded is_ip store m (store.load m.config_path w) w
