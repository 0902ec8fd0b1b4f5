-- ===== src/Shell/ConfigMode.antt =====
-- internal/shell/config_mode.go: the changes of one session, staged until they are committed. A range
-- over a map goes through it in the order of the list. The lock of the session is kept in `Session`.
use libra_flux.Base.{
  Bool, true, false, Option, none, some, List, [], ◌∷◌, ◌++◌, map, Result, ok, err, ◌>>=◌, ◌>>◌,
  fail_if, if◌then◌else◌,
}
use libra_flux.Base.Text.{GoString, codes, ◌=s◌, trim_space}
use libra_flux.Base.Assoc.{Assoc, string_eq, lookup, insert, erase, has}
use libra_flux.Base.Split.{sort_strings}
use libra_flux.Config.Types.{Config, Service}
use libra_flux.Shell.ServiceMode.{ServiceError, service_name_required, new_service_mode, no_health}

-- The files of the configuration, in a world of type `W`: config.LoadConfig, os.MkdirAll, the writing of
-- services as YAML, os.Remove, and filepath.Join.
pub record Store (E W : Type 0) : Type 0 where
  pub load : GoString → W → Result E Config
  pub mkdir : GoString → W → Option E × W
  pub write_services : GoString → List Service → W → Option E × W
  pub remove : GoString → W → Option E × W
  pub join_path : GoString → GoString → GoString

-- `deleted` holds true under every key that it has.
pub record ConfigMode : Type 0 where
  pub config_path : GoString
  pub config_dir : GoString
  pub base : Config
  pub staged : Assoc GoString Service
  pub deleted : Assoc GoString Bool

-- NewConfigMode, with a lock that is held
unfoldable pub new_config_mode :
    {E W : Type 0} → Store E W → GoString → GoString → W → Result E ConfigMode
new_config_mode store path dir w = do
  base ← store.load path w
  ok (record { config_path = path; config_dir = dir; base = base; staged = []; deleted = [] })

-- config.Service{Name: name, Protocol: "tcp", Scheduler: "rr", Health: …}
unfoldable pub new_service : GoString → Service
new_service name = record {
  name = name;
  protocol = codes "tcp";
  ports = [];
  port_ranges = [];
  scheduler = codes "rr";
  backends = [];
  health = no_health;
}

unfoldable pub find_service : GoString → List Service → Option Service
find_service name [] = none
find_service name (s ∷ ss) =
    let rest = find_service name ss in if s.name =s name then some s else rest

unfoldable pub service_or_new : GoString → Option Service → Option Service → Service
unfolding new_service
service_or_new name (some s) base = s
service_or_new name none (some s) = s
service_or_new name none none = new_service name

-- EnterService: the service that the service mode then edits. The name is no longer deleted.
unfoldable pub enter_service : GoString → ConfigMode → Result ServiceError Service × ConfigMode
unfolding service_or_new find_service new_service_mode lookup erase
enter_service given m =
    let name = trim_space given in
    let entered = record m { deleted = erase name m.deleted } in
    if name =s [] then (err service_name_required, m) else (
      new_service_mode
          (service_or_new name (lookup name m.staged) (find_service name m.base.services)),
      entered,
    )

-- StageService
unfoldable pub stage_service : Service → ConfigMode → Result ServiceError ConfigMode
unfolding insert erase
stage_service s m =
    fail_if (trim_space s.name =s []) service_name_required
    >> ok (record m { staged = insert s.name s m.staged; deleted = erase s.name m.deleted })

-- DeleteService
unfoldable pub delete_service : GoString → ConfigMode → Result ServiceError ConfigMode
unfolding insert erase
delete_service given m =
    fail_if (trim_space given =s []) service_name_required
    >> ok (record m {
      staged = erase (trim_space given) m.staged;
      deleted = insert (trim_space given) true m.deleted;
    })

-- Abort
unfoldable pub abort : ConfigMode → ConfigMode
abort m = record m { staged = []; deleted = [] }

unfoldable pub keys : {V : Type 0} → Assoc GoString V → List GoString
keys [] = []
keys ((k, v) ∷ m) = k ∷ keys m

-- The names of staged services that are new to the session's configuration, or those that are not.
unfoldable pub diff : Bool → List Service → Assoc GoString Service → List GoString
unfolding find_service
diff known base [] = []
diff known base ((n, s) ∷ m) =
    let rest = diff known base m in
    elim (find_service n base) [
      | none ↦ if known then rest else n ∷ rest
      | some old ↦ if known then n ∷ rest else rest
    ]

-- ShowPending: the lines that are printed.
unfoldable pub show_pending : ConfigMode → List GoString
unfolding diff keys sort_strings
show_pending m =
    let added = sort_strings (diff false m.base.services m.staged) in
    let updated = sort_strings (diff true m.base.services m.staged) in
    let line = λ (mark note n : GoString). mark ++ (n ++ note) in
    let lines =
      codes "Pending changes"
      ∷ (map (line (codes "  + service ") (codes " (new)")) added
          ++ (map (line (codes "  ~ service ") (codes " (modified)")) updated
              ++ map (line (codes "  - service ") (codes " (deleted)"))
                  (sort_strings (keys m.deleted)))) in
    elim added [
      | n ∷ ns ↦ lines
      | [] ↦ elim updated [
        | n ∷ ns ↦ lines
        | [] ↦ elim m.deleted [ [] ↦ codes "No pending changes." ∷ [] | d ∷ ds ↦ lines ]
      ]
    ]

-- The services that are loaded, but for those that are deleted or staged.
unfoldable pub kept : ConfigMode → List Service → List Service
unfolding has
kept m [] = []
kept m (s ∷ ss) =
    let rest = kept m ss in
    if has s.name m.deleted then rest else if has s.name m.staged then rest else s ∷ rest

unfoldable pub values : {V : Type 0} → Assoc GoString V → List V
values [] = []
values ((k, v) ∷ m) = v ∷ values m

-- The configuration that the commit would lead to.
unfoldable pub merged : ConfigMode → Config → Config
unfolding kept values
merged m current = record current { services = kept m current.services ++ values m.staged }
