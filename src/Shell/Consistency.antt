-- ===== src/Shell/Consistency.antt =====
-- internal/shell: in which states the lines leave the shell.
use libra_flux.Base.{
  ◌≡◌, refl, inl, inr, Bool, Option, none, some, List, [], ◌∷◌, arith, Result, ok, err, if_elim,
  when_none_elim, Result-cases,
}
use libra_flux.Base.Text.{GoString, codes, ◌=s◌, to_lower}
use libra_flux.Base.Assoc.{string_eq, lookup}
use libra_flux.Config.Types.{Service}
use libra_flux.Shell.ServiceMode.{ServiceError}
use libra_flux.Shell.ConfigMode.{
  Store, ConfigMode, new_config_mode, enter_service, delete_service, abort,
}
use libra_flux.Shell.Commit.{commit}
use libra_flux.Shell.Staging.{
  Pending, abort-Pending, enter_service-Pending, delete_service-Pending, commit-Pending,
}
use libra_flux.Shell.Session.{
  Locking, Mode, root, config, service, Editing, Shell, Turn, begin_editing, begin_locked,
  enter_configure_mode, entered_service, enter_service_mode, staged_then,
}
use libra_flux.Shell.Commands.{with_changes, deleted, config_service, config_delete, handle_config}

-- The mode says which of the inner modes there are, and the changes of a session are consistent.
abbrev pub Matches : {L : Type 0} → Mode → Option (Editing L) → Option Service → Type 0
Matches root c u = (c ≡ none) × (u ≡ none)
Matches {L} config c u = ((m : Editing L) × (c ≡ some m) × Pending m.changes) × (u ≡ none)
Matches {L} service c u =
    ((m : Editing L) × (c ≡ some m) × Pending m.changes) × (v : Service) × (u ≡ some v)

abbrev pub IsConsistent : {L : Type 0} → Shell L → Type 0
IsConsistent s = Matches s.mode s.config_mode s.service_mode

-- Not in the service mode.
abbrev pub Calm : {L : Type 0} → Shell L → Type 0
Calm s = IsConsistent s × (s.service_mode ≡ none)

pub root-Calm : {L : Type 0} (s : Shell L) → s.mode ≡ root → IsConsistent s → Calm s
root-Calm s e c = (c, (rw e at c).1)

pub config-Calm : {L : Type 0} (s : Shell L) → s.mode ≡ config → IsConsistent s → Calm s
config-Calm s e c = (c, (rw e at c).1)

-- In a configure mode that is calm, the mode is that of the configuration.
calm_config :
    {L : Type 0} (d : Mode) (c : Option (Editing L)) (u : Option Service) (m : Editing L)
    → Matches d c u
    → u ≡ none
    → c ≡ some m
    → (d ≡ config) × Pending m.changes
calm_config root c u m v n e = absurd (ground (arith, v.0, e))
calm_config config c u m ((k, ek, p), v) n e =
    let same : k ≡ m = ground (arith, ek, e) in (refl, rw same at p)
calm_config service c u m (k, v, ev) n e = absurd (ground (arith, n, ev))

in_config :
    {L : Type 0} (s : Shell L) (m : Editing L)
    → s.mode ≡ config
    → s.config_mode ≡ some m
    → s.service_mode ≡ none
    → Pending m.changes
    → Calm s
in_config s m d c u p = (rw d ((m, c, p), u), u)

fresh-Pending :
    {E W : Type 0} (store : Store E W) (path dir : GoString) (w : W) (m : ConfigMode)
    → new_config_mode store path dir w ≡ ok m
    → Pending m
unfolding new_config_mode lookup
fresh-Pending store path dir w m h = elim (Result-cases (store.load path w)) [
  | inl (base, e) ↦
      let same : m ≡ record {
        config_path = path;
        config_dir = dir;
        base = base;
        staged = [];
        deleted = [];
      } =
        ground (arith, rw e at h) in
      rw same (record { named = λ n v at. cc; apart = λ n v at. refl })
  | inr (x, e) ↦ absurd (ground (arith, rw e at h))
]

-- The service mode is entered from the configure mode, or an error leaves the shell there.
entered_service-Keeps :
    {L W : Type 0} (X E : Type 0) (m : Editing L) (r : Result ServiceError Service × ConfigMode)
    (s : Shell L) (w : W)
    → s.mode ≡ config
    → s.service_mode ≡ none
    → Pending r.1
    → IsConsistent (entered_service {X = X} {E = E} m r s w).shell
unfolding entered_service
entered_service-Keeps X E m (err e, after) s w d u p =
    (in_config (record s { config_mode = some (record m { changes = after }) }) _ d refl u p).0
entered_service-Keeps X E m (ok v, after) s w d u p =
    ((record m { changes = after }, refl, p), v, refl)

module _ {L X E W : Type 0} where
  abbrev pub Keeps : Turn L X E W → Type 0
  Keeps t = IsConsistent t.shell

  abbrev pub KeepsCalm : Turn L X E W → Type 0
  KeepsCalm t = Calm t.shell

  begin_editing-Calm :
      (locks : Locking L X W) (l : L) (r : Result E ConfigMode) (s : Shell L) (w : W)
      → Calm s
      → ((m : ConfigMode) → r ≡ ok m → Pending m)
      → KeepsCalm (begin_editing locks l r s w)
  unfolding begin_editing
  begin_editing-Calm locks l (err e) s w c p = c
  begin_editing-Calm locks l (ok m) s w c p =
      (((record { changes = m; lock = l }, refl, p m refl), c.1), c.1)

  begin_locked-Calm :
      (store : Store E W) (locks : Locking L X W) (a : Result X L × W) (s : Shell L)
      → Calm s
      → KeepsCalm (begin_locked store locks a s)
  unfolding begin_locked
  begin_locked-Calm store locks (err x, w) s c = c
  begin_locked-Calm store locks (ok l, w) s c =
      begin_editing-Calm locks l (new_config_mode store s.config_path s.config_dir w) s w c
        (fresh-Pending store s.config_path s.config_dir w)

  pub enter-Calm :
      (store : Store E W) (locks : Locking L X W) (s : Shell L) (w : W)
      → Calm s
      → KeepsCalm (enter_configure_mode store locks s w)
  unfolding enter_configure_mode
  enter-Calm store locks s w c =
      when_none_elim KeepsCalm s.config_mode (begin_locked-Calm store locks (locks.acquire w) s c) c

  module _ (is_ip : GoString → Bool) (store : Store E W) (locks : Locking L X W) where
    config_service-Keeps :
        (m : Editing L) (rest : List GoString) (s : Shell L) (w : W)
        → s.mode ≡ config
        → Calm s
        → Pending m.changes
        → Keeps (config_service is_ip store locks m rest s w)
    unfolding config_service enter_service_mode
    config_service-Keeps m [] s w d calm p = calm.0
    config_service-Keeps m (n ∷ rest) s w d calm p =
        entered_service-Keeps X E m (enter_service n m.changes) s w d calm.1
          (enter_service-Pending n m.changes p)

    deleted-Keeps :
        (m : Editing L) (r : Result ServiceError ConfigMode) (s : Shell L) (w : W)
        → s.mode ≡ config
        → Calm s
        → ((after : ConfigMode) → r ≡ ok after → Pending after)
        → Keeps (deleted is_ip store locks m r s w)
    unfolding deleted
    deleted-Keeps m (err e) s w d calm p = calm.0
    deleted-Keeps m (ok after) s w d calm p =
        (in_config (with_changes m after s) _ d refl calm.1 (p after refl)).0

    config_delete-Keeps :
        (m : Editing L) (rest : List GoString) (s : Shell L) (w : W)
        → s.mode ≡ config
        → Calm s
        → Pending m.changes
        → Keeps (config_delete is_ip store locks m rest s w)
    unfolding config_delete
    config_delete-Keeps m [] s w d calm p = calm.0
    config_delete-Keeps m (n ∷ rest) s w d calm p =
        deleted-Keeps m (delete_service n m.changes) s w d calm
          (λ after e. delete_service-Pending n m.changes e p)

    pub handle_config-Keeps :
        (c : Option (Editing L)) (word : GoString) (rest : List GoString) (s : Shell L) (w : W)
        → s.config_mode ≡ c
        → Calm s
        → Keeps (handle_config is_ip store locks c word rest s w)
    unfolding handle_config
    handle_config-Keeps none word rest s w at calm = calm.0
    handle_config-Keeps (some m) word rest s w at calm =
        let (d, p) = calm_config s.mode s.config_mode s.service_mode m calm.0 calm.1 at in
        if_elim Keeps (to_lower word =s codes "help") (λ e. calm.0)
          (λ e.
            if_elim Keeps (to_lower word =s codes "exit") (λ e. (refl, refl))
              (λ e.
                if_elim Keeps (to_lower word =s codes "abort")
                  (λ e.
                    (in_config (with_changes m (abort m.changes) s) _ d refl calm.1
                      (abort-Pending m.changes)).0)
                  (λ e.
                    if_elim Keeps (to_lower word =s codes "commit")
                      (λ e.
                        (in_config (with_changes m (commit is_ip store m.changes w).mode s) _ d refl
                          calm.1 (commit-Pending is_ip store m.changes w p)).0)
                      (λ e.
                        if_elim Keeps (to_lower word =s codes "show") (λ e. calm.0)
                          (λ e.
                            if_elim Keeps (to_lower word =s codes "service")
                              (λ e. config_service-Keeps m rest s w d calm p)
                              (λ e.
                                if_elim Keeps (to_lower word =s codes "delete")
                                  (λ e. config_delete-Keeps m rest s w d calm p) (λ e. calm.0)))))))

    pub staged_then-Keeps :
        (m : Editing L) (r : Result ServiceError ConfigMode) (s : Shell L) (w : W)
        → IsConsistent s
        → ((after : ConfigMode) → r ≡ ok after → Pending after)
        → IsConsistent (staged_then {X = X} {E = E} m r s w).shell
    unfolding staged_then
    staged_then-Keeps m (err e) s w c p = c
    staged_then-Keeps m (ok after) s w c p =
        ((record m { changes = after }, refl, p after refl), refl)
