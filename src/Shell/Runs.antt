-- ===== src/Shell/Runs.antt =====
-- internal/shell: every line, and every run of lines, keeps the shell consistent.
use libra_flux.Base.{
  ◌≡◌, refl, Bool, ◌&&◌, Option, none, some, List, [], ◌∷◌, arith, Result, ok, err, if_elim,
  when_none_elim,
}
use libra_flux.Base.Text.{GoString, codes, ◌=s◌, to_lower, trim_space}
use libra_flux.Base.Assoc.{string_eq}
use libra_flux.Config.Types.{Service}
use libra_flux.Shell.ServiceMode.{ServiceError, handle}
use libra_flux.Shell.ConfigMode.{Store, stage_service}
use libra_flux.Shell.Staging.{Pending, stage_service-Pending}
use libra_flux.Base.Split.{fields}
use libra_flux.Shell.Lock.{LockMetadata}
use libra_flux.Shell.Session.{
  Locking, Mode, root, config, service, Editing, Shell, Turn, enter_configure_mode,
  leave_configure_mode, leave_service_mode,
}
use libra_flux.Shell.Commands.{
  service_handled, handle_service, then_config, lock_status, broken, forced, handle_lock,
  handle_root, dispatch,
}
use libra_flux.Shell.Consistency.{
  Matches, IsConsistent, Keeps, KeepsCalm, Calm, root-Calm, config-Calm, enter-Calm,
  handle_config-Keeps, staged_then-Keeps,
}
use libra_flux.Shell.Lines.{
  expire, touched, settle, execute_words, execute_line, run, edits, is_idle, leaves,
}

abbrev Busy : {L : Type 0} → Shell L → Editing L → Type 0
Busy s m = (s.config_mode ≡ some m) × Pending m.changes

-- The service mode is inside a configure mode.
service_Busy :
    {L : Type 0} (d : Mode) (c : Option (Editing L)) (u : Option Service) (m : Editing L)
    → d ≡ service
    → Matches d c u
    → c ≡ some m
    → Pending m.changes
service_Busy root c u m d v e = cc
service_Busy config c u m d v e = cc
service_Busy service c u m d ((k, ek, p), v, ev) e =
    let same : k ≡ m = ground (arith, ek, e) in rw same at p

module _ {L X E W : Type 0} (is_ip : GoString → Bool) (store : Store E W)
    (locks : Locking L X W) where
  service_handled-Keeps :
      (m : Editing L) (r : Result ServiceError (Service × List GoString)) (s : Shell L) (w : W)
      → s.mode ≡ service
      → s.config_mode ≡ some m
      → Pending m.changes
      → IsConsistent s
      → Keeps (service_handled is_ip store locks r s w)
  unfolding service_handled
  service_handled-Keeps m (err e) s w d at p c = c
  service_handled-Keeps m (ok (v, lines)) s w d at p c = rw d ((m, at, p), v, refl)

  handle_service-Keeps :
      (c : Option (Editing L)) (u : Option Service) (word : GoString) (rest : List GoString)
      (s : Shell L) (w : W)
      → s.config_mode ≡ c
      → s.mode ≡ service
      → IsConsistent s
      → Keeps (handle_service is_ip store locks c u word rest s w)
  unfolding handle_service leave_service_mode
  handle_service-Keeps none u word rest s w at d v = v
  handle_service-Keeps (some m) none word rest s w at d v = v
  handle_service-Keeps (some m) (some u) word rest s w at d v =
      let p = service_Busy s.mode s.config_mode s.service_mode m d v at in
      if_elim Keeps (to_lower word =s codes "help") (λ e. v)
        (λ e.
          if_elim Keeps (to_lower word =s codes "exit")
            (λ e.
              staged_then-Keeps is_ip store locks m (stage_service u m.changes) s w v
                (λ after h. stage_service-Pending u m.changes h p))
            (λ e. service_handled-Keeps m (handle is_ip word rest u) s w d at p v))

  then_config-Keeps :
      (rest : List GoString) (t : Turn L X E W)
      → KeepsCalm t
      → Keeps (then_config is_ip store locks rest t)
  unfolding then_config
  then_config-Keeps [] t c = c.0
  then_config-Keeps (word ∷ rest) t c =
      when_none_elim Keeps t.error
        (handle_config-Keeps is_ip store locks t.shell.config_mode word rest t.shell t.world refl c)
        (c.0)

  lock_status-same :
      (r : Result X (Option LockMetadata)) (s : Shell L) (w : W)
      → (lock_status is_ip store locks r s w).shell ≡ s
  unfolding lock_status
  lock_status-same (ok d) s w = refl
  lock_status-same (err x) s w = refl

  broken-same : (r : Option X × W) (s : Shell L) → (broken is_ip store locks r s).shell ≡ s
  broken-same (none, w) s = refl
  broken-same (some x, w) s = refl

  -- The lock commands leave the shell as it is.
  handle_lock-same :
      (rest : List GoString) (s : Shell L) (w : W)
      → (handle_lock is_ip store locks rest s w).shell ≡ s
  unfolding handle_lock
  handle_lock-same [] s w = refl
  handle_lock-same (word ∷ rest) s w =
      if_elim (λ (t : Turn L X E W). t.shell ≡ s) (to_lower word =s codes "status")
        (λ e. lock_status-same (locks.status w) s w)
        (λ e.
          if_elim (λ (t : Turn L X E W). t.shell ≡ s) (to_lower word =s codes "break")
            (λ f. broken-same (locks.break_lock (forced is_ip store locks rest) w) s) (λ f. refl))

  handle_root-Keeps :
      (word : GoString) (rest : List GoString) (s : Shell L) (w : W)
      → Calm s
      → Keeps (handle_root is_ip store locks word rest s w)
  unfolding handle_root
  handle_root-Keeps word rest s w c =
      if_elim Keeps (to_lower word =s codes "help") (λ e. c.0)
        (λ e.
          if_elim Keeps (to_lower word =s codes "exit") (λ e. c.0)
            (λ e.
              if_elim Keeps (to_lower word =s codes "configure")
                (λ e.
                  then_config-Keeps rest (enter_configure_mode store locks s w)
                    (enter-Calm store locks s w c))
                (λ e.
                  if_elim Keeps (to_lower word =s codes "lock")
                    (λ e. rw (handle_lock-same rest s w) c.0)
                    (λ e.
                      if_elim Keeps (to_lower word =s codes "show") (λ e. c.0)
                        (λ e.
                          if_elim Keeps (to_lower word =s codes "doctor") (λ e. c.0)
                            (λ e.
                              if_elim Keeps (to_lower word =s codes "reload") (λ e. c.0)
                                (λ e. c.0)))))))

  dispatch-Keeps :
      (d : Mode) (word : GoString) (rest : List GoString) (s : Shell L) (w : W)
      → s.mode ≡ d
      → IsConsistent s
      → Keeps (dispatch is_ip store locks d word rest s w)
  unfolding dispatch
  dispatch-Keeps root word rest s w e c = handle_root-Keeps word rest s w (root-Calm s e c)
  dispatch-Keeps config word rest s w e c =
      handle_config-Keeps is_ip store locks s.config_mode word rest s w refl (config-Calm s e c)
  dispatch-Keeps service word rest s w e c =
      handle_service-Keeps s.config_mode s.service_mode word rest s w refl e c

  update_Keeps :
      (d : Mode) (c : Option (Editing L)) (u : Option Service) (m : Editing L) (l : L)
      → c ≡ some m
      → Matches d c u
      → Matches d (some (record m { lock = l })) u
  update_Keeps root c u m l e v = absurd (ground (arith, e, v.0))
  update_Keeps config c u m l e ((k, ek, p), v) =
      let same : k ≡ m = ground (arith, ek, e) in ((record m { lock = l }, refl, rw same at p), v)
  update_Keeps service c u m l e ((k, ek, p), v, ev) =
      let same : k ≡ m = ground (arith, ek, e) in
      ((record m { lock = l }, refl, rw same at p), v, ev)

  touched-Keeps :
      (c : Option (Editing L)) (s : Shell L) (w : W)
      → s.config_mode ≡ c
      → IsConsistent s
      → IsConsistent (touched is_ip store locks c s w).0
  unfolding touched
  touched-Keeps none s w e v = v
  touched-Keeps (some m) s w e v = update_Keeps s.mode s.config_mode s.service_mode m _ e v

  settle-Keeps : (t : Turn L X E W) → Keeps t → Keeps (settle is_ip store locks t)
  unfolding settle
  settle-Keeps t v =
      when_none_elim Keeps t.error
        (if_elim Keeps (edits t.shell.mode)
          (λ e. touched-Keeps t.shell.config_mode t.shell t.world refl v) (λ e. v))
        v

  execute_words-Keeps :
      (words : List GoString) (s : Shell L) (w : W)
      → IsConsistent s
      → Keeps (execute_words is_ip store locks words s w)
  unfolding execute_words
  execute_words-Keeps [] s w v = v
  execute_words-Keeps (word ∷ rest) s w v =
      if_elim Keeps (word =s codes "?")
        (λ e. settle-Keeps _ (dispatch-Keeps s.mode (codes "help") [] s w refl v))
        (λ e. settle-Keeps _ (dispatch-Keeps s.mode word rest s w refl v))

  pub execute_line-Keeps :
      (line : GoString) (s : Shell L) (w : W)
      → IsConsistent s
      → Keeps (execute_line is_ip store locks line s w)
  unfolding execute_line expire leave_configure_mode
  execute_line-Keeps line s w v =
      if_elim Keeps (trim_space line =s []) (λ e. v)
        (λ e.
          if_elim Keeps (edits s.mode && is_idle is_ip store locks s.idle_timeout s.config_mode w)
            (λ i. (refl, refl)) (λ i. execute_words-Keeps (fields (trim_space line)) s w v))

  -- Whatever lines a consistent shell is given, over any store and any lock manager, with errors or not, it
  -- is consistent at their end: there is a configure mode in the modes config and service alone,
  -- and a service mode in the mode service alone, the services are staged under their own names, and
  -- none that is staged is to be deleted.
  pub run-IsConsistent :
      (lines : List GoString) (s : Shell L) (w : W)
      → IsConsistent s
      → IsConsistent (run is_ip store locks lines s w).0
  unfolding run
  run-IsConsistent [] s w v = v
  run-IsConsistent (line ∷ lines) s w v =
      let t = execute_line is_ip store locks (trim_space line) s w in
      let kept = execute_line-Keeps (trim_space line) s w v in
      if_elim (λ (r : Shell L × W). IsConsistent r.0) (leaves t.error) (λ e. kept)
        (λ e. run-IsConsistent lines t.shell t.world kept)
