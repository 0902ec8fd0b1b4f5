-- ===== src/Shell/Reverting.antt =====
-- internal/shell/config_mode.go: the services that a session edits after it has committed. Commit keeps `base`
-- as it was loaded when the session began.
use libra_flux.Base.{
  ◌≡◌, inl, inr, any, refl, Bool, false, Option, none, some, List, [], ◌∷◌, arith, ok, Bool-cases,
}
use libra_flux.Base.Text.{GoString, ◌=s◌, =s_iff, =s_refl, trim_space}
use libra_flux.Base.Assoc.{string_eq, lookup, insert, erase}
use libra_flux.Config.Types.{Service}
use libra_flux.Shell.ServiceMode.{new_service_mode}
use libra_flux.Shell.ConfigMode.{
  Store, ConfigMode, keys, abort, find_service, service_or_new, enter_service, stage_service,
}
use libra_flux.Shell.Commit.{commit, file_of}
use libra_flux.Shell.Written.{Files, Separate}
use libra_flux.Shell.Publishing.{Named, commit-files}

find_service-name :
    (n : GoString) (ss : List Service) (s : Service) → find_service n ss ≡ some s → s.name ≡ n
unfolding find_service
find_service-name n [] s h = cc
find_service-name n (t ∷ ss) s h = elim (Bool-cases (t.name =s n)) [
  | inl e ↦ ground (arith, h, e, (=s_iff t.name n).0 e)
  | inr e ↦ find_service-name n ss s (ground (arith, h, e))
]

-- A mode with nothing pending edits a service as the base has it.
enter-base :
    (given : GoString) (m : ConfigMode) (old : Service)
    → (trim_space given =s []) ≡ false
    → (trim_space old.name =s []) ≡ false
    → find_service (trim_space given) m.base.services ≡ some old
    → enter_service given (abort m) ≡ (ok old, abort m)
unfolding enter_service new_service_mode lookup service_or_new erase abort
enter-base given m old text named found = rw (text, found, named) refl

-- The mode after the service that was entered is left as it is.
abbrev restaged : Service → ConfigMode → ConfigMode
restaged s m = record m { staged = (s.name, s) ∷ []; deleted = [] }

stage-entered :
    (s : Service) (m : ConfigMode)
    → (trim_space s.name =s []) ≡ false
    → stage_service s (abort m) ≡ ok (restaged s m)
unfolding stage_service abort insert erase
stage-entered s m text = rw text refl

restaged-Named : (s : Service) → Named ((s.name, s) ∷ [])
unfolding lookup
restaged-Named s n t h = ground (arith, h, =s_iff s.name n)

-- After a commit that returns no error, of services that are staged under their own names, the
-- same session enters a service that its base has, by a name that is not blank, where the
-- service's own name has no blanks at its ends: it is given the service of the base, whatever was
-- committed. When it leaves the service as it is and commits again without an error, over a store
-- that reads back what is written, whose failed removals leave the files as they were, and in
-- which valid names have different paths, the file of the service holds the service of the base
-- alone.
pub recommit-base :
    {E W : Type 0} (is_ip : GoString → Bool) (store : Store E W)
    (read : GoString → W → Option (List Service)) (m : ConfigMode) (w : W) (given : GoString)
    (old : Service)
    → Files store read
    → Separate store m.config_dir
    → Named m.staged
    → (commit is_ip store m w).error ≡ none
    → (trim_space given =s []) ≡ false
    → find_service (trim_space given) m.base.services ≡ some old
    → trim_space old.name ≡ old.name
    → (entered : ConfigMode) × (left : ConfigMode) × (enter_service given
          (commit is_ip store m w).mode
        ≡ (ok old, entered))
      × (stage_service old entered ≡ ok left)
      × ((commit is_ip store left (commit is_ip store m w).world).error ≡ none
          → read
              (file_of store m.config_dir old.name)
              (commit is_ip store left (commit is_ip store m w).world).world
            ≡ some (old ∷ []))
recommit-base is_ip store read m w given old laws apart named h text found plain =
    let name : old.name ≡ trim_space given =
      find_service-name (trim_space given) m.base.services old found in
    let solid : (trim_space old.name =s []) ≡ false = rw (plain, name) text in
    let cleared = (commit-files is_ip store read m w laws apart named h).0 in
    (
      abort m,
      restaged old m,
      rw cleared (enter-base given m old text solid found),
      stage-entered old m solid,
      (λ again.
          let own : lookup old.name ((old.name, old) ∷ []) ≡ some old =
            unfold lookup in rw (=s_refl old.name) refl in
          let (_, _, files, _) =
            commit-files is_ip store read (restaged old m) (commit is_ip store m w).world laws apart
              (restaged-Named old) again in
          files old.name old own (unfold any keys in refl)),
    )
