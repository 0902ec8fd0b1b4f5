-- ===== src/Shell/Staging.antt =====
-- internal/shell/config_mode.go: the pending changes of a session, through each of its operations.
use libra_flux.Base.{
  ◌≡◌, refl, ◌⊎◌, inl, inr, Bool, true, Option, none, some, [], arith, Result, ok, err, if_elim,
  Bool-cases,
}
use libra_flux.Base.Text.{GoString, ◌=s◌, =s_iff, trim_space}
use libra_flux.Base.Assoc.{string_eq, lookup, insert, erase, lookup-insert, lookup-erase}
use libra_flux.Config.Types.{Config, Service}
use libra_flux.Config.Validator.{ConfigError, validate}
use libra_flux.Shell.ServiceMode.{ServiceError}
use libra_flux.Shell.ConfigMode.{
  Store, ConfigMode, enter_service, stage_service, delete_service, abort,
}
use libra_flux.Shell.Commit.{
  Outcome, Written, finish, write_staged, commit_valid, commit_loaded, commit, merged,
}
use libra_flux.Shell.Publishing.{Named}

-- Services are staged under their names, and none that is staged is to be deleted.
pub record Pending (m : ConfigMode) : Type 0 where
  pub named : Named m.staged
  pub apart : (n : GoString) (s : Service) → lookup n m.staged ≡ some s → lookup n m.deleted ≡ none

pub abort-Pending : (m : ConfigMode) → Pending (abort m)
unfolding abort lookup
abort-Pending m = record { named = λ n s h. cc; apart = λ n s h. refl }

-- The name of a service that is entered is no longer to be deleted.
pub enter_service-Pending :
    (given : GoString) (m : ConfigMode) → Pending m → Pending (enter_service given m).1
unfolding enter_service
enter_service-Pending given m p =
    if_elim (λ (r : Result ServiceError Service × ConfigMode). Pending r.1) (trim_space given =s [])
      (λ e. p)
      (λ e. record {
        named = p.named;
        apart = λ n s h.
            rw (lookup-erase (trim_space given) n m.deleted) (ground (arith, p.apart n s h));
      })

staged-Pending :
    (s : Service) (m : ConfigMode)
    → Pending m
    → Pending (record m { staged = insert s.name s m.staged; deleted = erase s.name m.deleted })
staged-Pending s m p = record {
  named =
      λ n t h. ground (arith, h, lookup-insert s.name n s m.staged, =s_iff s.name n, p.named n t);
  apart = λ n t h.
      rw (lookup-erase s.name n m.deleted)
        (ground (arith, h, lookup-insert s.name n s m.staged, p.apart n t));
}

pub stage_service-Pending :
    (s : Service) (m : ConfigMode) {after : ConfigMode}
    → stage_service s m ≡ ok after
    → Pending m
    → Pending after
unfolding stage_service
stage_service-Pending s m {after} h p = elim (Bool-cases (trim_space s.name =s [])) [
  | inl e ↦ absurd (ground (arith, rw e at h))
  | inr e ↦
      let same : after
          ≡ record m { staged = insert s.name s m.staged; deleted = erase s.name m.deleted } =
        ground (arith, rw e at h) in
      rw same (staged-Pending s m p)
]

removed-Pending :
    (k : GoString) (m : ConfigMode)
    → Pending m
    → Pending (record m { staged = erase k m.staged; deleted = insert k true m.deleted })
removed-Pending k m p = record {
  named = λ n t h. ground (arith, h, lookup-erase k n m.staged, p.named n t);
  apart = λ n t h.
      rw (lookup-insert k n true m.deleted)
        (ground (arith, h, lookup-erase k n m.staged, p.apart n t));
}

pub delete_service-Pending :
    (given : GoString) (m : ConfigMode) {after : ConfigMode}
    → delete_service given m ≡ ok after
    → Pending m
    → Pending after
unfolding delete_service
delete_service-Pending given m {after} h p = elim (Bool-cases (trim_space given =s [])) [
  | inl e ↦ absurd (ground (arith, rw e at h))
  | inr e ↦
      let k = trim_space given in
      let same : after ≡ record m { staged = erase k m.staged; deleted = insert k true m.deleted } =
        ground (arith, rw e at h) in
      rw same (removed-Pending k m p)
]

module _ {E W : Type 0} (is_ip : GoString → Bool) (store : Store E W) (m : ConfigMode) where
  abbrev Left : Outcome E W → Type 0
  Left o = (o.mode ≡ m) ⊎ (o.mode ≡ abort m)

  finish-Left : (r : Written E W) → Left (finish store m r)
  unfolding finish
  finish-Left (some e, w, lines) = inl refl
  finish-Left (none, w, lines) = inr refl

  write_staged-Left : (made : Option E × W) → Left (write_staged is_ip store m made)
  unfolding write_staged
  write_staged-Left (some e, w) = inl refl
  write_staged-Left (none, w) = finish-Left _

  commit_valid-Left : (c : Option ConfigError) (w : W) → Left (commit_valid is_ip store m c w)
  unfolding commit_valid
  commit_valid-Left (some e) w = inl refl
  commit_valid-Left none w = write_staged-Left (store.mkdir m.config_dir w)

  commit_loaded-Left : (l : Result E Config) (w : W) → Left (commit_loaded is_ip store m l w)
  unfolding commit_loaded
  commit_loaded-Left (err e) w = inl refl
  commit_loaded-Left (ok c) w = commit_valid-Left (validate is_ip (merged m c)).0 w

  -- A commit leaves the changes as they are, or none.
  pub commit-Pending : (w : W) → Pending m → Pending (commit is_ip store m w).mode
  unfolding commit
  commit-Pending w p = elim (commit_loaded-Left (store.load m.config_path w) w) [
    | inl e ↦ rw e p
    | inr e ↦ rw e (abort-Pending m)
  ]
