-- ===== src/Config/Loader.antt =====
-- internal/config/loader.go: LoadConfig, over the file system, package filepath and the YAML decoder.
use libra_flux.Base.{
  Bool, not, Option, List, [], ◌∷◌, ◌++◌, Result, ok, err, ◌>>=◌, ◌>>◌, fail_if, if◌then◌else◌, any,
}
use libra_flux.Base.Text.{GoString, codes, ◌=s◌}
use libra_flux.Base.Split.{sort_strings}
use libra_flux.Config.Types.{Config, Service}
use libra_flux.Config.EnvVars.{resolve_env_vars}

-- `top_keys` are the keys of the YAML mapping that a text is, and `decode` and `decode_services` its
-- readings as a Config and as a ServiceConfig. `beside path p` is filepath.Join(filepath.Dir(path), p).
pub record Source (E : Type 0) : Type 0 where
  pub read_file : GoString → Result E GoString
  pub lookup_env : GoString → Option GoString
  pub top_keys : GoString → Result E (List GoString)
  pub decode : GoString → Result E Config
  pub decode_services : GoString → Result E (List Service)
  pub is_absolute : GoString → Bool
  pub beside : GoString → GoString → GoString
  pub glob : GoString → Result E (List GoString)

pub data LoadError (E : Type 0) : Type 0 where
  read_error parse_error glob_error : E → LoadError E
  missing_variables : List GoString → LoadError E
  services_in_main only_services : LoadError E
  in_service_file : GoString → LoadError E → LoadError E

abbrev pub wrapped {ℓ} : {E F : Type 0} {A : Type ℓ} → (E → F) → Result E A → Result F A
wrapped f (ok a) = ok a
wrapped f (err e) = err (f e)

module _ {E : Type 0} (src : Source E) where
  -- The text of a file, with the variables resolved.
  unfoldable pub read_resolved : GoString → Result (LoadError E) GoString
  unfolding resolve_env_vars
  read_resolved path = do
    content ← wrapped read_error (src.read_file path)
    wrapped missing_variables (resolve_env_vars src.lookup_env content)

  -- A file without keys adds nothing; one with any key but `services` is refused.
  unfoldable pub services_under : List GoString → GoString → Result (LoadError E) (List Service)
  services_under [] text = ok []
  services_under (k ∷ []) text =
      fail_if (not (k =s codes "services")) only_services
      >> wrapped parse_error (src.decode_services text)
  services_under (k ∷ l ∷ keys) text = err only_services

  -- loadServiceConfig: the services that the file adds
  unfoldable pub load_service_config : GoString → Result (LoadError E) (List Service)
  unfolding read_resolved services_under
  load_service_config path = do
    text ← read_resolved path
    keys ← wrapped parse_error (src.top_keys text)
    services_under keys text

  -- The loop over the included files, with the configuration so far.
  unfoldable pub include_loop : List GoString → Config → Result (LoadError E) Config
  unfolding load_service_config
  include_loop [] c = ok c
  include_loop (p ∷ ps) c = wrapped (in_service_file p) (load_service_config p) >>= λ ss.
      include_loop ps (record c { services = c.services ++ ss })

  unfoldable pub include_pattern : GoString → GoString → GoString
  include_pattern path pattern =
      if src.is_absolute pattern then pattern else src.beside path pattern

  unfoldable pub include_files : GoString → Config → Result (LoadError E) Config
  unfolding include_loop sort_strings include_pattern
  include_files path c =
      if c.include =s []
      then ok c
      else (wrapped glob_error (src.glob (include_pattern path c.include)) >>= λ matches.
          include_loop (sort_strings matches) c)

  -- LoadConfig
  unfoldable pub load_config : GoString → Result (LoadError E) Config
  unfolding read_resolved include_files any
  load_config path = do
    text ← read_resolved path
    keys ← wrapped parse_error (src.top_keys text)
    fail_if (any keys (λ k. k =s codes "services")) services_in_main
    c ← wrapped parse_error (src.decode text)
    include_files path c
