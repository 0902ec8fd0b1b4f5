-- ===== src/Tests/Loading.antt =====
-- internal/config/loader.go at a main file that includes one file.
use libra_flux.Base.{
  ◌≡◌, ◌↔◌, true, refl, false, Option, none, some, List, [], ◌∷◌, ◌++◌, ok, err, any, if◌then◌else◌,
}
use libra_flux.Base.Text.{GoString, codes, ◌=s◌}
use libra_flux.Base.Split.{sort_strings, insert_sorted}
use libra_flux.Config.Types.{Config, Service}
use libra_flux.Config.EnvVars.{
  is_variable_char, closing, reference, piece, pieces, is_set, missing, replaced, resolve_env_vars,
}
use libra_flux.Config.References.{RefersTo}
use libra_flux.Config.Missing.{Once, among, reported, resolve_env_vars-reported}
use libra_flux.Config.Loader.{
  Source, read_resolved, services_under, load_service_config, include_loop, include_pattern,
  include_files, load_config,
}
use libra_flux.Config.Loading.{gathered, included, load_config-gathered}
use libra_flux.Tests.Fixtures.{one_service, service_with}

abbrev only_user : GoString → Option GoString
only_user v = if v =s codes "USER" then some (codes "ops") else none

abbrev greeting : GoString
greeting = codes "${USER} $${HOST}: ${HOST} ${} $"

resolve_env_vars-reported_example :
    Once (reported (resolve_env_vars only_user greeting))
    × ((n : GoString)
        → (among n (reported (resolve_env_vars only_user greeting)) ≡ true)
          ↔ (RefersTo n greeting × (only_user n ≡ none)))
resolve_env_vars-reported_example = resolve_env_vars-reported only_user greeting

-- `HOST` is reported, and once.
reports_host : resolve_env_vars only_user greeting ≡ err (codes "HOST" ∷ [])
unfolding is_variable_char closing reference piece pieces is_set missing replaced resolve_env_vars
    any ◌=s◌
reports_host = refl

abbrev main_config : Config
main_config = record one_service { include = codes "d/*.yaml"; services = [] }

-- The file system has the main file `m`, and the file `s`, which has a service.
abbrev source : Source (Unit {0})
source = record {
  read_file = λ p. ok p;
  lookup_env = only_user;
  top_keys = λ t. if t =s codes "m" then ok (codes "include" ∷ []) else ok (codes "services" ∷ []);
  decode = λ t. ok main_config;
  decode_services = λ t. ok (service_with [] ∷ []);
  is_absolute = λ p. false;
  beside = λ path p. p;
  glob = λ p. ok (codes "s" ∷ []);
}

loads :
    load_config source (codes "m")
    ≡ ok (record one_service { include = codes "d/*.yaml"; services = service_with [] ∷ [] })
unfolding read_resolved services_under load_service_config include_loop include_pattern
    include_files load_config is_variable_char closing reference piece pieces is_set missing
    replaced resolve_env_vars any ◌=s◌ sort_strings insert_sorted
loads = refl

load_config-gathered_example :
    (text : GoString) × (keys : List GoString) × (c : Config) × (ps : List GoString) × (ss : List
      Service)
    × (read_resolved source (codes "m") ≡ ok text)
    × (source.top_keys text ≡ ok keys)
    × (any keys (λ k. k =s codes "services") ≡ false)
    × (source.decode text ≡ ok c)
    × (included source (codes "m") c ≡ ok ps)
    × (gathered source ps ≡ ok ss)
    × (record one_service { include = codes "d/*.yaml"; services = service_with [] ∷ [] }
        ≡ record c { services = c.services ++ ss })
load_config-gathered_example = load_config-gathered source (codes "m") loads
