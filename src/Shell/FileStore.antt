-- ===== src/Shell/FileStore.antt =====
-- internal/shell: the loader of `Config.Loader` as the `Store` that a configure mode uses, over the requests
-- to the file system.
use libra_flux.Base.{Option, List}
use libra_flux.Base.Text.{GoString}
use libra_flux.Config.Types.{Service}
use libra_flux.Config.Loader.{Source, LoadError, load_config}
use libra_flux.Shell.ConfigMode.{Store}

-- `source w` is what the loader reads in the world `w`.
unfoldable pub file_store :
    {E W : Type 0} (source : W → Source E) (mkdir : GoString → W → Option (LoadError E) × W)
    (write_services : GoString → List Service → W → Option (LoadError E) × W)
    (remove : GoString → W → Option (LoadError E) × W) (join_path : GoString → GoString → GoString)
    → Store (LoadError E) W
unfolding load_config
file_store source mkdir write_services remove join_path = record {
  load = λ path w. load_config (source w) path;
  mkdir = mkdir;
  write_services = write_services;
  remove = remove;
  join_path = join_path;
}
