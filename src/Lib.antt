-- ===== src/Lib.antt =====
-- LibraFlux is a layer-4 load balancer for Linux: a daemon that holds a virtual address decides, by
-- whether the address is present on its network interface, if the kernel's IPVS table is programmed with the
-- configured services, with the weight of each backend following its health.
--
-- The parts, and how they act on each other:
--
-- * `Config` (internal/config): the records of types.go (`Config.Types`), `Validate` of validator.go
--   (`Config.Validator`, the names in `Config.Names`), and the check of writer.go (`Config.Writer`). `Validate`
--   writes defaults into its argument: here it returns the error or nil together with the
--   configuration as it is then. `Config.EnvVars` and `Config.Loader` are loader.go over a file system
--   and a decoder, `Config.Missing` and `Config.Loading` what they return, `Config.References` the matches
--   of the pattern. `Config.Soundness`,
--   `Config.Services` and `Config.Defaults` say what an acceptable configuration is, without the
--   order of the tests.
-- * `Health` (internal/health): `Check` of checker.go and the runner of scheduler.go
--   (`Health.Runner`: `tick` is `update`, the part under the lock, then `notices`, the calls of the
--   observer), `Start` and `Stop` (`Health.Scheduler`). `Health.Lifecycle` has the goroutines as a step
--   relation: a runner's tick, its end, the closing of its channel, and calls of `Start`, in any order.
-- * `Ipvs` (internal/ipvs): the records and keys of types.go (`Ipvs.Types`), the interface of manager.go
--   over a state of any type (`Ipvs.Manager`), `expandConfig` (`Ipvs.Expand`) and the rest of reconciler.go
--   (`Ipvs.Reconciler`), cache.go (`Ipvs.Cache`) and manager_linux.go over a handle of the netlink
--   library (`Ipvs.Linux`). `Ipvs.Kernel` and `Ipvs.Laws` state what the reconciler
--   relies on of a manager and of the order of a range over a map: that each call succeeds is an
--   assumption of the theorems that name it, since the reconciler logs or returns an error and goes on
--   or stops. The cache satisfies these only in states that agree with its manager; it is
--   compared with the manager by its replies.
-- * `Daemon` (internal/daemon/engine.go): `applyEffectiveWeights` and the health targets
--   (`Daemon.Weights`), `calculateBackoff` (`Daemon.Backoff`), the engine's fields (`Daemon.Engine`), the
--   handlers (`Daemon.Handlers`), and the loop of `Run` as a sequence of events (`Daemon.Loop`). A handler
--   takes the engine and a world on which `Apply` acts; what it asks of the clock, the network, the
--   loader and the hash is an argument. `tryReconcile` releases the engine's lock while `Apply` runs:
--   `begin_reconcile` and `finish_reconcile` are its two locked regions, and `Daemon.Races` puts an
--   observer's call between them.
-- * `Shell` (internal/shell): the lines of the service mode (`Shell.ServiceMode`, with the numbers and ranges
--   of `Shell.Parsing`), the staged changes of config_mode.go (`Shell.ConfigMode`) and their commit
--   (`Shell.Commit`, with `WriteServiceConfig` of internal/config/writer.go), the modes of shell.go
--   (`Shell.Session`), commands.go (`Shell.Commands`), `ExecuteLine` and `Run` (`Shell.Lines`), help.go and
--   completion.go (`Shell.Help`). A handler takes the shell and a world, and gives a `Turn`: the error,
--   the shell, the world and the lines that are printed. The files of the configuration are an
--   interface, `Store`, which `Shell.FileStore` fills with the loader, and so is the lock, `Locking`,
--   which `Shell.LockManager` fills.
-- * lock.go (`Shell.Lock`, and `Break` in `Shell.Breaking`) is over files that are a path, inodes with their
--   contents, and the open files that have the locks of inodes. `Shell.Calls` puts the calls of
--   sessions in any order, each as one step; `Shell.Gap` takes `Release` apart.
-- * `System` (internal/system): the managed block of frr.go (`System.Frr`, over the searches and slices of
--   `System.Index`), sysctl.go and tuning.go (`System.Sysctl`).
-- * `Observability` (internal/observability): the calls of logger.go as the lines and messages that they write
--   (`Observability.Logging`), the constructors of influx.go and prometheus.go and the points
--   (`Observability.Outputs`).
--
-- `Base` has what the parts share: tests on numbers, Go's strings as lists of code points, maps as
-- lists of entries, decimal numerals, and results with an error. `Tests` evaluates definitions and
-- applies theorems at concrete inputs, among them a manager that keeps a table, and the manager of
-- manager_linux.go over a handle that does.
--
-- Bounds: an `int` is an integer of any size but where the source reads it (`Atoi`, 64 bits), converts it (`uint16`) or
-- multiplies durations (64 bits, wrapping). Ports and counters of the cache are natural numbers, with
-- the width of the counters written out. The wait of `Break` has fuel: 101 rounds, since each of them
-- sleeps 50 ms of 5 seconds. The digits of a number n have the fuel n + 1. Every other loop follows a
-- list, a text or a count of rounds.
--
-- Parameters, since they are no code of the repository: package net (parsing and printing of
-- addresses, dialling), the clock, the order of a range over a map, the netlink library, the
-- file system, package filepath, the YAML decoder and encoder, the JSON of the lock's metadata, the
-- processes of the system, and the hash of the configuration. Text
-- operations are on code points, with the letters and blanks of ASCII.
--
-- Not modelled: the servers and clients of the metrics, their registry and the audit events
-- (internal/observability), a failure to remove the path of the lock, calls of the cache that overlap, the questions of internal/system/interfaces.go and the report of doctor.go, the lock on Windows, the cancellation of
-- the shell's context, signals, and the scripts. The period of the daemon's ticker after a reload,
-- which no handler reads, is left out.

pub mod Base
pub mod Health
pub mod Config
pub mod Ipvs
pub mod Daemon
pub mod Shell
pub mod System
pub mod Observability
mod Tests
