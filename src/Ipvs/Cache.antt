-- ===== src/Ipvs/Cache.antt =====
-- internal/ipvs/cache.go: the cache in front of a manager. The clock is an argument of each call, in
-- nanoseconds since some fixed instant; a call that fetches reads it once more, after the fetch.
-- Each call here is one step, and the calls come one after another. The code holds the lock for less:
-- between the read lock and the write lock of a read there is a gap, after which it looks at the
-- cache again (here the two looks are one), and a write calls the inner manager with no lock held
-- and takes the lock only to invalidate. What calls that overlap do is not modelled. Slices are
-- values, as the code's copies are.
use libra_flux.Base.{
  ℕ, ◌+◌, ◌*◌, ◌%◌, ◌^◌, Bool, true, false, not, ◌&&◌, Option, none, some, [], ℤ, pos, ltb_ℤ, eqb_ℤ,
  ◌-ℤ◌, millisecond, milliseconds, Result, ok, err, if◌then◌else◌,
}
use libra_flux.Base.Text.{GoString}
use libra_flux.Base.Assoc.{Assoc, lookup, insert, string_eq}
use libra_flux.Config.Types as Config
use libra_flux.Ipvs.Types.{Net, Service, Destination, service_key}
use libra_flux.Ipvs.Manager.{Manager, Slice}

pub record CacheConfig : Type 0 where
  pub enabled : Bool
  pub ttl : ℤ

unfoldable pub default_cache_config : CacheConfig
default_cache_config = record { enabled = true; ttl = pos (500 * millisecond) }

-- CacheConfigFromDaemonConfig
unfoldable pub from_daemon_config : Config.CacheConfig → CacheConfig
unfolding milliseconds default_cache_config
from_daemon_config cfg = record {
  enabled = cfg.enabled;
  ttl =
      if cfg.enabled && eqb_ℤ cfg.ttl_ms (pos 0)
      then default_cache_config.ttl
      else milliseconds cfg.ttl_ms;
}

-- `inner` is the state of the inner manager. A time of none is the zero Time, which no test of the
-- cache reads.
pub record CachedManager (S : Type 0) : Type 0 where
  pub inner : S
  pub ttl : ℤ
  pub enabled : Bool
  pub services : Slice Service
  pub dest_cache : Assoc GoString (Slice Destination)
  pub fetched_at : Option ℤ
  pub dest_fetched_at : Assoc GoString ℤ
  pub hits : ℕ
  pub misses : ℕ

unfoldable pub new_cached_manager : {S : Type 0} → S → CacheConfig → CachedManager S
new_cached_manager inner cfg = record {
  inner = inner;
  ttl = cfg.ttl;
  enabled = cfg.enabled;
  services = none;
  dest_cache = [];
  fetched_at = none;
  dest_fetched_at = [];
  hits = 0;
  misses = 0;
}

-- uint64
abbrev pub count_up : ℕ → ℕ
count_up n = (n + 1) % 2 ^ 64

-- time.Since(at) < ttl
abbrev pub fresh : ℤ → Option ℤ → ℤ → Bool
fresh now none ttl = false
fresh now (some at) ttl = ltb_ℤ (now -ℤ at) ttl

module _ {S : Type 0} where
  unfoldable pub is_valid : ℤ → CachedManager S → Bool
  is_valid now c = elim c.services [ none ↦ false | some ss ↦ fresh now c.fetched_at c.ttl ]

  unfoldable pub is_dest_valid : ℤ → GoString → CachedManager S → Bool
  is_dest_valid now key c = elim (lookup key c.dest_fetched_at) [
    | none ↦ false
    | some at ↦ elim (lookup key c.dest_cache) [
      | none ↦ false
      | some ds ↦ fresh now (some at) c.ttl
    ]
  ]

  unfoldable pub invalidate : CachedManager S → CachedManager S
  invalidate c = record c {
    services = none;
    dest_cache = [];
    dest_fetched_at = [];
    fetched_at = none;
  }

  -- What a writing call does with the outcome of the inner manager's.
  unfoldable pub after_write :
      CachedManager S → Option GoString × S → Option GoString × CachedManager S
  after_write c (none, inner) = (none, invalidate (record c { inner = inner }))
  after_write c (some x, inner) = (some x, record c { inner = inner })

  -- The six calls that write are one, given the inner manager's call.
  unfoldable pub write :
      (S → Option GoString × S) → CachedManager S → Option GoString × CachedManager S
  write call c = after_write c (call c.inner)

  -- What GetServices does with a fetched list, or with the error.
  unfoldable pub store_services :
      ℤ
      → CachedManager S
      → Result GoString (Slice Service) × S
      → Result GoString (Slice Service) × CachedManager S
  store_services later c (err x, inner) =
      (err x, record c { inner = inner; misses = count_up c.misses })
  store_services later c (ok ss, inner) = (
    ok ss,
    record c {
      inner = inner;
      services = ss;
      dest_cache = [];
      dest_fetched_at = [];
      fetched_at = some later;
      misses = count_up c.misses;
    },
  )

  -- What GetDestinations does with a fetched list, or with the error.
  unfoldable pub store_destinations :
      ℤ
      → GoString
      → CachedManager S
      → Result GoString (Slice Destination) × S
      → Result GoString (Slice Destination) × CachedManager S
  store_destinations later key c (err x, inner) =
      (err x, record c { inner = inner; misses = count_up c.misses })
  store_destinations later key c (ok ds, inner) = (
    ok ds,
    record c {
      inner = inner;
      dest_cache = insert key ds c.dest_cache;
      dest_fetched_at = insert key later c.dest_fetched_at;
      misses = count_up c.misses;
    },
  )

  -- A key that is missing from the map reads as nil.
  unfoldable pub cached_destinations : GoString → CachedManager S → Slice Destination
  cached_destinations key c = elim (lookup key c.dest_cache) [ none ↦ none | some ds ↦ ds ]

  -- With the cache off, the inner manager's result as it is.
  unfoldable pub pass_through : {A : Type 0} → CachedManager S → A × S → A × CachedManager S
  pass_through c (r, inner) = (r, record c { inner = inner })

  unfoldable pub stats : CachedManager S → ℕ × ℕ
  stats c = (c.hits, c.misses)

  module _ (net : Net) (m : Manager S) (now later : ℤ) where
    unfoldable pub get_services :
        CachedManager S → Result GoString (Slice Service) × CachedManager S
    get_services c =
        if not c.enabled
        then pass_through c (m.get_services c.inner)
        else if is_valid now c
        then (ok c.services, record c { hits = count_up c.hits })
        else store_services later c (m.get_services c.inner)

    unfoldable pub get_destinations :
        Service → CachedManager S → Result GoString (Slice Destination) × CachedManager S
    get_destinations svc c =
        let key = service_key net svc in
        if not c.enabled
        then pass_through c (m.get_destinations svc c.inner)
        else if is_dest_valid now key c
        then (ok (cached_destinations key c), record c { hits = count_up c.hits })
        else store_destinations later key c (m.get_destinations svc c.inner)

    -- The cache as a manager of its own.
    unfoldable pub cached : Manager (CachedManager S)
    unfolding get_services get_destinations write
    cached = record {
      get_services = get_services;
      get_destinations = get_destinations;
      create_service = λ svc. write (m.create_service svc);
      update_service = λ svc. write (m.update_service svc);
      delete_service = λ svc. write (m.delete_service svc);
      create_destination = λ svc d. write (m.create_destination svc d);
      update_destination = λ svc d. write (m.update_destination svc d);
      delete_destination = λ svc d. write (m.delete_destination svc d);
    }
