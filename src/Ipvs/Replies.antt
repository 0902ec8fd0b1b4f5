-- ===== src/Ipvs/Replies.antt =====
-- internal/ipvs/cache.go: traces of calls, and the replies of the cache and of the inner manager.
use libra_flux.Base.{◌≡◌, Option, some, List, [], ◌∷◌, ℤ, Result}
use libra_flux.Base.Text.{GoString}
use libra_flux.Base.Assoc.{string_eq}
use libra_flux.Ipvs.Types.{Net, Service, Destination, service_key}
use libra_flux.Ipvs.Manager.{Manager, Slice}
use libra_flux.Ipvs.Cache.{CachedManager, write, get_services, get_destinations}

-- A call of the manager interface.
pub data Call : Type 0 where
  services : Call
  destinations : Service → Call
  create_s update_s delete_s : Service → Call
  create_d update_d delete_d : Service → Destination → Call

-- What a call returns.
pub data Reply : Type 0 where
  service_list : Result GoString (Slice Service) → Reply
  destination_list : Result GoString (Slice Destination) → Reply
  outcome : Option GoString → Reply

-- Each call of the trace comes with the two readings of the clock that it may make.
pub record Timed : Type 0 where
  pub call : Call
  pub now : ℤ
  pub later : ℤ

module _ {S : Type 0} (m : Manager S) where
  unfoldable pub run_inner : Call → S → Reply × S
  run_inner services s = let (r, t) = m.get_services s in (service_list r, t)
  run_inner (destinations svc) s = let (r, t) = m.get_destinations svc s in (destination_list r, t)
  run_inner (create_s svc) s = let (e, t) = m.create_service svc s in (outcome e, t)
  run_inner (update_s svc) s = let (e, t) = m.update_service svc s in (outcome e, t)
  run_inner (delete_s svc) s = let (e, t) = m.delete_service svc s in (outcome e, t)
  run_inner (create_d svc d) s = let (e, t) = m.create_destination svc d s in (outcome e, t)
  run_inner (update_d svc d) s = let (e, t) = m.update_destination svc d s in (outcome e, t)
  run_inner (delete_d svc d) s = let (e, t) = m.delete_destination svc d s in (outcome e, t)

  -- The replies to a trace of calls.
  unfoldable pub replies_inner : List Timed → S → List Reply
  replies_inner [] s = []
  replies_inner (c ∷ cs) s = let (r, t) = run_inner c.call s in r ∷ replies_inner cs t

  module _ (net : Net) where
    unfoldable pub run_cached : Timed → CachedManager S → Reply × CachedManager S
    run_cached c s = elim c.call [
      | services ↦ let (r, t) = get_services net m c.now c.later s in (service_list r, t)
      | destinations svc ↦
          let (r, t) = get_destinations net m c.now c.later svc s in (destination_list r, t)
      | create_s svc ↦ let (e, t) = write (m.create_service svc) s in (outcome e, t)
      | update_s svc ↦ let (e, t) = write (m.update_service svc) s in (outcome e, t)
      | delete_s svc ↦ let (e, t) = write (m.delete_service svc) s in (outcome e, t)
      | create_d svc d ↦ let (e, t) = write (m.create_destination svc d) s in (outcome e, t)
      | update_d svc d ↦ let (e, t) = write (m.update_destination svc d) s in (outcome e, t)
      | delete_d svc d ↦ let (e, t) = write (m.delete_destination svc d) s in (outcome e, t)
    ]

    unfoldable pub replies_cached : List Timed → CachedManager S → List Reply
    replies_cached [] s = []
    replies_cached (c ∷ cs) s = let (r, t) = run_cached c s in r ∷ replies_cached cs t

-- What the cache relies on: reads change nothing, the backends of a service are found by its key, and
-- a write that fails has changed nothing.
pub record WellBehaved {S : Type 0} (m : Manager S) (net : Net) : Type 0 where
  pub services_pure : (s : S) → (m.get_services s).1 ≡ s
  pub destinations_pure : (svc : Service) (s : S) → (m.get_destinations svc s).1 ≡ s
  pub found_by_key :
      (svc svc' : Service) (s : S)
      → service_key net svc ≡ service_key net svc'
      → (m.get_destinations svc s).0 ≡ (m.get_destinations svc' s).0
  pub create_s_atomic :
      (svc : Service) (s : S) (x : GoString)
      → (m.create_service svc s).0 ≡ some x
      → (m.create_service svc s).1 ≡ s
  pub update_s_atomic :
      (svc : Service) (s : S) (x : GoString)
      → (m.update_service svc s).0 ≡ some x
      → (m.update_service svc s).1 ≡ s
  pub delete_s_atomic :
      (svc : Service) (s : S) (x : GoString)
      → (m.delete_service svc s).0 ≡ some x
      → (m.delete_service svc s).1 ≡ s
  pub create_d_atomic :
      (svc : Service) (d : Destination) (s : S) (x : GoString)
      → (m.create_destination svc d s).0 ≡ some x
      → (m.create_destination svc d s).1 ≡ s
  pub update_d_atomic :
      (svc : Service) (d : Destination) (s : S) (x : GoString)
      → (m.update_destination svc d s).0 ≡ some x
      → (m.update_destination svc d s).1 ≡ s
  pub delete_d_atomic :
      (svc : Service) (d : Destination) (s : S) (x : GoString)
      → (m.delete_destination svc d s).0 ≡ some x
      → (m.delete_destination svc d s).1 ≡ s
