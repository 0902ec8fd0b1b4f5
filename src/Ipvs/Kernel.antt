-- ===== src/Ipvs/Kernel.antt =====
-- What the reconciler relies on of the manager that it is given (internal/ipvs/manager.go): the entries
-- of the kernel's table as the calls of `CreateDestination`, `UpdateDestination` and
-- `DeleteDestination` write them, and the order of a range over a map.
use libra_flux.Base.{◌≡◌, ◌⊎◌, ◌&&◌, Option, none, some, ℤ, if◌then◌else◌}
use libra_flux.Base.Text.{GoString, codes, ◌=s◌}
use libra_flux.Base.Assoc.{Assoc, lookup, Distinct, string_eq}
use libra_flux.Ipvs.Types.{Net, Service, Destination, service_key, dest_key}
use libra_flux.Ipvs.Manager.{Manager}
use libra_flux.Ipvs.Reconciler.{MapOrder}

-- The protocols that reach the library.
abbrev pub IsWire : Service → Type 0
IsWire svc = (svc.protocol ≡ codes "tcp") ⊎ (svc.protocol ≡ codes "udp")

-- What can be seen of a state: the scheduler of a service that there is, and the weight of a destination in one.
pub record View (S : Type 0) : Type 0 where
  pub scheduler_at : GoString → S → Option GoString
  pub weight_at : GoString → GoString → S → Option ℤ

module _ {S : Type 0} (v : View S) where
  -- A call succeeded, and wrote one weight and nothing else.
  pub record Wrote (j k : GoString) (w : Option ℤ) (s : S) (r : Option GoString × S) : Type 0 where
    pub no_error : r.0 ≡ none
    pub weights :
        (i l : GoString)
        → v.weight_at i l r.1 ≡ (if (i =s j) && (l =s k) then w else v.weight_at i l s)
    pub services : (i : GoString) → v.scheduler_at i r.1 ≡ v.scheduler_at i s

  -- On a service over tcp or udp that exists, a destination that is not there can be created, and one that is there
  -- can be updated and deleted.
  pub record DestinationLaws (net : Net) (m : Manager S) : Type 0 where
    pub created :
        (svc : Service) (d : Destination) (s : S) {x : GoString}
        → IsWire svc
        → v.scheduler_at (service_key net svc) s ≡ some x
        → v.weight_at (service_key net svc) (dest_key net d) s ≡ none
        → Wrote
            (service_key net svc)
            (dest_key net d)
            (some d.weight)
            s
            (m.create_destination svc d s)
    pub updated :
        (svc : Service) (d : Destination) (s : S) {w : ℤ} {x : GoString}
        → IsWire svc
        → v.scheduler_at (service_key net svc) s ≡ some x
        → v.weight_at (service_key net svc) (dest_key net d) s ≡ some w
        → Wrote
            (service_key net svc)
            (dest_key net d)
            (some d.weight)
            s
            (m.update_destination svc d s)
    pub deleted :
        (svc : Service) (d : Destination) (s : S) {w : ℤ} {x : GoString}
        → IsWire svc
        → v.scheduler_at (service_key net svc) s ≡ some x
        → v.weight_at (service_key net svc) (dest_key net d) s ≡ some w
        → Wrote (service_key net svc) (dest_key net d) none s (m.delete_destination svc d s)

-- A range over a map of destinations goes through each of its entries once.
pub record RangeLaws (order : MapOrder) : Type 0 where
  pub distinct : (m : Assoc GoString Destination) → Distinct m → Distinct (order.of_destinations m)
  pub same :
      (m : Assoc GoString Destination) (k : GoString)
      → Distinct m
      → lookup k (order.of_destinations m) ≡ lookup k m
