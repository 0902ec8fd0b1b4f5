-- ===== src/Ipvs/Manager.antt =====
-- internal/ipvs/manager.go: the interface, over a state that its calls change. An error is its text,
-- and a slice is nil or a list.
use libra_flux.Base.{Option, none, some, List, [], Result}
use libra_flux.Base.Text.{GoString}
use libra_flux.Ipvs.Types.{Service, Destination}

abbrev pub Slice : Type 0 → Type 0
Slice A = Option (List A)

-- The entries that a range over the slice goes through.
abbrev pub entries : {A : Type 0} → Slice A → List A
entries none = []
entries (some xs) = xs

pub record Manager (S : Type 0) : Type 0 where
  pub get_services : S → Result GoString (Slice Service) × S
  pub get_destinations : Service → S → Result GoString (Slice Destination) × S
  pub create_service : Service → S → Option GoString × S
  pub update_service : Service → S → Option GoString × S
  pub delete_service : Service → S → Option GoString × S
  pub create_destination : Service → Destination → S → Option GoString × S
  pub update_destination : Service → Destination → S → Option GoString × S
  pub delete_destination : Service → Destination → S → Option GoString × S
