-- ===== src/Tests/Kernel.antt =====
-- A manager that keeps its services and their destinations in lists, the latest entry first: an
-- earlier entry under the same key counts no more.
use libra_flux.Base.{Option, none, some, List, [], ◌∷◌, ◌++◌, ℤ, ok, if◌then◌else◌}
use libra_flux.Base.Text.{GoString, ◌=s◌, codes}
use libra_flux.Base.Assoc.{string_eq}
use libra_flux.Ipvs.Types.{Service, Destination, service_key, dest_key}
use libra_flux.Ipvs.Manager.{Manager}
use libra_flux.Tests.Fixtures.{text_net}

abbrev pub key_of : Service → GoString
key_of s = service_key text_net s

abbrev pub dest_of : Destination → GoString
dest_of d = dest_key text_net d

pub record Table : Type 0 where
  pub rows : List Service
  pub columns : GoString → List Destination

-- The first service with a key, and the first destination with one.
abbrev pub scheduler_of : GoString → List Service → Option GoString
scheduler_of k [] = none
scheduler_of k (s ∷ ss) = if key_of s =s k then some s.scheduler else scheduler_of k ss

abbrev pub dest_weight : GoString → List Destination → Option ℤ
dest_weight k [] = none
dest_weight k (d ∷ ds) = if dest_of d =s k then some d.weight else dest_weight k ds

abbrev without_service : GoString → List Service → List Service
without_service k [] = []
without_service k (s ∷ ss) =
    let rest = without_service k ss in if key_of s =s k then rest else s ∷ rest

abbrev without_dest : GoString → List Destination → List Destination
without_dest k [] = []
without_dest k (d ∷ ds) = let rest = without_dest k ds in if dest_of d =s k then rest else d ∷ rest

-- The earliest entry first.
abbrev earliest_service : List Service → List Service
earliest_service [] = []
earliest_service (s ∷ ss) = earliest_service ss ++ s ∷ []

abbrev pub earliest_dest : List Destination → List Destination
earliest_dest [] = []
earliest_dest (d ∷ ds) = earliest_dest ds ++ d ∷ []

abbrev set_column :
    GoString → List Destination → (GoString → List Destination) → GoString → List Destination
set_column j ds columns i = if i =s j then ds else columns i

abbrev pub unless_absent : {A : Type 0} → Option A → Table → Table → Option GoString × Table
unless_absent none t t' = (some (codes "no such entry"), t)
unless_absent (some a) t t' = (none, t')

abbrev pub unless_present : {A : Type 0} → Option A → Table → Table → Option GoString × Table
unless_present none t t' = (none, t')
unless_present (some a) t t' = (some (codes "entry exists"), t)

abbrev with_column : Service → (List Destination → List Destination) → Table → Table
with_column svc f t = record t {
  columns = set_column (key_of svc) (f (t.columns (key_of svc))) t.columns;
}

abbrev pub table_manager : Manager Table
table_manager = record {
  get_services = λ t. (ok (some (earliest_service t.rows)), t);
  get_destinations = λ svc t. (ok (some (earliest_dest (t.columns (key_of svc)))), t);
  create_service = λ svc t.
      unless_present (scheduler_of (key_of svc) t.rows) t
        (record { rows = svc ∷ t.rows; columns = set_column (key_of svc) [] t.columns });
  update_service = λ svc t.
      unless_absent (scheduler_of (key_of svc) t.rows) t (record t { rows = svc ∷ t.rows });
  delete_service = λ svc t. unless_absent (scheduler_of (key_of svc) t.rows) t (record {
    rows = without_service (key_of svc) t.rows;
    columns = set_column (key_of svc) [] t.columns;
  });
  create_destination = λ svc d t.
      unless_present (dest_weight (dest_of d) (t.columns (key_of svc))) t
        (with_column svc (λ ds. d ∷ ds) t);
  update_destination = λ svc d t.
      unless_absent (dest_weight (dest_of d) (t.columns (key_of svc))) t
        (with_column svc (λ ds. d ∷ ds) t);
  delete_destination = λ svc d t.
      unless_absent (dest_weight (dest_of d) (t.columns (key_of svc))) t
        (with_column svc (without_dest (dest_of d)) t);
}
