-- ===== src/Tests/Handle.antt =====
-- A handle of the netlink library over lists of its services and destinations, the latest entry first:
-- an earlier entry under the same key counts no more. The program's own manager over it keeps the
-- laws that the reconciler relies on.
use libra_flux.Base.{
  ◌≡◌, refl, sym, ◌∙◌, Option, none, some, List, [], ◌∷◌, ◌++◌, map, All, arith, ℤ, ok,
  if◌then◌else◌,
}
use mathlib.Core.Path.{subst}
use libra_flux.Base.Text.{GoString, ◌=s◌, =s_iff, codes}
use libra_flux.Base.Assoc.{Assoc, lookup, insert, lookup-insert, string_eq}
use libra_flux.Ipvs.Types.{Service, Destination, LibService, LibDestination, service_key, dest_key}
use libra_flux.Ipvs.Manager.{Manager}
use libra_flux.Ipvs.Linux.{
  Handle, to_service, from_service, to_destination, from_destination, real_manager,
  to_service-from_service,
}
use libra_flux.Ipvs.Reconciler.{index_services, index_destinations}
use libra_flux.Ipvs.Kernel.{View, IsWire, Wrote, DestinationLaws}
use libra_flux.Ipvs.Upsert.{weight_in}
use libra_flux.Ipvs.Laws.{scheduler_in, Placed, Rescheduled, ServiceLaws}
use libra_flux.Tests.Fixtures.{text_net}

abbrev row_key : LibService → GoString
row_key l = service_key text_net (to_service l)

abbrev column_key : LibDestination → GoString
column_key d = dest_key text_net (to_destination d)

pub record Rows : Type 0 where
  pub services : List LibService
  pub backends : GoString → List LibDestination

-- The first service with a key, and the first destination with one.
abbrev pub row_scheduler : GoString → List LibService → Option GoString
row_scheduler k [] = none
row_scheduler k (l ∷ ls) =
    if row_key l =s k then some (to_service l).scheduler else row_scheduler k ls

abbrev pub row_weight : GoString → List LibDestination → Option ℤ
row_weight k [] = none
row_weight k (d ∷ ds) =
    if column_key d =s k then some (to_destination d).weight else row_weight k ds

abbrev without_row : GoString → List LibService → List LibService
without_row k [] = []
without_row k (l ∷ ls) = let rest = without_row k ls in if row_key l =s k then rest else l ∷ rest

abbrev without_backend : GoString → List LibDestination → List LibDestination
without_backend k [] = []
without_backend k (d ∷ ds) =
    let rest = without_backend k ds in if column_key d =s k then rest else d ∷ rest

-- The earliest entry first.
abbrev earliest : {A : Type 0} → List A → List A
earliest [] = []
earliest (x ∷ xs) = earliest xs ++ x ∷ []

abbrev set_backends :
    GoString
    → List LibDestination
    → (GoString → List LibDestination)
    → GoString
    → List LibDestination
set_backends j ds old i = if i =s j then ds else old i

abbrev if_there : {A : Type 0} → Option A → Rows → Rows → Option GoString × Rows
if_there none t t' = (some (codes "no such entry"), t)
if_there (some a) t t' = (none, t')

abbrev if_absent : {A : Type 0} → Option A → Rows → Rows → Option GoString × Rows
if_absent none t t' = (none, t')
if_absent (some a) t t' = (some (codes "entry exists"), t)

abbrev with_backends : GoString → (List LibDestination → List LibDestination) → Rows → Rows
with_backends j f t = record t { backends = set_backends j (f (t.backends j)) t.backends }

abbrev pub rows_handle : Handle Rows
rows_handle = record {
  get_services = λ t. (ok (earliest t.services), t);
  get_destinations = λ l t. (ok (earliest (t.backends (row_key l))), t);
  new_service = λ l t.
      if_absent (row_scheduler (row_key l) t.services) t
        (record { services = l ∷ t.services; backends = set_backends (row_key l) [] t.backends });
  update_service = λ l t.
      if_there (row_scheduler (row_key l) t.services) t (record t { services = l ∷ t.services });
  del_service = λ l t. if_there (row_scheduler (row_key l) t.services) t (record {
    services = without_row (row_key l) t.services;
    backends = set_backends (row_key l) [] t.backends;
  });
  new_destination = λ l d t.
      if_absent (row_weight (column_key d) (t.backends (row_key l))) t
        (with_backends (row_key l) (λ ds. d ∷ ds) t);
  update_destination = λ l d t.
      if_there (row_weight (column_key d) (t.backends (row_key l))) t
        (with_backends (row_key l) (λ ds. d ∷ ds) t);
  del_destination = λ l d t.
      if_there (row_weight (column_key d) (t.backends (row_key l))) t
        (with_backends (row_key l) (without_backend (column_key d)) t);
}

abbrev pub rows_manager : Manager Rows
rows_manager = real_manager rows_handle

abbrev pub rows_view : View Rows
rows_view = record {
  scheduler_at = λ k t. row_scheduler k t.services;
  weight_at = λ j k t. row_weight k (t.backends j);
}

row_scheduler-without :
    (k i : GoString) (ls : List LibService)
    → row_scheduler i (without_row k ls) ≡ (if i =s k then none else row_scheduler i ls)
row_scheduler-without k i [] = ground arith
row_scheduler-without k i (l ∷ ls) =
    ground
      (arith, row_scheduler-without k i ls, =s_iff i k, =s_iff (row_key l) k, =s_iff (row_key l) i)

row_weight-without :
    (k i : GoString) (ds : List LibDestination)
    → row_weight i (without_backend k ds) ≡ (if i =s k then none else row_weight i ds)
row_weight-without k i [] = ground arith
row_weight-without k i (d ∷ ds) =
    ground (
      arith,
      row_weight-without k i ds,
      =s_iff i k,
      =s_iff (column_key d) k,
      =s_iff (column_key d) i,
    )

index_services-append :
    (ls ms : List LibService) (m : Assoc GoString Service)
    → index_services text_net (map to_service (ls ++ ms)) m
      ≡ index_services text_net (map to_service ms) (index_services text_net (map to_service ls) m)
unfolding index_services
index_services-append [] ms m = refl
index_services-append (l ∷ ls) ms m =
    index_services-append ls ms (insert (row_key l) (to_service l) m)

index_destinations-append :
    (ds es : List LibDestination) (m : Assoc GoString Destination)
    → index_destinations text_net (map to_destination (ds ++ es)) m
      ≡ index_destinations text_net
          (map to_destination es)
          (index_destinations text_net (map to_destination ds) m)
unfolding index_destinations
index_destinations-append [] es m = refl
index_destinations-append (d ∷ ds) es m =
    index_destinations-append ds es (insert (column_key d) (to_destination d) m)

listed_scheduler :
    (k : GoString) (ls : List LibService)
    → scheduler_in k (index_services text_net (map to_service (earliest ls)) [])
      ≡ row_scheduler k ls
unfolding scheduler_in index_services lookup
listed_scheduler k [] = refl
listed_scheduler k (l ∷ ls) =
    let before = index_services text_net (map to_service (earliest ls)) [] in
    rw (index_services-append (earliest ls) (l ∷ []) [])
      (ground (arith, listed_scheduler k ls, lookup-insert (row_key l) k (to_service l) before))

listed_weight :
    (k : GoString) (ds : List LibDestination)
    → weight_in text_net k (index_destinations text_net (map to_destination (earliest ds)) [])
      ≡ row_weight k ds
unfolding weight_in index_destinations lookup
listed_weight k [] = refl
listed_weight k (d ∷ ds) =
    let before = index_destinations text_net (map to_destination (earliest ds)) [] in
    rw (index_destinations-append (earliest ds) (d ∷ []) [])
      (ground (arith, listed_weight k ds, lookup-insert (column_key d) k (to_destination d) before))

to_service-IsWire : (l : LibService) → IsWire (to_service l)
unfolding to_service
to_service-IsWire l = ground arith

listed-IsWire : (ls : List LibService) → All IsWire (map to_service ls)
listed-IsWire [] = tt
listed-IsWire (l ∷ ls) = (to_service-IsWire l, listed-IsWire ls)

-- The backends of one service were changed in one place.
backends_written :
    (j : GoString) (f : List LibDestination → List LibDestination) (k : GoString) (w : Option ℤ)
    (t : Rows)
    → ((l : GoString)
        → row_weight l (f (t.backends j)) ≡ (if l =s k then w else row_weight l (t.backends j)))
    → Wrote rows_view j k w t (none, with_backends j f t)
backends_written j f k w t here = record {
  no_error = refl;
  weights = λ i l. ground (arith, here l, =s_iff i j);
  services = λ i. refl;
}

row_created :
    (l : LibService) (t : Rows)
    → row_scheduler (row_key l) t.services ≡ none
    → Placed rows_view (row_key l) (some (to_service l).scheduler) t (rows_handle.new_service l t)
row_created l t h =
    rw (h, rows_handle)
      (record {
        no_error = refl;
        schedulers = λ i. ground (arith, =s_iff i (row_key l), =s_iff (row_key l) i);
        weights = λ i k. ground (arith, =s_iff i (row_key l));
      })

row_updated :
    (l : LibService) (t : Rows) {x : GoString}
    → row_scheduler (row_key l) t.services ≡ some x
    → Rescheduled rows_view (row_key l) (to_service l).scheduler t (rows_handle.update_service l t)
row_updated l t h =
    rw (h, rows_handle)
      (record {
        no_error = refl;
        schedulers = λ i. ground (arith, =s_iff i (row_key l), =s_iff (row_key l) i);
        weights = λ i k. refl;
      })

row_deleted :
    (l : LibService) (t : Rows) {x : GoString}
    → row_scheduler (row_key l) t.services ≡ some x
    → Placed rows_view (row_key l) none t (rows_handle.del_service l t)
row_deleted l t h =
    rw (h, rows_handle)
      (record {
        no_error = refl;
        schedulers = λ i. row_scheduler-without (row_key l) i t.services;
        weights = λ i k. ground (arith, =s_iff i (row_key l));
      })

backend_created :
    (l : LibService) (d : LibDestination) (t : Rows)
    → row_weight (column_key d) (t.backends (row_key l)) ≡ none
    → Wrote rows_view
        (row_key l)
        (column_key d)
        (some (to_destination d).weight)
        t
        (rows_handle.new_destination l d t)
backend_created l d t h =
    rw (h, rows_handle)
      (backends_written (row_key l) (λ ds. d ∷ ds) (column_key d) (some (to_destination d).weight) t
        (λ k. ground (arith, =s_iff k (column_key d), =s_iff (column_key d) k)))

backend_updated :
    (l : LibService) (d : LibDestination) (t : Rows) {w : ℤ}
    → row_weight (column_key d) (t.backends (row_key l)) ≡ some w
    → Wrote rows_view
        (row_key l)
        (column_key d)
        (some (to_destination d).weight)
        t
        (rows_handle.update_destination l d t)
backend_updated l d t h =
    rw (h, rows_handle)
      (backends_written (row_key l) (λ ds. d ∷ ds) (column_key d) (some (to_destination d).weight) t
        (λ k. ground (arith, =s_iff k (column_key d), =s_iff (column_key d) k)))

backend_deleted :
    (l : LibService) (d : LibDestination) (t : Rows) {w : ℤ}
    → row_weight (column_key d) (t.backends (row_key l)) ≡ some w
    → Wrote rows_view (row_key l) (column_key d) none t (rows_handle.del_destination l d t)
backend_deleted l d t h =
    rw (h, rows_handle)
      (backends_written (row_key l) (without_backend (column_key d)) (column_key d) none t
        (λ k. row_weight-without (column_key d) k (t.backends (row_key l))))

-- What holds at the service as it comes back from the library holds at the service.
at_wire :
    {svc : Service} (P : Service → Type 0) → IsWire svc → P (to_service (from_service svc)) → P svc
at_wire {svc} P wire h = subst P (to_service-from_service svc wire) h

to_wire :
    {svc : Service} (P : Service → Type 0) → IsWire svc → P svc → P (to_service (from_service svc))
to_wire {svc} P wire h = subst P (sym (to_service-from_service svc wire)) h

abbrev pub key : Service → GoString
key svc = service_key text_net svc

abbrev dest : Destination → GoString
dest d = dest_key text_net d

pub rows_laws : DestinationLaws rows_view text_net rows_manager
unfolding real_manager to_destination from_destination
rows_laws = record {
  created = λ svc d t wire hs hw.
      at_wire
        (λ s.
          Wrote rows_view (key s) (dest d) (some d.weight) t
            (rows_handle.new_destination (from_service svc) (from_destination d) t))
        wire
        (backend_created (from_service svc) (from_destination d) t
          (to_wire (λ s. row_weight (dest d) (t.backends (key s)) ≡ none) wire hw));
  updated = λ svc d t {w} {x} wire hs hw.
      at_wire
        (λ s.
          Wrote rows_view (key s) (dest d) (some d.weight) t
            (rows_handle.update_destination (from_service svc) (from_destination d) t))
        wire
        (backend_updated (from_service svc) (from_destination d) t
          (to_wire (λ s. row_weight (dest d) (t.backends (key s)) ≡ some w) wire hw));
  deleted = λ svc d t {w} {x} wire hs hw.
      at_wire
        (λ s.
          Wrote rows_view (key s) (dest d) none t
            (rows_handle.del_destination (from_service svc) (from_destination d) t))
        wire
        (backend_deleted (from_service svc) (from_destination d) t
          (to_wire (λ s. row_weight (dest d) (t.backends (key s)) ≡ some w) wire hw));
}

pub rows_services : ServiceLaws rows_view text_net rows_manager
unfolding real_manager
rows_services = record {
  created = λ svc t wire h.
      at_wire
        (λ s.
          Placed rows_view (key s) (some s.scheduler) t
            (rows_handle.new_service (from_service svc) t))
        wire
        (row_created (from_service svc) t
          (to_wire (λ s. row_scheduler (key s) t.services ≡ none) wire h));
  updated = λ svc t {x} wire h.
      at_wire
        (λ s.
          Rescheduled rows_view (key s) s.scheduler t
            (rows_handle.update_service (from_service svc) t))
        wire
        (row_updated (from_service svc) t
          (to_wire (λ s. row_scheduler (key s) t.services ≡ some x) wire h));
  deleted = λ svc t {x} wire h.
      at_wire (λ s. Placed rows_view (key s) none t (rows_handle.del_service (from_service svc) t))
        wire
        (row_deleted (from_service svc) t
          (to_wire (λ s. row_scheduler (key s) t.services ≡ some x) wire h));
  services_listed = λ t. (
    some (map to_service (earliest t.services)),
    refl,
    record { schedulers = λ i. refl; weights = λ i l. refl },
    listed-IsWire (earliest t.services),
    λ k. listed_scheduler k t.services,
  );
  destinations_listed = λ svc t {x} wire h. (
    some (map to_destination (earliest (t.backends (row_key (from_service svc))))),
    refl,
    record { schedulers = λ i. refl; weights = λ i l. refl },
    λ k.
        listed_weight k (t.backends (row_key (from_service svc)))
        ∙ at_wire
            (λ s.
              row_weight k (t.backends (row_key (from_service svc)))
              ≡ row_weight k (t.backends (key s)))
            wire refl,
  );
}
