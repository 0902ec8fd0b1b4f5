-- ===== src/Config/Services.antt =====
-- internal/config/validator.go: exactly which lists of services `validateServices` accepts.
use libra_flux.Base.{
  ℕ, suc, ◌≡◌, refl, ◌≢◌, ◌↔◌, ◌⊎◌, ◌≤◌, Bool, true, false, not, ◌&&◌, ◌||◌, List, [], ◌∷◌, arith,
  ℤ, pos, ◌≤ℤ◌, ok, >>=-eq-ok, length, All, ltb,
}
use libra_flux.Base.Text.{GoString, ◌=s◌, =s_iff, codes, to_lower}
use libra_flux.Base.Assoc.{Assoc, has, insert, has-insert, string_eq}
use libra_flux.Config.Checks.{fail_iff, seq_iff, ok_iff}
use libra_flux.Config.Types.{PortRange, Backend, HealthCheck, Service}
use libra_flux.Config.Names.{is_valid_name, is_valid_name-matches_name, IsName, matches_name_iff}
use libra_flux.Config.Validator.{
  invalid_protocol, invalid_scheduler, no_ports, invalid_service_name, service_name_too_long,
  duplicate_service_name, is_empty, one_of, schedulers, validate_ports, validate_ranges,
  validate_backend, validate_backends, validate_health, validate_body, validate_service,
  services_loop, validate_services,
}

abbrev pub IsPort : ℤ → Type 0
IsPort p = (pos 1 ≤ℤ p) × (p ≤ℤ pos 65535)

abbrev pub RangeOk : PortRange → Type 0
RangeOk r = IsPort r.start × IsPort r.end × (r.start ≤ℤ r.end)

-- A port of 0 stands for the service's port.
abbrev pub BackendOk : (GoString → Bool) → Backend → Type 0
BackendOk is_ip b =
    (is_ip b.address ≡ true) × (pos 1 ≤ℤ b.weight) × ((b.port ≡ pos 0) ⊎ IsPort b.port)

pub record HealthOk (h : HealthCheck) : Type 0 where
  pub type_ok : to_lower h.type ≡ codes "tcp"
  pub port_ok : IsPort h.port
  pub interval_ok : pos 100 ≤ℤ h.interval_ms
  pub timeout_ok : pos 100 ≤ℤ h.timeout_ms
  pub fail_ok : pos 1 ≤ℤ h.fail_after
  pub recover_ok : pos 1 ≤ℤ h.recover_after

-- a scheduler of the kernel that the program uses
abbrev pub IsScheduler : GoString → Type 0
IsScheduler x = (x ≡ codes "rr") ⊎ ((x ≡ codes "wrr") ⊎ (x ≡ codes "sh"))

pub record BodyOk (is_ip : GoString → Bool) (s : Service) : Type 0 where
  pub protocol_ok : (to_lower s.protocol ≡ codes "tcp") ⊎ (to_lower s.protocol ≡ codes "udp")
  pub scheduler_ok : IsScheduler (to_lower s.scheduler)
  pub some_port : (s.ports ≢ []) ⊎ (s.port_ranges ≢ [])
  pub ports_ok : All IsPort s.ports
  pub ranges_ok : All RangeOk s.port_ranges
  pub backends_ok : All (BackendOk is_ip) s.backends
  pub health_ok : s.health.enabled ≡ true → HealthOk s.health

pub record ServiceOk (is_ip : GoString → Bool) (s : Service) : Type 0 where
  pub name_ok : IsName s.name
  pub name_short : length s.name ≤ 64
  pub body_ok : BodyOk is_ip s

pub validate_ports_iff :
    (name : GoString) (ps : List ℤ) → (validate_ports name ps ≡ ok tt) ↔ All IsPort ps
unfolding validate_ports
validate_ports_iff name [] = ground arith
validate_ports_iff name (p ∷ ps) = ground (arith, validate_ports_iff name ps)

pub validate_ranges_iff :
    (name : GoString) (rs : List PortRange) → (validate_ranges name rs ≡ ok tt) ↔ All RangeOk rs
unfolding validate_ranges
validate_ranges_iff name [] = ground arith
validate_ranges_iff name (r ∷ rs) = ground (arith, validate_ranges_iff name rs)

validate_backend_iff :
    (is_ip : GoString → Bool) (name : GoString) (j : ℕ) (b : Backend)
    → (validate_backend is_ip name j b ≡ ok tt) ↔ BackendOk is_ip b
unfolding validate_backend
validate_backend_iff is_ip name j b = ground arith

validate_backends_iff :
    (is_ip : GoString → Bool) (name : GoString) (j : ℕ) (bs : List Backend)
    → (validate_backends is_ip name j bs ≡ ok tt) ↔ All (BackendOk is_ip) bs
unfolding validate_backends
validate_backends_iff is_ip name j [] = ground arith
validate_backends_iff is_ip name j (b ∷ bs) =
    seq_iff (validate_backend_iff is_ip name j b) (validate_backends_iff is_ip name (suc j) bs)

validate_health_iff :
    (name : GoString) (h : HealthCheck)
    → (validate_health name h ≡ ok tt) ↔ (h.enabled ≡ true → HealthOk h)
unfolding validate_health
validate_health_iff name h = ground (arith, =s_iff (to_lower h.type) (codes "tcp"))

protocol_iff :
    (p : GoString)
    → ((not (p =s codes "tcp") && not (p =s codes "udp")) ≡ false)
      ↔ ((p ≡ codes "tcp") ⊎ (p ≡ codes "udp"))
protocol_iff p = ground (arith, =s_iff p (codes "tcp"), =s_iff p (codes "udp"))

IsScheduler-iff : (x : GoString) → (not (one_of schedulers x) ≡ false) ↔ IsScheduler x
unfolding one_of
IsScheduler-iff x =
    ground (arith, =s_iff x (codes "rr"), =s_iff x (codes "wrr"), =s_iff x (codes "sh"))

some_port_iff :
    (ps : List ℤ) (rs : List PortRange)
    → ((is_empty ps && is_empty rs) ≡ false) ↔ ((ps ≢ []) ⊎ (rs ≢ []))
some_port_iff [] [] = ground arith
some_port_iff (p ∷ ps) rs = ground arith
some_port_iff [] (r ∷ rs) = ground arith

-- The tests of one service, but for those of its name, pass exactly when its parts are well formed.
validate_body_iff :
    (is_ip : GoString → Bool) (s : Service) → (validate_body is_ip s ≡ ok tt) ↔ BodyOk is_ip s
unfolding validate_body
validate_body_iff is_ip s =
    let parts =
      seq_iff (fail_iff (invalid_protocol s.name s.protocol) (protocol_iff (to_lower s.protocol))) (
        seq_iff
          (fail_iff (invalid_scheduler s.name s.scheduler) (IsScheduler-iff (to_lower s.scheduler)))
          (seq_iff (fail_iff (no_ports s.name) (some_port_iff s.ports s.port_ranges)) (
            seq_iff (validate_ports_iff s.name s.ports) (
              seq_iff (validate_ranges_iff s.name s.port_ranges) (
                seq_iff (validate_backends_iff is_ip s.name 0 s.backends)
                  (validate_health_iff s.name s.health)))))) in
    (
      λ h. to (parts.0 h),
      λ b. parts.1 (
        b.protocol_ok,
        (b.scheduler_ok, (b.some_port, (b.ports_ok, (b.ranges_ok, (b.backends_ok, b.health_ok))))),
      ),
    )
  where
    to :
        ((to_lower s.protocol ≡ codes "tcp") ⊎ (to_lower s.protocol ≡ codes "udp"))
          × (IsScheduler (to_lower s.scheduler)
              × (((s.ports ≢ []) ⊎ (s.port_ranges ≢ []))
                  × (All IsPort s.ports
                      × (All RangeOk s.port_ranges
                          × (All (BackendOk is_ip) s.backends
                              × (s.health.enabled ≡ true → HealthOk s.health))))))
        → BodyOk is_ip s
    to (a, (b, (c, (d, (e, (f, g)))))) = record {
      protocol_ok = a;
      scheduler_ok = b;
      some_port = c;
      ports_ok = d;
      ranges_ok = e;
      backends_ok = f;
      health_ok = g;
    }

-- Some service in the list has the name.
abbrev pub name_taken : GoString → List Service → Bool
name_taken n [] = false
name_taken n (s ∷ ss) = (n =s s.name) || name_taken n ss

abbrev pub DistinctNames : List Service → Type 0
DistinctNames [] = Unit
DistinctNames (s ∷ ss) = (name_taken s.name ss ≡ false) × DistinctNames ss

-- No service has a name that was seen before.
abbrev Unseen : Assoc GoString Bool → List Service → Type 0
Unseen seen [] = Unit
Unseen seen (s ∷ ss) = (has s.name seen ≡ false) × Unseen seen ss

Unseen-insert :
    (n : GoString) (seen : Assoc GoString Bool) (ss : List Service)
    → Unseen (insert n true seen) ss ↔ ((name_taken n ss ≡ false) × Unseen seen ss)
Unseen-insert n seen [] = ground arith
Unseen-insert n seen (s ∷ ss) =
    ground (arith, has-insert n s.name true seen, Unseen-insert n seen ss)

pub IsName-iff : (n : GoString) → (not (is_valid_name n) ≡ false) ↔ IsName n
IsName-iff n =
    let same = is_valid_name-matches_name n in
    let named = matches_name_iff n in
    (λ h. named.0 (ground (arith, same, h)), λ h. ground (arith, same, named.1 h))

short_iff : (n : GoString) → (ltb 64 (length n) ≡ false) ↔ (length n ≤ 64)
short_iff n = ground arith

validate_service_iff :
    (is_ip : GoString → Bool) (i : ℕ) (seen : Assoc GoString Bool) (s : Service)
    {more : Assoc GoString Bool}
    → (validate_service is_ip i seen s ≡ ok more)
      ↔ (ServiceOk is_ip s × (has s.name seen ≡ false) × (more ≡ insert s.name true seen))
unfolding validate_service
validate_service_iff is_ip i seen s {more} =
    let parts = seq_iff (fail_iff (invalid_service_name i s.name) (IsName-iff s.name)) (
      seq_iff (fail_iff (service_name_too_long i s.name) (short_iff s.name)) (
        seq_iff (fail_iff (duplicate_service_name s.name) ((λ h. h), (λ h. h)))
          (seq_iff (validate_body_iff is_ip s) (ok_iff (insert s.name true seen) more)))) in
    (λ h. to (parts.0 h), λ h. parts.1 (h.0.name_ok, (h.0.name_short, (h.1, (h.0.body_ok, h.2)))))
  where
    to :
        IsName s.name
          × ((length s.name ≤ 64)
              × ((has s.name seen ≡ false) × (BodyOk is_ip s × (more ≡ insert s.name true seen))))
        → ServiceOk is_ip s × (has s.name seen ≡ false) × (more ≡ insert s.name true seen)
    to (a, (b, (c, (d, e)))) = (record { name_ok = a; name_short = b; body_ok = d }, c, e)

services_loop_iff :
    (is_ip : GoString → Bool) (i : ℕ) (seen : Assoc GoString Bool) (ss : List Service)
    → (services_loop is_ip i seen ss ≡ ok tt)
      ↔ (All (ServiceOk is_ip) ss × DistinctNames ss × Unseen seen ss)
unfolding services_loop
services_loop_iff is_ip i seen [] = ground arith
services_loop_iff is_ip i seen (s ∷ ss) =
    let more = insert s.name true seen in
    let service = validate_service_iff is_ip i seen s {more = more} in
    let rest = services_loop_iff is_ip (suc i) more ss in
    let fresh = Unseen-insert s.name seen ss in
    (
      λ h.
          let (m, one, two) =
            >>=-eq-ok (validate_service is_ip i seen s) (λ m. services_loop is_ip (suc i) m ss) h in
          let (fine, unseen, same) = (validate_service_iff is_ip i seen s {more = m}).0 one in
          let (all, names, others) = rest.0 (rw same at two) in
          let (untaken, unseen_ss) = fresh.0 others in
          ((fine, all), (untaken, names), (unseen, unseen_ss)),
      λ h.
          let one = service.1 (h.0.0, h.2.0, refl) in
          rw one (rest.1 (h.0.1, h.1.1, fresh.1 (h.1.0, h.2.1))),
    )

Unseen-nil : (ss : List Service) → Unseen [] ss
unfolding has
Unseen-nil [] = tt
Unseen-nil (s ∷ ss) = (refl, Unseen-nil ss)

-- `validateServices` accepts a list of services exactly when each is well formed and no two have one
-- name.
pub validate_services_iff :
    (is_ip : GoString → Bool) (ss : List Service)
    → (validate_services is_ip ss ≡ ok tt) ↔ (All (ServiceOk is_ip) ss × DistinctNames ss)
unfolding validate_services
validate_services_iff is_ip ss =
    let loop = services_loop_iff is_ip 0 [] ss in
    (λ h. ((loop.0 h).0, (loop.0 h).1), λ h. loop.1 (h.0, h.1, Unseen-nil ss))
