-- ===== src/Health/Runner.antt =====
-- internal/health/scheduler.go: the target, the runner and `tick`; internal/health/checker.go.
use libra_flux.Base.{
  ℕ, ◌+◌, ◌≡◌, ◌↔◌, Bool, true, false, not, ◌&&◌, ◌||◌, Option, none, some, List, [], ◌∷◌, ◌++◌,
  arith, ℤ, pos, ltb_ℤ, leb_ℤ, eqb_ℤ, if◌then◌else◌,
}
use libra_flux.Base.Text.{GoString, ◌=s◌, =s_iff, codes}
use libra_flux.Base.Assoc.{Eq}
use libra_flux.Base.Decimal.{itoa_ℤ}

pub data State : Type 0 where
  unknown healthy unhealthy : State

pub State-discrete : Discrete State
State-discrete = hlevel

abbrev pub state_eqb : State → State → Bool
state_eqb unknown unknown = true
state_eqb healthy healthy = true
state_eqb unhealthy unhealthy = true
state_eqb _ _ = false

pub record BackendKey : Type 0 where
  pub service : GoString
  pub backend : GoString

abbrev pub key_eqb : BackendKey → BackendKey → Bool
key_eqb j k = (j.service =s k.service) && (j.backend =s k.backend)

pub key_eqb_iff : (j k : BackendKey) → (key_eqb j k ≡ true) ↔ (j ≡ k)
key_eqb_iff j k = ground (arith, =s_iff j.service k.service, =s_iff j.backend k.backend)

instance abbrev pub key_eq : Eq BackendKey
key_eq = record { beq = key_eqb; beq_iff = key_eqb_iff }

-- Durations are counts of nanoseconds.
pub record Target : Type 0 where
  pub key : BackendKey
  pub check_port : ℤ
  pub interval : ℤ
  pub timeout : ℤ
  pub fail_after : ℤ
  pub recover_after : ℤ
  pub configured_weight : ℤ

-- What the observer is told.
pub data Notice : Type 0 where
  state_change : BackendKey → State → State → Notice
  weight_change : BackendKey → ℤ → ℤ → Notice

-- `consecutiveSuccesses` and `consecutiveFailures` count ticks, and stay below 2 ^ 63.
-- `stopped` is the closed `stopCh`, `done` the closed `doneCh`.
pub record Runner : Type 0 where
  pub target : Target
  pub state : State
  pub consecutive_successes : ℕ
  pub consecutive_failures : ℕ
  pub effective_weight : ℤ
  pub stopped : Bool
  pub done : Bool

-- the `switch` of a successful probe
unfoldable pub after_success : State → ℕ → ℤ → State
after_success unknown n m = healthy
after_success unhealthy n m = if leb_ℤ m (pos n) then healthy else unhealthy
after_success healthy n m = healthy

-- the `switch` of a failed probe
unfoldable pub after_failure : State → ℕ → ℤ → State
after_failure unknown n m = unhealthy
after_failure healthy n m = if leb_ℤ m (pos n) then unhealthy else healthy
after_failure unhealthy n m = unhealthy

unfoldable pub weigh : State → ℤ → ℤ → ℤ
weigh healthy configured old = configured
weigh unhealthy configured old = pos 0
weigh unknown configured old = old

-- The part of `tick` under the lock, for a probe that succeeded or failed.
unfoldable pub update : Bool → Runner → Runner
unfolding after_success after_failure weigh
update true r =
    let n = r.consecutive_successes + 1 in
    let s = after_success r.state n r.target.recover_after in
    record r {
      state = s;
      consecutive_successes = n;
      consecutive_failures = 0;
      effective_weight = weigh s r.target.configured_weight r.effective_weight;
    }
update false r =
    let n = r.consecutive_failures + 1 in
    let s = after_failure r.state n r.target.fail_after in
    record r {
      state = s;
      consecutive_failures = n;
      consecutive_successes = 0;
      effective_weight = weigh s r.target.configured_weight r.effective_weight;
    }

-- The calls of the observer after the lock is released; `observed` is `s.obs != nil`.
unfoldable pub notices : Bool → Runner → Runner → List Notice
notices observed old new =
    (if not (state_eqb old.state new.state) && observed
      then state_change new.target.key old.state new.state ∷ []
      else [])
    ++ (if not (eqb_ℤ old.effective_weight new.effective_weight) && observed
        then weight_change new.target.key old.effective_weight new.effective_weight ∷ []
        else [])

unfoldable pub tick : Bool → Bool → Runner → Runner × List Notice
unfolding update notices
tick observed success r = let r' = update success r in (r', notices observed r r')

-- What the probe calls: net.ParseIP, as far as it tells addresses from other texts, and the dialer,
-- which returns an error or nil.
pub record Network : Type 0 where
  pub is_ip : GoString → Bool
  pub dial : GoString → GoString → ℤ → Option GoString

pub data CheckError : Type 0 where
  missing_dialer : CheckError
  invalid_address : GoString → CheckError
  invalid_port : ℤ → CheckError
  invalid_timeout : ℤ → CheckError
  dial_failed : GoString → CheckError

abbrev dialled : Option GoString → Option CheckError
dialled none = none
dialled (some e) = some (dial_failed e)

-- TCPChecker.Check; `has_dialer` is false for a nil checker and for one with a nil dialer.
unfoldable pub check : Network → Bool → GoString → ℤ → ℤ → Option CheckError
check net has_dialer address port timeout =
    if not has_dialer
    then some missing_dialer
    else if not (net.is_ip address)
    then some (invalid_address address)
    else if ltb_ℤ port (pos 1) || ltb_ℤ (pos 65535) port
    then some (invalid_port port)
    else if leb_ℤ timeout (pos 0)
    then some (invalid_timeout timeout)
    else dialled (net.dial (codes "tcp") (address ++ codes ":" ++ itoa_ℤ port) timeout)

abbrev pub is_nil {ℓ} : {A : Type ℓ} → Option A → Bool
is_nil none = true
is_nil (some a) = false

-- `tick` with the probe of its target.
unfoldable pub probe : Network → Bool → Bool → Runner → Runner × List Notice
unfolding tick check
probe net has_dialer observed r =
    tick observed
      (is_nil (check net has_dialer r.target.key.backend r.target.check_port r.target.timeout)) r
