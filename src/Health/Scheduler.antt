-- ===== src/Health/Scheduler.antt =====
-- internal/health/scheduler.go: `validateTarget`, `Start` and `Stop`.
use libra_flux.Base.{
  Bool, true, false, ◌||◌, Option, none, some, List, [], ◌∷◌, ℤ, pos, negsuc, ltb_ℤ, leb_ℤ, Result,
  ok, err, ◌>>◌, fail_if, if◌then◌else◌,
}
use libra_flux.Base.Text.{◌=s◌}
use libra_flux.Base.Assoc.{Assoc, has, insert}
use libra_flux.Health.Runner.{BackendKey, key_eq, Target, Runner, unknown}

pub data StartError : Type 0 where
  scheduler_stopped missing_checker missing_service missing_backend : StartError
  bad_check_port bad_interval bad_timeout bad_fail_after bad_recover_after : ℤ → StartError
  duplicate_target : BackendKey → StartError

unfoldable pub validate_target : Target → Result StartError (Unit {0})
validate_target t = do
  fail_if (t.key.service =s []) missing_service
  fail_if (t.key.backend =s []) missing_backend
  fail_if (ltb_ℤ t.check_port (pos 1) || ltb_ℤ (pos 65535) t.check_port)
      (bad_check_port t.check_port)
  fail_if (leb_ℤ t.interval (pos 0)) (bad_interval t.interval)
  fail_if (leb_ℤ t.timeout (pos 0)) (bad_timeout t.timeout)
  fail_if (ltb_ℤ t.fail_after (pos 1)) (bad_fail_after t.fail_after)
  fail_if (ltb_ℤ t.recover_after (pos 1)) (bad_recover_after t.recover_after)
  ok tt

pub record Scheduler : Type 0 where
  pub has_checker : Bool
  pub has_observer : Bool
  pub runners : Assoc BackendKey Runner
  pub stopped : Bool

unfoldable pub new_scheduler : Bool → Bool → Scheduler
new_scheduler has_checker has_observer = record {
  has_checker = has_checker;
  has_observer = has_observer;
  runners = [];
  stopped = false;
}

unfoldable pub new_runner : Target → Runner
new_runner t = record {
  target = t;
  state = unknown;
  consecutive_successes = 0;
  consecutive_failures = 0;
  effective_weight = negsuc 0;
  stopped = false;
  done = false;
}

-- One round of the loop of `Start`.
unfoldable pub start_one :
    Target → Assoc BackendKey Runner → Result StartError (Assoc BackendKey Runner)
unfolding validate_target new_runner
start_one t runners = do
  validate_target t
  fail_if (has t.key runners) (duplicate_target t.key)
  ok (insert t.key (new_runner t) runners)

-- The loop of `Start`. A failed round leaves the runners of the rounds before it in place.
unfoldable pub start_loop :
    List Target → Assoc BackendKey Runner → Option StartError × Assoc BackendKey Runner
start_loop [] runners = (none, runners)
start_loop (t ∷ ts) runners = elim (start_one t runners) [
  | ok more ↦ start_loop ts more
  | err e ↦ (some e, runners)
]

unfoldable pub start : List Target → Scheduler → Option StartError × Scheduler
unfolding start_loop
start ts s =
    if s.stopped
    then (some scheduler_stopped, s)
    else if s.has_checker
    then (let (e, runners) = start_loop ts s.runners in (e, record s { runners = runners }))
    else (some missing_checker, s)

-- `close(r.stopCh)`, the end of its ticker, and the wait for `doneCh`.
unfoldable pub stop_all : Assoc BackendKey Runner → Assoc BackendKey Runner
stop_all [] = []
stop_all ((k, r) ∷ rs) = (k, record r { stopped = true; done = true }) ∷ stop_all rs

unfoldable pub stop : Scheduler → Scheduler
unfolding stop_all
stop s = if s.stopped then s else record s { stopped = true; runners = stop_all s.runners }
