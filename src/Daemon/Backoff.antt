-- ===== src/Daemon/Backoff.antt =====
-- internal/daemon/engine.go: `calculateBackoff`, in nanoseconds. `nanos` is what `UnixNano` reads.
use libra_flux.Base.{
  ℕ, suc, ◌+◌, ◌*◌, ◌%◌, ◌≤◌, ◌<◌, ◌≡◌, arith, leb, ◌==◌, if◌then◌else◌, millisecond,
}

abbrev pub second : ℕ
second = 1000000000

unfoldable pub calculate_backoff : ℕ → ℕ → ℕ
calculate_backoff nanos attempt =
    if leb attempt 1
    then 0
    else if attempt == 2
    then 5 * second + nanos % 1000 * millisecond
    else 10 * second + nanos % 2000 * millisecond

-- The wait is 0 for a first attempt, at least 5 and less than 6 seconds for a second, and at least 10
-- and less than 12 seconds for every later one.
pub calculate_backoff_bounds :
    (nanos attempt : ℕ)
    → (attempt ≤ 1 → calculate_backoff nanos attempt ≡ 0)
      × (attempt ≡ 2
          → (5 * second ≤ calculate_backoff nanos attempt)
            × (calculate_backoff nanos attempt < 6 * second))
      × (3 ≤ attempt
          → (10 * second ≤ calculate_backoff nanos attempt)
            × (calculate_backoff nanos attempt < 12 * second))
unfolding calculate_backoff
calculate_backoff_bounds nanos attempt = ground arith

-- At whatever two moments they are computed, the wait of an attempt is at most that of the next one
-- up to the third attempt.
pub calculate_backoff_grows :
    (n m attempt : ℕ)
    → attempt < 3
    → calculate_backoff n attempt ≤ calculate_backoff m (suc attempt)
unfolding calculate_backoff
calculate_backoff_grows n m attempt h = ground arith
