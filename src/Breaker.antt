-- ===== src/Breaker.antt =====
-- services/circuit_breaker.py: `CircuitBreaker`, its permits, and each of its methods.
-- A method holds the lock from its first line to its return, so it is one step on the state. Time is
-- a count of clock ticks; a method takes the readings that it makes of `time_fn`, in their order.
pub mod Invariant
pub mod Permits
pub mod Pool
mod Tests
use bank_reconciliation_agen.Base.{
  ℕ, ◌+◌, Bool, true, false, not, ◌&&◌, ◌||◌, Option, none, some, leb, ◌==◌, if◌then◌else◌, max,
  is_some,
}
use bank_reconciliation_agen.Base.Int.{ℤ, pos_part}

-- `BreakerState`
pub data BreakerState : Type 0 where
  closed opened half_open : BreakerState

abbrev pub same_state : BreakerState → BreakerState → Bool
same_state closed closed = true
same_state opened opened = true
same_state half_open half_open = true
same_state _ _ = false

-- `BreakerPermit`
pub record BreakerPermit : Type 0 where
  pub generation : ℕ
  pub state_before : BreakerState

-- `BreakerAdmission`
pub record BreakerAdmission : Type 0 where
  pub state_before : BreakerState
  pub permit : Option BreakerPermit

-- `BreakerAdmission.allowed`
abbrev pub allowed : BreakerAdmission → Bool
allowed a = is_some a.permit

-- The fields of `CircuitBreaker`.
pub record Breaker : Type 0 where
  pub fail_threshold : ℕ
  pub open_seconds : ℕ
  pub state : BreakerState
  pub failure_count : ℕ
  pub opened_at : Option ℕ
  pub half_open_probe_in_flight : Bool
  pub generation : ℕ

-- `CircuitBreaker.__init__`
unfoldable pub init : ℤ → ℤ → Breaker
init fail_threshold open_seconds = record {
  fail_threshold = max 1 (pos_part fail_threshold);
  open_seconds = pos_part open_seconds;
  state = closed;
  failure_count = 0;
  opened_at = none;
  half_open_probe_in_flight = false;
  generation = 0;
}

-- `time_fn() - opened_at >= open_seconds`
abbrev pub is_due : Option ℕ → ℕ → ℕ → Bool
is_due none open_seconds now = false
is_due (some t) open_seconds now = leb (t + open_seconds) now

-- `CircuitBreaker._state_now`
unfoldable pub state_now : ℕ → Breaker → Breaker
state_now now b =
    if same_state b.state opened && is_due b.opened_at b.open_seconds now
    then record b {
      state = half_open;
      opened_at = none;
      half_open_probe_in_flight = false;
      generation = b.generation + 1;
    }
    else b

admit : Breaker → BreakerAdmission × Breaker
admit b = (
  record {
    state_before = b.state;
    permit = some (record { generation = b.generation; state_before = b.state });
  },
  b,
)

refuse : Breaker → BreakerAdmission × Breaker
refuse b = (record { state_before = b.state; permit = none }, b)

unfoldable pub acquire_at : Breaker → BreakerAdmission × Breaker
unfolding admit refuse
acquire_at b =
    if same_state b.state opened
    then refuse b
    else if same_state b.state half_open
    then (if b.half_open_probe_in_flight
        then refuse b
        else admit (record b { half_open_probe_in_flight = true }))
    else admit b

-- `CircuitBreaker.acquire`
unfoldable pub acquire : ℕ → Breaker → BreakerAdmission × Breaker
unfolding acquire_at state_now
acquire now b = acquire_at (state_now now b)

-- `CircuitBreaker.allow_request`
unfoldable pub allow_request : ℕ → Breaker → Bool × Breaker
unfolding acquire
allow_request now b = let (a, b') = acquire now b in (allowed a, b')

-- `CircuitBreaker._open`
unfoldable pub open_at : ℕ → Breaker → Breaker
open_at now b = record b {
  state = opened;
  opened_at = some now;
  half_open_probe_in_flight = false;
  generation = b.generation + 1;
}

-- The last four assignments of `record_success`.
close : Breaker → Breaker
close b = record b {
  failure_count = 0;
  opened_at = none;
  half_open_probe_in_flight = false;
  state = closed;
}

success_at : Option BreakerPermit → Breaker → Breaker
unfolding close
success_at none b = close b
success_at (some p) b =
    if not (p.generation == b.generation)
    then b
    else if same_state p.state_before half_open
    then (if not (same_state b.state half_open) || not b.half_open_probe_in_flight
        then b
        else close (record b { generation = b.generation + 1 }))
    else if not (same_state b.state closed)
    then b
    else close b

-- `CircuitBreaker.record_success`
unfoldable pub record_success : ℕ → Option BreakerPermit → Breaker → Breaker
unfolding success_at state_now
record_success now p b = success_at p (state_now now b)

-- The last lines of `record_failure`: count, and open at the threshold.
count_failure : ℕ → Breaker → Breaker
unfolding open_at
count_failure later b =
    let b' : Breaker = record b { failure_count = b.failure_count + 1 } in
    if leb b'.fail_threshold b'.failure_count then open_at later b' else b'

failure_at : ℕ → Option BreakerPermit → Breaker → Breaker
unfolding open_at count_failure
failure_at later none b =
    if same_state b.state half_open
    then open_at later b
    else if same_state b.state opened
    then b
    else count_failure later b
failure_at later (some p) b =
    if not (p.generation == b.generation)
    then b
    else if same_state p.state_before half_open
    then (if not (same_state b.state half_open) || not b.half_open_probe_in_flight
        then b
        else open_at later b)
    else if not (same_state b.state closed)
    then b
    else count_failure later b

-- `CircuitBreaker.record_failure`: `later` is the reading that `_open` makes.
unfoldable pub record_failure : ℕ → ℕ → Option BreakerPermit → Breaker → Breaker
unfolding failure_at state_now
record_failure now later p b = failure_at later p (state_now now b)

release_at : BreakerPermit → Breaker → Breaker
release_at p b =
    if not (p.generation == b.generation)
    then b
    else if same_state p.state_before half_open && same_state b.state half_open
    then record b { half_open_probe_in_flight = false; generation = b.generation + 1 }
    else b

-- `CircuitBreaker.release_permit`
unfoldable pub release_permit : ℕ → BreakerPermit → Breaker → Breaker
unfolding release_at state_now
release_permit now p b = release_at p (state_now now b)
