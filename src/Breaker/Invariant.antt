-- ===== src/Breaker/Invariant.antt =====
-- What holds of a breaker between two method calls, whoever makes them.
use bank_reconciliation_agen.Base.{ℕ, ◌<◌, ◌≡◌, ◌≢◌, true, Option, none, some, List, [], ◌∷◌, arith}
use bank_reconciliation_agen.Base.Int.{ℤ}
use bank_reconciliation_agen.Breaker.{
  Breaker, BreakerPermit, closed, opened, half_open, init, state_now, acquire, record_success,
  record_failure, release_permit,
}

pub record IsValid (b : Breaker) : Type 0 where
  pub threshold_pos : 0 < b.fail_threshold
  pub opened_timed : b.state ≡ opened → b.opened_at ≢ none
  pub timed_opened : b.opened_at ≢ none → b.state ≡ opened
  pub probe_half_open : b.half_open_probe_in_flight ≡ true → b.state ≡ half_open
  pub closed_below : b.state ≡ closed → b.failure_count < b.fail_threshold

-- A method call with the readings of the clock that it makes.
pub data Call : Type 0 where
  read_state : ℕ → Call
  acquire_call : ℕ → Call
  success_call : ℕ → Option BreakerPermit → Call
  failure_call : ℕ → ℕ → Option BreakerPermit → Call
  release_call : ℕ → BreakerPermit → Call

unfoldable pub perform : Call → Breaker → Breaker
unfolding state_now acquire record_success record_failure release_permit
perform (read_state t) b = state_now t b
perform (acquire_call t) b = (acquire t b).1
perform (success_call t p) b = record_success t p b
perform (failure_call t u p) b = record_failure t u p b
perform (release_call t p) b = release_permit t p b

init-IsValid : (f o : ℤ) → IsValid (init f o)
unfolding init
init-IsValid f o = ground arith

pub state_now-IsValid : (t : ℕ) (b : Breaker) → IsValid b → IsValid (state_now t b)
unfolding state_now
state_now-IsValid t b h = ground arith

pub perform-IsValid : (c : Call) (b : Breaker) → IsValid b → IsValid (perform c b)
unfolding perform
perform-IsValid (read_state t) b h = ground arith
perform-IsValid (acquire_call t) b h = ground arith
perform-IsValid (success_call t none) b h = ground arith
perform-IsValid (success_call t (some p)) b h = ground arith
perform-IsValid (failure_call t u none) b h = ground arith
perform-IsValid (failure_call t u (some p)) b h = ground arith
perform-IsValid (release_call t p) b h = ground arith

unfoldable pub run : List Call → Breaker → Breaker
unfolding perform
run [] b = b
run (c ∷ cs) b = run cs (perform c b)

run-IsValid : (cs : List Call) (b : Breaker) → IsValid b → IsValid (run cs b)
unfolding run
run-IsValid [] b h = h
run-IsValid (c ∷ cs) b h = run-IsValid cs (perform c b) (perform-IsValid c b h)

-- Whatever the two settings are, and whatever methods are called in whatever order with whatever
-- permits and clock readings, the breaker is consistent: it has a time of opening exactly while it
-- is OPEN, a probe is in flight only while it is HALF_OPEN, and while it is CLOSED fewer failures
-- are counted than the threshold, which is positive.
pub run-init-IsValid : (f o : ℤ) (cs : List Call) → IsValid (run cs (init f o))
run-init-IsValid f o cs = run-IsValid cs (init f o) (init-IsValid f o)
