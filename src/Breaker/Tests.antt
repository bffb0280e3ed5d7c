-- ===== src/Breaker/Tests.antt =====
-- The breaker on concrete calls, and its theorems at concrete inputs.
use bank_reconciliation_agen.Base.{
  ◌≤◌, ◌≡◌, false, some, none, List, [], ◌∷◌, if◌then◌else◌, All, refl,
}
use bank_reconciliation_agen.Base.Int.{pos, negsuc}
use bank_reconciliation_agen.Breaker.{Breaker, BreakerPermit, closed, opened, init}
use bank_reconciliation_agen.Breaker.Invariant.{
  Call, acquire_call, failure_call, run, IsValid, run-init-IsValid,
}
use bank_reconciliation_agen.Breaker.Permits.{fail_once, fails}
use bank_reconciliation_agen.Breaker.Pool.{Pool, here, next, ask, live_probes, Fits, enter}
use bank_reconciliation_agen.Breaker.Pool.Safety.{one_probe_at_a_time}

abbrev fresh : Breaker
fresh = record {
  fail_threshold = 2;
  open_seconds = 30;
  state = closed;
  failure_count = 0;
  opened_at = none;
  half_open_probe_in_flight = false;
  generation = 0;
}

init_fields : init (pos 2) (pos 30) ≡ fresh
unfolding init
init_fields = refl

abbrev tripped : Breaker
tripped = record fresh { state = opened; failure_count = 2; opened_at = some 10; generation = 1 }

abbrev old_permit : BreakerPermit
old_permit = record { generation = 0; state_before = closed }

init_clamps : (init (negsuc 4) (negsuc 0)).fail_threshold ≡ 1
unfolding init
init_clamps = refl

two_failures_open : fails 10 2 fresh ≡ tripped
unfolding fails fail_once
two_failures_open = refl

abbrev calls : List Call
calls = acquire_call 0 ∷ failure_call 1 2 (some old_permit) ∷ acquire_call 3 ∷ []

run-init-IsValid_example : IsValid (run calls (init (pos 1) (negsuc 2)))
run-init-IsValid_example = run-init-IsValid (pos 1) (negsuc 2) calls

abbrev start : Pool
start = record { breaker = init (pos 1) (pos 0); held = [] }

one_probe_at_a_time_example :
    let s = enter 1 (enter 0 start) in
    (live_probes s.breaker.generation s.held ≤ 1)
    × (live_probes s.breaker.generation s.held
        ≡ (if s.breaker.half_open_probe_in_flight then 1 else 0))
    × All (Fits s.breaker) s.held
one_probe_at_a_time_example =
    one_probe_at_a_time (pos 1) (pos 0) (next (next here (ask 0 start)) (ask 1 (enter 0 start)))
