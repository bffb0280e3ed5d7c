-- ===== src/Breaker/Permits.antt =====
-- What the methods do: the waiting time and the threshold.
use bank_reconciliation_agen.Base.{ℕ, zero, suc, ◌+◌, ◌≤◌, ◌<◌, ◌≡◌, false, none, some, arith}
use bank_reconciliation_agen.Breaker.{
  Breaker, closed, opened, half_open, allowed, acquire, record_failure,
}

-- A breaker that opened at `o` refuses every request before `o + open_seconds` and is left as it
-- was; from then on it admits exactly one: the first, as a HALF_OPEN probe, and it refuses the next
-- at whatever time that comes.
pub open_waits :
    (b : Breaker) {o : ℕ} (t u : ℕ)
    → b.state ≡ opened
    → b.opened_at ≡ some o
    → (t < o + b.open_seconds → (allowed (acquire t b).0 ≡ false) × ((acquire t b).1 ≡ b))
      × (o + b.open_seconds ≤ t
          → ((acquire t b).0 ≡ record {
            state_before = half_open;
            permit = some (record { generation = b.generation + 1; state_before = half_open });
          })
            × (allowed (acquire u (acquire t b).1).0 ≡ false))
unfolding acquire
open_waits b t u s e = (ground arith, ground arith)

-- One request that is admitted and fails.
unfoldable pub fail_once : ℕ → Breaker → Breaker
unfolding acquire record_failure
fail_once t b =
    let (a, b') = acquire t b in
    elim a.permit [ none ↦ b' | some p ↦ record_failure t t (some p) b' ]

unfoldable pub fails : ℕ → ℕ → Breaker → Breaker
fails t zero b = b
fails t (suc n) b = fails t n (fail_once t b)

fail_once_below :
    (t : ℕ) (b : Breaker)
    → b.state ≡ closed
    → b.failure_count + 1 < b.fail_threshold
    → fail_once t b ≡ record b { failure_count = b.failure_count + 1 }
unfolding fail_once
fail_once_below t b s h = ground arith

fail_once_at :
    (t : ℕ) (b : Breaker)
    → b.state ≡ closed
    → b.fail_threshold ≤ b.failure_count + 1
    → fail_once t b ≡ record b {
      failure_count = b.failure_count + 1;
      state = opened;
      opened_at = some t;
      half_open_probe_in_flight = false;
      generation = b.generation + 1;
    }
unfolding fail_once
fail_once_at t b s h = ground arith

-- From a CLOSED breaker, failed requests in a row only count while the count stays below the
-- threshold; when it meets the threshold the breaker opens at that time, in a new generation.
pub fails_threshold :
    (t n : ℕ) (b : Breaker)
    → b.state ≡ closed
    → (b.failure_count + n < b.fail_threshold
        → fails t n b ≡ record b { failure_count = b.failure_count + n })
      × (b.failure_count + suc n ≡ b.fail_threshold
          → fails t (suc n) b ≡ record b {
            failure_count = b.fail_threshold;
            state = opened;
            opened_at = some t;
            half_open_probe_in_flight = false;
            generation = b.generation + 1;
          })
unfolding fails
fails_threshold t zero b s = (λ h. ground arith, λ h. ground (arith, fail_once_at t b s))
fails_threshold t (suc n) b s =
    let b' : Breaker = record b { failure_count = b.failure_count + 1 } in
    let ih = fails_threshold t n b' s in
    (
      λ h. rw (fail_once_below t b s (omega arith)) (ground (arith, ih)),
      λ h. rw (fail_once_below t b s (omega arith)) (ground (arith, ih)),
    )
