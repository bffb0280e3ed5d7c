-- ===== src/Llm/Permit.antt =====
-- What one guarded call does to the breaker.
use bank_reconciliation_agen.Base.{
  ℕ, ◌≡◌, false, none, some, arith, Bool-cases, Option-cases, inl, inr,
}
use bank_reconciliation_agen.Breaker.{
  Breaker, BreakerPermit, closed, acquire, record_success, record_failure, release_permit,
}
use bank_reconciliation_agen.Breaker.Invariant.{
  IsValid, perform, perform-IsValid, acquire_call, success_call, failure_call, release_call,
}
use bank_reconciliation_agen.Llm.{
  Reply, replied, call_error, other_exception, counts, BreakingProvider, returned,
  breaking_complete,
}

-- Taking a permit back leaves no probe, if it was given by a breaker without one.
success-free :
    (start now : ℕ) (b : Breaker) (p : BreakerPermit)
    → b.half_open_probe_in_flight ≡ false
    → (acquire start b).0.permit ≡ some p
    → (record_success now (some p) (acquire start b).1).half_open_probe_in_flight ≡ false
unfolding acquire record_success
success-free start now b p free given = ground arith

failure-free :
    (start now later : ℕ) (b : Breaker) (p : BreakerPermit)
    → b.half_open_probe_in_flight ≡ false
    → (acquire start b).0.permit ≡ some p
    → (record_failure now later (some p) (acquire start b).1).half_open_probe_in_flight ≡ false
unfolding acquire record_failure
failure-free start now later b p free given = ground arith

release-free :
    (start now : ℕ) (b : Breaker) (p : BreakerPermit)
    → b.half_open_probe_in_flight ≡ false
    → (acquire start b).0.permit ≡ some p
    → (release_permit now p (acquire start b).1).half_open_probe_in_flight ≡ false
unfolding acquire release_permit
release-free start now b p free given = ground arith

refused-free :
    (start : ℕ) (b : Breaker)
    → b.half_open_probe_in_flight ≡ false
    → (acquire start b).0.permit ≡ none
    → (acquire start b).1.half_open_probe_in_flight ≡ false
unfolding acquire
refused-free start b free given = ground arith

-- The breaker has no probe in flight and is consistent.
abbrev pub IsIdle : Breaker → Type 0
IsIdle b = (b.half_open_probe_in_flight ≡ false) × IsValid b

acquire-IsValid : (start : ℕ) (b : Breaker) → IsValid b → IsValid (acquire start b).1
acquire-IsValid start b h = unfold perform in perform-IsValid (acquire_call start) b h

returned-IsIdle :
    (start now later : ℕ) (inner : Reply) (p : BreakingProvider) (permit : BreakerPermit)
    → IsIdle p.breaker
    → (acquire start p.breaker).0.permit ≡ some permit
    → let (admission, b) = acquire start p.breaker in
      IsIdle
        (returned now later permit admission.state_before
          (record p { breaker = b })
          inner).1.breaker
unfolding returned perform
returned-IsIdle start now later other_exception p permit (free, valid) given = (
  release-free start now p.breaker permit free given,
  perform-IsValid (release_call now permit) _ (acquire-IsValid start p.breaker valid),
)
returned-IsIdle start now later (replied r) p permit (free, valid) given = (
  success-free start now p.breaker permit free given,
  perform-IsValid (success_call now (some permit)) _ (acquire-IsValid start p.breaker valid),
)
returned-IsIdle start now later (call_error e) p permit (free, valid) given =
    elim (Bool-cases (counts e.failure_type)) [
      | inl c ↦ rw c (
        failure-free start now later p.breaker permit free given,
        perform-IsValid (failure_call now later (some permit)) _
            (acquire-IsValid start p.breaker valid),
      )
      | inr c ↦ rw c (
        release-free start now p.breaker permit free given,
        perform-IsValid (release_call now permit) _ (acquire-IsValid start p.breaker valid),
      )
    ]

-- A guarded call gives its permit back whichever way the inner call ends: a breaker that is
-- consistent and has no probe in flight is so again after the call.
pub breaking_complete-IsIdle :
    (start now later : ℕ) (inner : Reply) (p : BreakingProvider)
    → IsIdle p.breaker
    → IsIdle (breaking_complete start now later inner p).1.breaker
unfolding breaking_complete
breaking_complete-IsIdle start now later inner p idle =
    elim (Option-cases (acquire start p.breaker).0.permit) [
      | inl e ↦
          rw (e, IsIdle, breaking_complete)
            (refused-free start p.breaker idle.0 e, acquire-IsValid start p.breaker idle.1)
      | inr (permit, e) ↦
          rw (e, IsIdle, breaking_complete) (returned-IsIdle start now later inner p permit idle e)
    ]

-- The reply is no failure of the provider's availability.
abbrev pub IsUncounted : Reply → Type 0
IsUncounted (replied r) = ⊥
IsUncounted (call_error e) = counts e.failure_type ≡ false
IsUncounted other_exception = Unit

release-uncounted :
    (start now : ℕ) (b : Breaker) (p : BreakerPermit)
    → let b' = release_permit now p (acquire start b).1 in
      (b'.failure_count ≡ b.failure_count) × (b.state ≡ closed → b'.state ≡ closed)
unfolding acquire release_permit
release-uncounted start now b p = (ground arith, λ e. ground arith)

acquire-uncounted :
    (start : ℕ) (b : Breaker)
    → let b' = (acquire start b).1 in
      (b'.failure_count ≡ b.failure_count) × (b.state ≡ closed → b'.state ≡ closed)
unfolding acquire
acquire-uncounted start b = (ground arith, λ e. ground arith)

returned_uncounted :
    (start now later : ℕ) (inner : Reply) (p : BreakingProvider) (permit : BreakerPermit)
    → IsUncounted inner
    → let (admission, b) = acquire start p.breaker in
      let b' =
        (returned now later permit admission.state_before
          (record p { breaker = b })
          inner).1.breaker in
      (b'.failure_count ≡ p.breaker.failure_count) × (p.breaker.state ≡ closed → b'.state ≡ closed)
unfolding returned
returned_uncounted start now later (replied r) p permit other = absurd other
returned_uncounted start now later (call_error e) p permit other =
    rw other (release-uncounted start now p.breaker permit)
returned_uncounted start now later other_exception p permit other =
    release-uncounted start now p.breaker permit

-- Only timeouts and 5xx answers count: any other error of the inner call leaves the breaker's count of
-- failures as it was, and a CLOSED breaker CLOSED.
pub breaking_complete_uncounted :
    (start now later : ℕ) (inner : Reply) (p : BreakingProvider)
    → IsUncounted inner
    → let b' = (breaking_complete start now later inner p).1.breaker in
      (b'.failure_count ≡ p.breaker.failure_count) × (p.breaker.state ≡ closed → b'.state ≡ closed)
unfolding breaking_complete
breaking_complete_uncounted start now later inner p other =
    elim (Option-cases (acquire start p.breaker).0.permit) [
      | inl e ↦ rw (e, breaking_complete) (acquire-uncounted start p.breaker)
      | inr (permit, e) ↦
          rw (e, breaking_complete) (returned_uncounted start now later inner p permit other)
    ]
