-- ===== src/Llm.antt =====
-- core/llm/reliability.py: `CircuitBreakingLLMProvider.complete` around one call of an inner provider,
-- and `RetryingLLMProvider.complete` around a sequence of calls. Durations, token counts and the log
-- are left out; a duration is a count of clock ticks.
pub mod Permit
pub mod Retry
pub mod Structured
pub mod Cache
pub mod RateLimit
mod Tests
use bank_reconciliation_agen.Base.{
  ℕ, zero, suc, ◌+◌, ◌-◌, ◌*◌, ◌^◌, min, Bool, true, false, ◌&&◌, String, Option, none, some, List,
  [], ◌∷◌, ◌++◌, ltb, if◌then◌else◌,
}
use bank_reconciliation_agen.Breaker.{
  Breaker, BreakerState, BreakerPermit, acquire, record_success, record_failure, release_permit,
}

-- `LLMFailureType`
pub data FailureType : Type 0 where
  timeout rate_limited provider_5xx auth_config invalid_json schema_invalid : FailureType

pub data AttemptOutcome : Type 0 where
  success failure breaker_open : AttemptOutcome

-- `LLMAttemptRecord`
pub record LlmAttemptRecord : Type 0 where
  pub physical_attempt : ℕ
  pub outcome : AttemptOutcome
  pub failure_type : Option FailureType
  pub backoff_seconds : ℕ
  pub breaker_state_before : Option BreakerState
  pub breaker_state_after : Option BreakerState

-- `LLMResult`
pub record LlmResult : Type 0 where
  pub text : String
  pub prompt_tokens : ℕ
  pub completion_tokens : ℕ
  pub model : String
  pub cached : Bool
  pub attempts : List LlmAttemptRecord

-- `LLMCallError`
pub record LlmCallError : Type 0 where
  pub failure_type : FailureType
  pub retryable : Bool
  pub attempts : List LlmAttemptRecord
  pub fallback_reason : Option String

-- What a call of `complete` ends with.
pub data Reply : Type 0 where
  replied : LlmResult → Reply
  call_error : LlmCallError → Reply
  other_exception : Reply

-- `failure_type in _BREAKER_FAILURE_TYPES`
abbrev pub counts : FailureType → Bool
counts timeout = true
counts provider_5xx = true
counts _ = false

-- The fields of `CircuitBreakingLLMProvider`.
pub record BreakingProvider : Type 0 where
  pub breaker : Breaker
  pub last_failure_type : Option FailureType

abbrev attempt_record :
    AttemptOutcome → Option FailureType → BreakerState → BreakerState → LlmAttemptRecord
attempt_record outcome failure_type before after = record {
  physical_attempt = 1;
  outcome = outcome;
  failure_type = failure_type;
  backoff_seconds = 0;
  breaker_state_before = some before;
  breaker_state_after = some after;
}

abbrev or_5xx : Option FailureType → FailureType
or_5xx none = provider_5xx
or_5xx (some f) = f

-- The refusal of a breaker that does not admit the call.
unfoldable pub broken : BreakerState → BreakingProvider → Reply
broken before p = call_error (record {
  failure_type = or_5xx p.last_failure_type;
  retryable = false;
  attempts = attempt_record breaker_open p.last_failure_type before before ∷ [];
  fallback_reason = some "breaker_open";
})

-- What follows the call of the inner provider: `now` is the clock's reading of the method that takes
-- the permit back, `later` the one by which the breaker opens.
unfoldable pub returned :
    ℕ → ℕ → BreakerPermit → BreakerState → BreakingProvider → Reply → Reply × BreakingProvider
returned now later permit before p other_exception =
    (other_exception, record p { breaker = release_permit now permit p.breaker })
returned now later permit before p (replied r) =
    let b = record_success now (some permit) p.breaker in
    (
      replied (record r { attempts = attempt_record success none before b.state ∷ [] }),
      record p { breaker = b },
    )
returned now later permit before p (call_error e) =
    let b =
      if counts e.failure_type
      then record_failure now later (some permit) p.breaker
      else release_permit now permit p.breaker in
    (
      call_error (record e {
        attempts = attempt_record failure (some e.failure_type) before b.state ∷ [];
      }),
      record p {
        breaker = b;
        last_failure_type =
            if counts e.failure_type then some e.failure_type else p.last_failure_type;
      },
    )

-- `CircuitBreakingLLMProvider.complete`, where the inner provider would answer `inner`.
unfoldable pub breaking_complete : ℕ → ℕ → ℕ → Reply → BreakingProvider → Reply × BreakingProvider
breaking_complete start now later inner p =
    let (admission, b) = acquire start p.breaker in
    elim admission.permit [
      | none ↦ (broken admission.state_before p, record p { breaker = b })
      | some permit ↦
          returned now later permit admission.state_before (record p { breaker = b }) inner
    ]

-- `_renumber`
unfoldable pub renumber : ℕ → List LlmAttemptRecord → List LlmAttemptRecord
renumber n [] = []
renumber n (r ∷ rs) = record r { physical_attempt = n } ∷ renumber (suc n) rs

-- `aggregated[-1] = aggregated[-1].model_copy(update={"backoff_seconds": backoff})`
unfoldable pub set_backoff : ℕ → List LlmAttemptRecord → List LlmAttemptRecord
set_backoff backoff [] = []
set_backoff backoff (r ∷ []) = record r { backoff_seconds = backoff } ∷ []
set_backoff backoff (r ∷ q ∷ rs) = r ∷ set_backoff backoff (q ∷ rs)

-- `list(attempts) or [LLMAttemptRecord(...)]`
unfoldable pub records_or :
    List LlmAttemptRecord → ℕ → AttemptOutcome → Option FailureType → List LlmAttemptRecord
records_or [] n outcome failure_type =
    (record {
      physical_attempt = n;
      outcome = outcome;
      failure_type = failure_type;
      backoff_seconds = 0;
      breaker_state_before = none;
      breaker_state_after = none;
    })
    ∷ []
records_or (r ∷ rs) n outcome failure_type = r ∷ rs

-- The settings of `RetryingLLMProvider`.
pub record RetryPolicy : Type 0 where
  pub max_attempts : ℕ
  pub backoff_base_seconds : ℕ
  pub backoff_max_seconds : ℕ

-- `min(base * 2 ** (attempt_no - 1), max)`
unfoldable pub backoff_of : RetryPolicy → ℕ → ℕ
backoff_of policy n = min (policy.backoff_base_seconds * 2 ^ (n - 1)) policy.backoff_max_seconds

-- A reply with the sleeps before it.
pub record Retried : Type 0 where
  pub reply : Reply
  pub slept : List ℕ

-- `raise LLMCallError("LLM retry loop exhausted")`
abbrev pub exhausted : List LlmAttemptRecord → LlmCallError
exhausted aggregated = record {
  failure_type = provider_5xx;
  retryable = false;
  attempts = aggregated;
  fallback_reason = none;
}

-- One round of the loop. `more` is `attempt_no < max_attempts`; `continued` is the rest of the loop.
unfoldable pub round :
    RetryPolicy
    → ℕ
    → List LlmAttemptRecord
    → Bool
    → (List LlmAttemptRecord → Retried)
    → Reply
    → Retried
round policy n aggregated more continued other_exception = record {
  reply = other_exception;
  slept = [];
}
round policy n aggregated more continued (replied r) = record {
  reply =
      replied
        (record r { attempts = renumber 1 (aggregated ++ records_or r.attempts n success none) });
  slept = [];
}
round policy n aggregated more continued (call_error e) =
    let all_records = aggregated ++ records_or e.attempts n failure (some e.failure_type) in
    elim (e.retryable && more) [
      | true ↦
          let rest = continued (renumber 1 (set_backoff (backoff_of policy n) all_records)) in
          record { reply = rest.reply; slept = backoff_of policy n ∷ rest.slept }
      | false ↦ record {
        reply = call_error (record e { attempts = renumber 1 all_records });
        slept = [];
      }
    ]

-- The loop, with the rounds that are left; `inner n` is what the n-th call ends with.
unfoldable pub retry_loop : RetryPolicy → (ℕ → Reply) → ℕ → ℕ → List LlmAttemptRecord → Retried
retry_loop policy inner zero n aggregated = record {
  reply = call_error (exhausted aggregated);
  slept = [];
}
retry_loop policy inner (suc left) n aggregated =
    round policy n aggregated (ltb n policy.max_attempts)
      (λ rs. retry_loop policy inner left (suc n) rs) (inner n)

-- `RetryingLLMProvider.complete`
unfoldable pub retrying_complete : RetryPolicy → (ℕ → Reply) → Retried
retrying_complete policy inner = retry_loop policy inner policy.max_attempts 1 []
