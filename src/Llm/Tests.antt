-- ===== src/Llm/Tests.antt =====
-- A model call that times out once, and its theorems at concrete inputs.
use bank_reconciliation_agen.Base.{
  ℕ, ◌≡◌, refl, true, false, none, some, [], ◌∷◌, ◌==◌, if◌then◌else◌, arith, Bool, String, Option,
  List, ◌⊎◌, ◌+◌, ltb, All, str_eq,
}
use bank_reconciliation_agen.Breaker.{opened}
use bank_reconciliation_agen.Llm.{
  timeout, rate_limited, failure, LlmResult, LlmAttemptRecord, Reply, replied, call_error,
  BreakingProvider, breaking_complete, RetryPolicy, retrying_complete, retry_loop, round,
  backoff_of,
}
use bank_reconciliation_agen.Llm.Permit.{IsIdle, breaking_complete-IsIdle}
use bank_reconciliation_agen.Llm.Retry.{IsRetried, retrying_complete-IsRetried}
use bank_reconciliation_agen.Base.Dict.{get}
use bank_reconciliation_agen.Llm.Structured.{
  Message, accepted, completion, complete_structured, initial, correct, corrected, parse,
  record_result, summary,
}
use bank_reconciliation_agen.Llm.Structured.Completions.{IsSound, complete_structured-IsSound}
use bank_reconciliation_agen.Llm.Cache.{CachingProvider, Faults}
use bank_reconciliation_agen.Llm.Cache.Answers.{
  Call, Event, called, expired, run_events, Answers, IsFaithful, run_events-Answers,
}
use bank_reconciliation_agen.Llm.RateLimit.{
  Limits, Round, inner_reply, limited, wait_timeout, limited_complete, acquire_concurrency,
  after_concurrency,
}
use bank_reconciliation_agen.Llm.RateLimit.Slots.{limited_complete-returns}

-- An open breaker whose time has passed at 40: the call is a probe.
abbrev provider : BreakingProvider
provider = record {
  breaker = record {
    fail_threshold = 2;
    open_seconds = 30;
    state = opened;
    failure_count = 2;
    opened_at = some 10;
    half_open_probe_in_flight = false;
    generation = 1;
  };
  last_failure_type = some timeout;
}

abbrev timed_out : Reply
timed_out =
    call_error
      (record { failure_type = timeout; retryable = true; attempts = []; fallback_reason = none })

abbrev too_many : Reply
too_many = call_error (record {
  failure_type = rate_limited;
  retryable = true;
  attempts = [];
  fallback_reason = none;
})

abbrev plain_reply : Reply
plain_reply = replied (record {
  text = "{}";
  prompt_tokens = 5;
  completion_tokens = 2;
  model = "m";
  cached = false;
  attempts = [];
})

idle : IsIdle provider.breaker
idle = (
  refl,
  record {
    threshold_pos = omega arith;
    opened_timed = λ e f. cc;
    timed_opened = λ f. refl;
    probe_half_open = λ e. cc;
    closed_below = λ e. cc;
  },
)

breaking_complete-IsIdle_example : IsIdle (breaking_complete 40 45 46 timed_out provider).1.breaker
breaking_complete-IsIdle_example = breaking_complete-IsIdle 40 45 46 timed_out provider idle

abbrev policy : RetryPolicy
policy = record { max_attempts = 3; backoff_base_seconds = 2; backoff_max_seconds = 3 }

abbrev second_answers : ℕ → Reply
second_answers n = if n == 1 then timed_out else plain_reply

slept_once : (retrying_complete policy second_answers).slept ≡ 2 ∷ []
unfolding retrying_complete retry_loop round backoff_of
slept_once = refl

retrying_complete-IsRetried_example :
    IsRetried policy second_answers 1 (retrying_complete policy second_answers)
retrying_complete-IsRetried_example =
    retrying_complete-IsRetried policy second_answers (omega arith)

-- A model whose first text is no JSON, after a try that was repeated, and whose correction is cached.
abbrev result_with : String → Bool → LlmResult
result_with text cached = record {
  text = text;
  prompt_tokens = 5;
  completion_tokens = 2;
  model = "m";
  cached = cached;
  attempts = [];
}

abbrev tried : LlmAttemptRecord
tried = record {
  physical_attempt = 1;
  outcome = failure;
  failure_type = some timeout;
  backoff_seconds = 0;
  breaker_state_before = none;
  breaker_state_after = none;
}

abbrev model : ℕ → List Message → Reply
model n messages =
    if n == 1
    then replied (record (result_with "?" false) { attempts = tried ∷ tried ∷ [] })
    else replied (result_with "{}" true)

abbrev loads : String → Option String
loads text = if str_eq text "{}" then some text else none

-- The retry of the first call is not shown: the cached call counts as a call, but not as an attempt.
unseen_retry :
    complete_structured loads (λ s. accepted s) model []
    ≡ completion "{}" (result_with "{}" true) (record {
      transport_attempts = 2;
      retry_recovered = false;
      structured_repair_attempted = true;
      structured_repair_succeeded = true;
      prompt_tokens = 5;
      completion_tokens = 2;
      cached_calls = 1;
      final_failure_type = none;
      fallback_reason = none;
    })
unfolding complete_structured initial correct corrected parse record_result summary
unseen_retry = refl

complete_structured-IsSound_example :
    IsSound loads (λ s. accepted s) model (complete_structured loads (λ s. accepted s) model [])
complete_structured-IsSound_example = complete_structured-IsSound loads (λ s. accepted s) model []

abbrev no_faults : Faults
no_faults = record { get_fails = false; setex_fails = false; delete_fails = false }

abbrev empty_cache : CachingProvider
empty_cache = record {
  stored = [];
  hits = 0;
  misses = 0;
  saved_prompt_tokens = 0;
  saved_completion_tokens = 0;
  degraded_count = 0;
}

abbrev asked : Call
asked = record {
  key = "k";
  validator = none;
  faults = no_faults;
  inner = replied (result_with "{}" false);
}

abbrev events : List Event
events = called asked ∷ called asked ∷ expired "k" ∷ called asked ∷ []

nothing_stored : IsFaithful (λ key text. text ≡ "{}") empty_cache
unfolding get
nothing_stored k r e = absurd (ground arith)

run_events-Answers_example :
    All (λ o. Answers (λ key text. text ≡ "{}") o.0 o.1) (run_events empty_cache events)
run_events-Answers_example =
    run_events-Answers (λ key text. text ≡ "{}") empty_cache events nothing_stored
      (refl, (refl, (tt, (refl, tt))))

-- The concurrency is used up for two polls.
abbrev limits : Limits
limits = record { rpm = 10; max_concurrency = 1; max_wait_seconds = 3; window_seconds = 600 }

abbrev busy : ℕ → Round
busy n = record {
  count = some (if ltb n 2 then 2 else 1);
  expire_fails = false;
  decr_fails = false;
  start = 600 + n;
  now = 600 + n;
}

limited_complete-returns_example :
    (((limited_complete limits 5 busy busy false plain_reply).0 ≡ inner_reply plain_reply)
      ⊎ ((limited_complete limits 5 busy busy false plain_reply).0 ≡ limited wait_timeout))
    × ((limited_complete limits 5 busy busy false plain_reply).1.taken
        ≡ (limited_complete limits 5 busy busy false plain_reply).1.given)
limited_complete-returns_example =
    limited_complete-returns limits 5 busy busy plain_reply
      (record { expires = λ n. refl; lowers = λ n. refl }) (λ n. omega arith) (λ n. omega arith)
      (omega arith)

-- Where `expire` raises, the slot that has been taken is not given back.
leaked :
    limited_complete limits 5 (λ n. record (busy n) { expire_fails = true }) busy false plain_reply
    ≡ (inner_reply plain_reply, record { taken = 1; given = 0 })
unfolding limited_complete acquire_concurrency after_concurrency
leaked = refl
