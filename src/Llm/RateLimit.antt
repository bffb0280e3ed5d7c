-- ===== src/Llm/RateLimit.antt =====
-- core/llm/rate_limit.py: `RateLimitedLLMProvider.complete` around one call of an inner provider. What
-- each statement of Redis answers is an argument, for other processes change the counters too; the
-- counts of this call's own steps on the concurrency counter are kept. Times count polls of 0.1 seconds, the log
-- and the metrics of the class are left out.
pub mod Slots
use bank_reconciliation_agen.Base.{
  ℕ, zero, suc, ◌+◌, ◌-◌, ◌%◌, Bool, true, false, Option, none, some, leb, ◌==◌, if◌then◌else◌,
}
use bank_reconciliation_agen.Llm.{LlmCallError, rate_limited, Reply, call_error}
use bank_reconciliation_agen.Base.{[]}

-- The settings of the provider; its times in polls.
pub record Limits : Type 0 where
  pub rpm : ℕ
  pub max_concurrency : ℕ
  pub max_wait_seconds : ℕ
  pub window_seconds : ℕ

-- What one round of a loop meets: the count that `incr` returns, or a RedisError; whether `expire` and
-- `decr` raise one; and the time, which is read at the round's start and again when it may sleep.
pub record Round : Type 0 where
  pub count : Option ℕ
  pub expire_fails : Bool
  pub decr_fails : Bool
  pub start : ℕ
  pub now : ℕ

-- The steps of this call on the counter `llmratelimit:concurrency`.
pub record Slot : Type 0 where
  pub taken : ℕ
  pub given : ℕ

-- How a loop ends: with what it waits for, a RedisError, the LLMCallError of the waiting time, or not
-- within the rounds that are looked at.
pub data Acquisition : Type 0 where
  acquired redis_error rejected pending : Acquisition

-- `_sleep_or_reject` raises, where the waiting has begun at `started`.
abbrev pub rejects : Limits → ℕ → ℕ → Bool
rejects limits started now = leb limits.max_wait_seconds (now - started)

-- `started_at`, set by the first denial.
abbrev pub since : Option ℕ → ℕ → ℕ
since none now = now
since (some started) now = started

-- How a call ends: with the inner provider's reply, the LLMCallError of the limits, or not yet.
pub data Limited : Type 0 where
  inner_reply : Reply → Limited
  limited : LlmCallError → Limited
  waiting : Limited

abbrev pub wait_timeout : LlmCallError
wait_timeout = record {
  failure_type = rate_limited;
  retryable = true;
  attempts = [];
  fallback_reason = none;
}

module _ (limits : Limits) where
  -- `_acquire_concurrency`, of the rounds from the `n`-th on.
  unfoldable pub acquire_concurrency :
      (fuel n : ℕ) → (ℕ → Round) → Option ℕ → Slot → Acquisition × Slot
  acquire_concurrency zero n rounds started s = (pending, s)
  acquire_concurrency (suc fuel) n rounds started s =
      let r = rounds n in
      let up = record s { taken = s.taken + 1 } in
      let down = record up { given = up.given + 1 } in
      let later = acquire_concurrency fuel (n + 1) rounds (some (since started r.now)) down in
      elim r.count [
        | none ↦ (redis_error, s)
        | some count ↦
            if r.expire_fails
            then (redis_error, up)
            else if leb count limits.max_concurrency
            then (acquired, up)
            else if r.decr_fails
            then (redis_error, up)
            else if rejects limits (since started r.now) r.now
            then (rejected, down)
            else later
      ]

  -- `_window_start`
  abbrev pub window_start : ℕ → ℕ
  window_start now = now - now % limits.window_seconds

  -- `denied_window == window_start`
  abbrev pub is_denied : Option ℕ → ℕ → Bool
  is_denied none window = false
  is_denied (some denied) window = denied == window

  -- `_acquire_rpm`, of the rounds from the `n`-th on.
  unfoldable pub acquire_rpm : (fuel n : ℕ) → (ℕ → Round) → Option ℕ → Option ℕ → Acquisition
  acquire_rpm zero n rounds denied started = pending
  acquire_rpm (suc fuel) n rounds denied started =
      let r = rounds n in
      let window = window_start r.start in
      let waiting = since started r.now in
      let later = acquire_rpm fuel (n + 1) rounds (some window) (some waiting) in
      let wait = if rejects limits waiting r.now then rejected else later in
      if is_denied denied window then wait else elim r.count [
        | none ↦ redis_error
        | some count ↦
            if count == 1
            then (if r.expire_fails
                then redis_error
                else if leb count limits.rpm
                then acquired
                else wait)
            else if leb count limits.rpm
            then acquired
            else wait
      ]

  -- `_release_concurrency_degraded`
  unfoldable pub release : Bool → Slot → Slot
  release decr_fails s = if decr_fails then s else record s { given = s.given + 1 }

  unfoldable pub after_rpm : Bool → Reply → Acquisition × Slot → Limited × Slot
  unfolding release
  after_rpm decr_fails inner (rejected, s) = (limited wait_timeout, release decr_fails s)
  after_rpm decr_fails inner (redis_error, s) = (inner_reply inner, release decr_fails s)
  after_rpm decr_fails inner (acquired, s) = (inner_reply inner, release decr_fails s)
  after_rpm decr_fails inner (pending, s) = (waiting, s)

  unfoldable pub after_concurrency :
      ℕ → (ℕ → Round) → Bool → Reply → Acquisition × Slot → Limited × Slot
  unfolding after_rpm acquire_rpm
  after_concurrency fuel rpm_rounds decr_fails inner (rejected, s) = (limited wait_timeout, s)
  after_concurrency fuel rpm_rounds decr_fails inner (redis_error, s) = (inner_reply inner, s)
  after_concurrency fuel rpm_rounds decr_fails inner (pending, s) = (waiting, s)
  after_concurrency fuel rpm_rounds decr_fails inner (acquired, s) =
      after_rpm decr_fails inner (acquire_rpm fuel 0 rpm_rounds none none, s)

  -- `complete`; `decr_fails` is of the release.
  unfoldable pub limited_complete : ℕ → (ℕ → Round) → (ℕ → Round) → Bool → Reply → Limited × Slot
  unfolding after_concurrency acquire_concurrency
  limited_complete fuel rounds rpm_rounds decr_fails inner =
      after_concurrency fuel rpm_rounds decr_fails inner
        (acquire_concurrency fuel 0 rounds none (record { taken = 0; given = 0 }))
