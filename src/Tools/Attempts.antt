-- ===== src/Tools/Attempts.antt =====
-- What the attempts of a tool call look like, and that a call ends.
use bank_reconciliation_agen.Base.{
  ℕ, suc, ◌≤◌, ◌<◌, ◌≡◌, ◌≢◌, Bool, true, false, Option, none, some, List, [], ◌∷◌, ◌++◌, length,
  is_some, is_none,
}
use bank_reconciliation_agen.Base.Dict.{Dict}
use bank_reconciliation_agen.Tools.{
  ToolStatus, failed, ToolAttemptRecord, ToolDefinition, succeeded, emptied, invalid, status_fits,
  AdapterOutcome, timed_out, read_error, transient_error, ToolCallResult, Execution, executed,
  reraised, unreachable,
}

-- The records of failed attempts that were tried again, numbered from n.
abbrev pub Retried : ℕ → List ToolAttemptRecord → Type 0
Retried n [] = Unit
Retried n (r ∷ rs) =
    (r.attempt ≡ n) × (r.status ≡ failed) × (r.retryable ≡ true) × Retried (suc n) rs

-- A finished call: every attempt but the last failed and was retried, the last is the one reported,
-- and no more attempts were made than allowed.
pub record IsAccounted {ℓ} {Out : Type ℓ} (allowed : ℕ) (r : ToolCallResult Out) : Type 0 where
  pub earlier : List ToolAttemptRecord
  pub last : ToolAttemptRecord
  pub is_attempts : r.attempts ≡ earlier ++ last ∷ []
  pub is_retried : Retried 1 earlier
  pub is_last : last.attempt ≡ suc (length earlier)
  pub is_attempt : r.attempt ≡ suc (length earlier)
  pub is_bounded : length r.attempts ≤ allowed
  pub is_status : r.status ≡ last.status
  pub is_recovered : r.retry_recovered ≡ true → (r.status ≢ failed) × (1 < r.attempt)
  pub is_exhausted : r.retryable ≡ true → length r.attempts ≡ allowed
  pub is_valid : status_fits r ≡ true

-- The call ends with an accounted result, raises a read error again where that is `Reraised`, or raises the
-- ValidationError of the third record where more than two attempts are allowed.
abbrev pub IsEnded {ℓ} : {Out : Type ℓ} → Type 0 → ℕ → Execution Out → Type 0
IsEnded Reraised allowed (executed r) = IsAccounted allowed r
IsEnded Reraised allowed reraised = Reraised
IsEnded Reraised allowed invalid = 2 < allowed
IsEnded Reraised allowed unreachable = ⊥

-- A timeout, a read error or a ToolTransientError.
abbrev pub is_again {ℓ} : {Raw : Type ℓ} → AdapterOutcome Raw → Bool
is_again timed_out = true
is_again read_error = true
is_again transient_error = true
is_again _ = false

abbrev pub is_read {ℓ} : {Raw : Type ℓ} → AdapterOutcome Raw → Bool
is_read read_error = true
is_read _ = false

-- The last allowed attempt ended with a read error, and each before it with an error that is tried again.
pub record IsReread {ℓ} {Args Input Context Raw Out : Type ℓ}
    (d : ToolDefinition Args Input Context Raw Out) (input : Input) (context : Context)
    : Type 0 where
  pub last_read : is_read (d.adapter d.policy.max_attempts input context) ≡ true
  pub earlier_again :
      (k : ℕ) → 1 ≤ k → k < d.policy.max_attempts → is_again (d.adapter k input context) ≡ true

-- The same of a call whose context and arguments validate.
abbrev pub IsCallReread {ℓ} :
    {Args Input Context Raw Out : Type ℓ}
    → ToolDefinition Args Input Context Raw Out
    → Option Input
    → Option Context
    → Type 0
IsCallReread d (some input) (some ctx) = IsReread d input ctx
IsCallReread d none (some ctx) = ⊥
IsCallReread d input none = ⊥

-- Whether a result without an error can have the status.
abbrev fits {ℓ} : {Out : Type ℓ} → ToolStatus → Option Out → Bool
fits succeeded out = is_some out
fits emptied out = is_none out
fits failed out = false

module _ {ℓ} {Args Input Context Raw Out : Type ℓ} (d : ToolDefinition Args Input Context Raw Out)
    (input : Input) (context : Context) where
  -- The attempts so far ended with errors that are tried again.
  abbrev IsAgain : ℕ → Type 0
  IsAgain n = (k : ℕ) → 1 ≤ k → k ≤ n → is_again (d.adapter k input context) ≡ true
