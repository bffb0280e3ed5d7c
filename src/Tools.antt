-- ===== src/Tools.antt =====
-- services/tool_executor.py: `ToolExecutor.execute`, with its attempts and their records. Durations,
-- the backoff's sleep and the log are left out; the thread pool's `future.result` shows as the
-- outcome of the adapter's call.
pub mod Attempts
mod Tests
use bank_reconciliation_agen.Base.{
  ℕ, zero, suc, ◌+◌, Bool, true, false, not, ◌||◌, String, Option, none, some, List, [], ◌∷◌, ◌++◌,
  ltb, if◌then◌else◌, ◌&&◌, is_some, is_none, str_eq,
}
use bank_reconciliation_agen.Base.Dict.{Dict, get}

pub data ToolErrorType : Type 0 where
  unknown_tool validation_error permission_denied timeout transient_read_error internal_error
        circuit_open :
      ToolErrorType

pub data ToolStatus : Type 0 where
  succeeded emptied failed : ToolStatus

-- `_FALLBACK_REASONS`
unfoldable pub fallback_reason_of : ToolErrorType → String
fallback_reason_of unknown_tool = "TOOL_UNKNOWN"
fallback_reason_of validation_error = "TOOL_INPUT_INVALID"
fallback_reason_of permission_denied = "TOOL_ACCESS_DENIED"
fallback_reason_of timeout = "TOOL_TIMEOUT"
fallback_reason_of transient_read_error = "TOOL_TRANSIENT_READ_ERROR"
fallback_reason_of internal_error = "TOOL_INTERNAL_ERROR"
fallback_reason_of circuit_open = "RAG_CIRCUIT_OPEN"

-- `error_type in _RETRYABLE_ERRORS`
unfoldable pub is_retryable : ToolErrorType → Bool
is_retryable timeout = true
is_retryable transient_read_error = true
is_retryable _ = false

pub record ToolAttemptRecord : Type 0 where
  pub attempt : ℕ
  pub status : ToolStatus
  pub error_type : Option ToolErrorType
  pub retryable : Bool

pub record ToolPolicy : Type 0 where
  pub max_attempts : ℕ

-- What a call of the adapter ends with: a value or None, FuturesTimeoutError, CircuitOpenError, an
-- OperationalError or RedisConnectionError, a ToolTransientError, or another exception.
pub data AdapterOutcome {ℓ} (Raw : Type ℓ) : Type ℓ where
  returned : Option Raw → AdapterOutcome Raw
  timed_out circuit_opened read_error transient_error other_error : AdapterOutcome Raw

-- `ToolDefinition`. The schemas validate or refuse; the adapter also sees which attempt it is.
-- `has_no_items` is `_is_empty` on the output schema.
pub record ToolDefinition {ℓ} (Args Input Context Raw Out : Type ℓ) : Type ℓ where
  pub name : String
  pub input_schema : Args → Option Input
  pub output_schema : Raw → Option Out
  pub has_no_items : Out → Bool
  pub adapter : ℕ → Input → Context → AdapterOutcome Raw
  pub scenario_predicate : Context → Bool
  pub policy : ToolPolicy

-- Not None and not empty.
abbrev pub is_named : Option String → Bool
is_named none = false
is_named (some s) = if str_eq s "" then false else true

pub record ToolCallResult {ℓ} (Out : Type ℓ) : Type ℓ where
  pub tool_name : String
  pub status : ToolStatus
  pub result : Option Out
  pub error_type : Option ToolErrorType
  pub fallback_reason : Option String
  pub retryable : Bool
  pub attempt : ℕ
  pub retry_recovered : Bool
  pub attempts : List ToolAttemptRecord

-- `_enforce_status_invariants`: false where it raises. `success` is set nowhere.
unfoldable pub status_fits {ℓ} : {Out : Type ℓ} → ToolCallResult Out → Bool
status_fits r = elim r.status [
  | succeeded ↦
      is_some r.result && is_none r.error_type && is_none r.fallback_reason && not r.retryable
  | emptied ↦
      is_none r.result && is_none r.error_type && is_none r.fallback_reason && not r.retryable
  | failed ↦ is_none r.result && is_some r.error_type && is_named r.fallback_reason
]

-- A result, the read error raised again, the ValidationError of a record, whose attempt is 1 or 2, or the
-- AssertionError behind the loop.
pub data Execution {ℓ} (Out : Type ℓ) : Type ℓ where
  executed : ToolCallResult Out → Execution Out
  reraised invalid unreachable : Execution Out

unfoldable pub failed_record : ℕ → ToolErrorType → Bool → ToolAttemptRecord
failed_record attempt error retryable = record {
  attempt = attempt;
  status = failed;
  error_type = some error;
  retryable = retryable;
}

-- `records[-1].attempt`
unfoldable pub last_attempt : List ToolAttemptRecord → ℕ
last_attempt [] = 0
last_attempt (r ∷ []) = r.attempt
last_attempt (r ∷ q ∷ rs) = last_attempt (q ∷ rs)

module _ {ℓ} {Out : Type ℓ} where
  -- `_failure_result`
  unfoldable pub failure_result :
      String → ToolErrorType → List ToolAttemptRecord → ToolCallResult Out
  failure_result name error records = record {
    tool_name = name;
    status = failed;
    result = none;
    error_type = some error;
    fallback_reason = some (fallback_reason_of error);
    retryable = is_retryable error;
    attempt = last_attempt records;
    retry_recovered = false;
    attempts = records;
  }

  -- `_pre_adapter_failure`
  unfoldable pub pre_adapter_failure : String → ToolErrorType → Execution Out
  pre_adapter_failure name error =
      executed (failure_result name error (failed_record 1 error (is_retryable error) ∷ []))

module _ {ℓ} {Args Input Context Raw Out : Type ℓ} where
  -- `_validate_output`; `none` is the ValidationError.
  unfoldable pub validate_output :
      ToolDefinition Args Input Context Raw Out → Option Raw → Option (ToolStatus × Option Out)
  validate_output d none = some (emptied, none)
  validate_output d (some raw) = elim (d.output_schema raw) [
    | none ↦ none
    | some out ↦ some (if d.has_no_items out then (emptied, none) else (succeeded, some out))
  ]

  -- The failure of one attempt, which ends the call.
  unfoldable pub give_up :
      ToolDefinition Args Input Context Raw Out
      → List ToolAttemptRecord
      → ToolAttemptRecord
      → ToolErrorType
      → Execution Out
  give_up d records r error = executed (failure_result d.name error (records ++ r ∷ []))

  -- The result that the adapter returned.
  unfoldable pub answer :
      ToolDefinition Args Input Context Raw Out
      → ℕ
      → List ToolAttemptRecord
      → Option (ToolStatus × Option Out)
      → Execution Out
  answer d attempt records none =
      give_up d records (failed_record attempt internal_error false) internal_error
  answer d attempt records (some (status, out)) = executed (record {
    tool_name = d.name;
    status = status;
    result = out;
    error_type = none;
    fallback_reason = none;
    retryable = false;
    attempt = attempt;
    retry_recovered = ltb 1 attempt;
    attempts =
        records
        ++ (record { attempt = attempt; status = status; error_type = none; retryable = false })
          ∷ [];
  })

  -- The except clauses of one attempt. `more` is `attempt < policy.max_attempts`, and `continued` is
  -- the rest of the loop.
  unfoldable pub after :
      ToolDefinition Args Input Context Raw Out
      → ℕ
      → List ToolAttemptRecord
      → Bool
      → (List ToolAttemptRecord → Execution Out)
      → AdapterOutcome Raw
      → Execution Out
  after d attempt records true continued timed_out =
      continued (records ++ failed_record attempt timeout true ∷ [])
  after d attempt records false continued timed_out =
      give_up d records (failed_record attempt timeout true) timeout
  after d attempt records more continued circuit_opened =
      give_up d records (failed_record attempt circuit_open false) circuit_open
  after d attempt records true continued read_error =
      continued (records ++ failed_record attempt transient_read_error true ∷ [])
  after d attempt records false continued read_error = reraised
  after d attempt records true continued transient_error =
      continued (records ++ failed_record attempt transient_read_error true ∷ [])
  after d attempt records false continued transient_error =
      give_up d records (failed_record attempt transient_read_error true) transient_read_error
  after d attempt records more continued other_error =
      give_up d records (failed_record attempt internal_error false) internal_error
  after d attempt records more continued (returned raw) =
      answer d attempt records (validate_output d raw)

  -- The loop of `_run_attempts`, with the attempts that are left. Each attempt makes one record when the adapter
  -- has ended, and `Literal[1, 2]` accepts no other number.
  unfoldable pub run_attempts :
      ToolDefinition Args Input Context Raw Out
      → Input
      → Context
      → ℕ
      → ℕ
      → List ToolAttemptRecord
      → Execution Out
  run_attempts d input context zero attempt records = unreachable
  run_attempts d input context (suc left) attempt records =
      let next : List ToolAttemptRecord → Execution Out =
        λ rs. run_attempts d input context left (suc attempt) rs in
      if ltb 2 attempt
      then invalid
      else after d attempt records (ltb attempt d.policy.max_attempts) next
          (d.adapter attempt input context)

  unfoldable pub authorized :
      (Context → Bool)
      → String
      → ToolDefinition Args Input Context Raw Out
      → Context
      → Input
      → Execution Out
  authorized authorizer name d context input =
      if not (authorizer context) || not (d.scenario_predicate context)
      then pre_adapter_failure name permission_denied
      else run_attempts d input context d.policy.max_attempts 1 []

  -- `ToolExecutor.execute`; `none` for a context that does not validate.
  unfoldable pub execute :
      Dict (ToolDefinition Args Input Context Raw Out)
      → (Context → Bool)
      → String
      → Args
      → Option Context
      → Execution Out
  execute registry authorizer name args context = elim (get name registry) [
    | none ↦ pre_adapter_failure name unknown_tool
    | some d ↦ elim context [
      | none ↦ pre_adapter_failure name validation_error
      | some ctx ↦ elim (d.input_schema args) [
        | none ↦ pre_adapter_failure name validation_error
        | some input ↦ authorized authorizer name d ctx input
      ]
    ]
  ]
