-- ===== src/Trace.antt =====
-- schemas/trace.py: the checks of a `TraceSpan`, and services/trace.py: the rows in which `TraceService`
-- writes spans and from which it reads them. The JSON encoder is an argument; numbers are not negative.
-- A time's column rounds as its dialect does; the other columns keep what is inserted.
pub mod Rows
pub mod Saved
pub mod Snapshot
pub mod Builder
pub mod Recorder
pub mod Flow
pub mod Frames
pub mod Steps
pub mod Runs
pub mod Valid
pub mod Tests
use bank_reconciliation_agen.Base.{
  ℕ, Bool, true, false, ◌&&◌, ◌||◌, String, Option, none, some, List, [], ◌∷◌, ◌==◌, str_eq, all,
  any, if◌then◌else◌, ltb, leb, is_none,
}
use bank_reconciliation_agen.Base.Int.{ℤ, pos, negsuc}

pub data SpanType : Type 0 where
  workflow : SpanType
  route : SpanType
  tool : SpanType
  agent : SpanType
  guard : SpanType
  final : SpanType
  fallback : SpanType

pub data SpanStatus : Type 0 where
  succeeded : SpanStatus
  failed : SpanStatus
  cancelled : SpanStatus

-- A `datetime`: its microseconds on its own clock, and its offset from UTC if it is aware.
pub record Timestamp : Type 0 where
  pub micros : ℕ
  pub utcoffset : Option ℤ

pub record TraceSpan : Type 0 where
  pub schema_version : String
  pub trace_id : String
  pub span_id : String
  pub parent_span_id : Option String
  pub user_id : String
  pub task_id : String
  pub flow_id : String
  pub sequence_no : ℕ
  pub span_type : SpanType
  pub name : String
  pub started_at : Timestamp
  pub ended_at : Timestamp
  pub duration_ms : ℕ
  pub status : SpanStatus
  pub outcome : Option String
  pub attempt : ℕ
  pub retry_recovered : Bool
  pub recovered_error_type : Option String
  pub structured_repair_attempted : Option Bool
  pub structured_repair_succeeded : Option Bool
  pub model_name : Option String
  pub prompt_tokens : Option ℕ
  pub completion_tokens : Option ℕ
  pub cached_calls : Option ℕ
  pub result_count : Option ℕ
  pub error_type : Option String
  pub fallback_reason : Option String
  pub evidence_ids : List String

-- `span_type.value`
abbrev pub type_value : SpanType → String
type_value workflow = "WORKFLOW"
type_value route = "ROUTE"
type_value tool = "TOOL"
type_value agent = "AGENT"
type_value guard = "GUARD"
type_value final = "FINAL"
type_value fallback = "FALLBACK"

-- `status.value`
abbrev pub status_value : SpanStatus → String
status_value succeeded = "SUCCEEDED"
status_value failed = "FAILED"
status_value cancelled = "CANCELLED"

-- `_must_be_utc`
unfoldable pub is_utc : Option ℤ → Bool
is_utc none = false
is_utc (some (pos n)) = n == 0
is_utc (some (negsuc n)) = false

abbrev pub workflow_outcomes : List String
workflow_outcomes = "AUTO_FIXED" ∷ "PENDING_HUMAN" ∷ "UNRESOLVED" ∷ []

-- `_ALLOWED_OUTCOMES`
unfoldable pub allowed_outcomes : SpanType → Option (List String)
allowed_outcomes workflow = some workflow_outcomes
allowed_outcomes route = none
allowed_outcomes tool = some ("RESULT" ∷ "EMPTY" ∷ [])
allowed_outcomes agent = none
allowed_outcomes guard = some ("PASSED" ∷ "BLOCKED" ∷ [])
allowed_outcomes final = some workflow_outcomes
allowed_outcomes fallback = some ("PENDING_HUMAN" ∷ [])

-- `_validate_outcome_by_type`
unfoldable pub outcome_fits : Option (List String) → Option String → Bool
outcome_fits allowed none = true
outcome_fits none (some outcome) = false
outcome_fits (some texts) (some outcome) = any (str_eq outcome) texts

-- `v is None or v == 0`
abbrev pub none_or_zero : Option ℕ → Bool
none_or_zero none = true
none_or_zero (some n) = n == 0

abbrev pub is_agent : SpanType → Bool
is_agent agent = true
is_agent t = false

abbrev pub is_workflow : SpanType → Bool
is_workflow workflow = true
is_workflow t = false

-- FINAL or FALLBACK
abbrev pub is_last : SpanType → Bool
is_last final = true
is_last fallback = true
is_last t = false

-- `_validate_token_fields`
unfoldable pub tokens_fit : TraceSpan → Bool
tokens_fit s =
    is_agent s.span_type
    || (none_or_zero s.prompt_tokens
        && none_or_zero s.completion_tokens
        && none_or_zero s.cached_calls
        && is_none s.model_name
        && is_none s.structured_repair_attempted
        && is_none s.structured_repair_succeeded)

-- `min_length=1`
abbrev pub is_filled : String → Bool
is_filled s = if str_eq s "" then false else true

-- `_must_be_utc` of both times, and `_validate_time_order`
unfoldable pub times_fit : Timestamp → Timestamp → Bool
unfolding is_utc
times_fit start end = is_utc start.utcoffset && is_utc end.utcoffset && leb start.micros end.micros

-- The constraints of the fields, and the two validators on outcome and tokens.
unfoldable pub fields_fit : TraceSpan → Bool
unfolding allowed_outcomes outcome_fits tokens_fit
fields_fit s =
    str_eq s.schema_version "1.0"
    && all is_filled (s.trace_id ∷ s.span_id ∷ s.user_id ∷ s.task_id ∷ s.flow_id ∷ s.name ∷ [])
    && leb 1 s.sequence_no
    && leb 1 s.attempt
    && outcome_fits (allowed_outcomes s.span_type) s.outcome
    && tokens_fit s

-- The constraints and validators of `TraceSpan`; any of them that fails raises.
unfoldable pub is_accepted : TraceSpan → Bool
unfolding times_fit fields_fit
is_accepted s = times_fit s.started_at s.ended_at && fields_fit s

-- `TraceSpan(...)`: none where a validator raises.
unfoldable pub validated : TraceSpan → Option TraceSpan
unfolding is_accepted
validated s = if is_accepted s then some s else none
