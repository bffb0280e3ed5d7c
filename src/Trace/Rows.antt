-- ===== src/Trace/Rows.antt =====
-- services/trace.py: `_span_to_row`, `_row_to_span`, `_validate_caller_identity` and `save_trace`.
use bank_reconciliation_agen.Base.{
  ℕ, ◌+◌, ◌*◌, ◌/◌, Bool, true, false, String, Option, none, some, List, ◌==◌, str_eq,
  if◌then◌else◌,
}
use bank_reconciliation_agen.Base.Int.{pos}
use bank_reconciliation_agen.Trace.{
  SpanType, workflow, route, tool, agent, guard, final, fallback, SpanStatus, succeeded, failed,
  cancelled, Timestamp, TraceSpan, type_value, status_value, validated,
}

-- The column `evidence_ids`: JSON, or its text in SQLite.
pub data EvidenceCell : Type 0 where
  json : List String → EvidenceCell
  text : String → EvidenceCell

-- The row of a span; dates are naive.
pub record SpanRow : Type 0 where
  pub trace_id : String
  pub span_id : String
  pub parent_span_id : Option String
  pub user_id : String
  pub task_id : String
  pub flow_id : String
  pub sequence_no : ℕ
  pub span_type : String
  pub name : String
  pub started_at : Timestamp
  pub ended_at : Timestamp
  pub duration_ms : ℕ
  pub status : String
  pub outcome : Option String
  pub attempt : ℕ
  pub retry_recovered : ℕ
  pub recovered_error_type : Option String
  pub structured_repair_attempted : Option ℕ
  pub structured_repair_succeeded : Option ℕ
  pub model_name : Option String
  pub prompt_tokens : Option ℕ
  pub completion_tokens : Option ℕ
  pub cached_calls : Option ℕ
  pub result_count : Option ℕ
  pub error_type : Option String
  pub fallback_reason : Option String
  pub evidence_ids : EvidenceCell
  pub schema_version : String

-- `int(b)`
abbrev pub int_of : Bool → ℕ
int_of true = 1
int_of false = 0

abbrev pub flag_column : Option Bool → Option ℕ
flag_column none = none
flag_column (some b) = some (int_of b)

-- `bool(n)`
abbrev pub bool_of : ℕ → Bool
bool_of n = if n == 0 then false else true

abbrev pub read_flag : Option ℕ → Option Bool
read_flag none = none
read_flag (some n) = some (bool_of n)

-- `dt.replace(tzinfo=None)`
abbrev pub naive : Timestamp → Timestamp
naive t = record t { utcoffset = none }

-- `_ensure_utc`
abbrev pub ensure_utc : Timestamp → Timestamp
ensure_utc t = elim t.utcoffset [ none ↦ record t { utcoffset = some (pos 0) } | some d ↦ t ]

-- `SpanType(value)`
unfoldable pub span_type_of : String → Option SpanType
span_type_of s =
    if str_eq s "WORKFLOW"
    then some workflow
    else if str_eq s "ROUTE"
    then some route
    else if str_eq s "TOOL"
    then some tool
    else if str_eq s "AGENT"
    then some agent
    else if str_eq s "GUARD"
    then some guard
    else if str_eq s "FINAL"
    then some final
    else if str_eq s "FALLBACK"
    then some fallback
    else none

-- `SpanStatus(value)`
unfoldable pub status_of : String → Option SpanStatus
status_of s =
    if str_eq s "SUCCEEDED"
    then some succeeded
    else if str_eq s "FAILED"
    then some failed
    else if str_eq s "CANCELLED"
    then some cancelled
    else none

-- `_span_to_row`
unfoldable pub span_to_row : Bool → (List String → String) → String → TraceSpan → SpanRow
span_to_row is_sqlite dumps user s = record {
  trace_id = s.trace_id;
  span_id = s.span_id;
  parent_span_id = s.parent_span_id;
  user_id = user;
  task_id = s.task_id;
  flow_id = s.flow_id;
  sequence_no = s.sequence_no;
  span_type = type_value s.span_type;
  name = s.name;
  started_at = naive s.started_at;
  ended_at = naive s.ended_at;
  duration_ms = s.duration_ms;
  status = status_value s.status;
  outcome = s.outcome;
  attempt = s.attempt;
  retry_recovered = int_of s.retry_recovered;
  recovered_error_type = s.recovered_error_type;
  structured_repair_attempted = flag_column s.structured_repair_attempted;
  structured_repair_succeeded = flag_column s.structured_repair_succeeded;
  model_name = s.model_name;
  prompt_tokens = s.prompt_tokens;
  completion_tokens = s.completion_tokens;
  cached_calls = s.cached_calls;
  result_count = s.result_count;
  error_type = s.error_type;
  fallback_reason = s.fallback_reason;
  evidence_ids = if is_sqlite then text (dumps s.evidence_ids) else json s.evidence_ids;
  schema_version = s.schema_version;
}

-- The columns started_at and ended_at: DATETIME without a fraction, which MySQL rounds to; SQLite keeps it.
abbrev pub stored_time : Bool → Timestamp → Timestamp
stored_time is_sqlite t = record t {
  micros = if is_sqlite then t.micros else (t.micros + 500000) / 1000000 * 1000000;
}

-- The row as the table keeps it.
abbrev pub stored_row : Bool → SpanRow → SpanRow
stored_row is_sqlite r = record r {
  started_at = stored_time is_sqlite r.started_at;
  ended_at = stored_time is_sqlite r.ended_at;
}

abbrev pub read_evidence : (String → Option (List String)) → EvidenceCell → Option (List String)
read_evidence loads (json evidence) = some evidence
read_evidence loads (text s) = loads s

abbrev pub span_of : SpanRow → List String → SpanType → SpanStatus → TraceSpan
span_of r evidence span_type status = record {
  schema_version = r.schema_version;
  trace_id = r.trace_id;
  span_id = r.span_id;
  parent_span_id = r.parent_span_id;
  user_id = r.user_id;
  task_id = r.task_id;
  flow_id = r.flow_id;
  sequence_no = r.sequence_no;
  span_type = span_type;
  name = r.name;
  started_at = ensure_utc r.started_at;
  ended_at = ensure_utc r.ended_at;
  duration_ms = r.duration_ms;
  status = status;
  outcome = r.outcome;
  attempt = r.attempt;
  retry_recovered = bool_of r.retry_recovered;
  recovered_error_type = r.recovered_error_type;
  structured_repair_attempted = read_flag r.structured_repair_attempted;
  structured_repair_succeeded = read_flag r.structured_repair_succeeded;
  model_name = r.model_name;
  prompt_tokens = r.prompt_tokens;
  completion_tokens = r.completion_tokens;
  cached_calls = r.cached_calls;
  result_count = r.result_count;
  error_type = r.error_type;
  fallback_reason = r.fallback_reason;
  evidence_ids = evidence;
}

abbrev pub checked_span :
    SpanRow → Option (List String) → Option SpanType → Option SpanStatus → Option TraceSpan
checked_span r none kind status = none
checked_span r (some evidence) none status = none
checked_span r (some evidence) (some kind) none = none
checked_span r (some evidence) (some kind) (some status) =
    validated (span_of r evidence kind status)

-- `_row_to_span`: none where the JSON or a value is not accepted.
unfoldable pub row_to_span : (String → Option (List String)) → SpanRow → Option TraceSpan
unfolding span_type_of status_of
row_to_span loads r =
    checked_span r (read_evidence loads r.evidence_ids) (span_type_of r.span_type)
      (status_of r.status)
