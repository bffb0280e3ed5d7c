-- ===== src/Trace/Recorder.antt =====
-- services/trace.py: `TraceRecorder`. Ids and readings of the clocks are arguments. A handle on a builder
-- is its sequence_no.
use bank_reconciliation_agen.Base.{
  ℕ, ◌+◌, Bool, true, false, String, Option, none, some, List, [], ◌∷◌, ◌++◌, ◌==◌, if◌then◌else◌,
}
use bank_reconciliation_agen.Base.Table.{update_where}
use bank_reconciliation_agen.Trace.{SpanType, workflow, SpanStatus, succeeded, Timestamp, TraceSpan}
use bank_reconciliation_agen.Trace.Snapshot.{validate_trace_snapshot}
use bank_reconciliation_agen.Trace.Builder.{
  SpanBuilder, Clock, close, terminal_type_of, terminal_name_of, set_outcome, to_spans,
}

pub record TraceRecorder : Type 0 where
  pub user_id : String
  pub task_id : String
  pub flow_id : String
  pub trace_id : String
  pub sequence_counter : ℕ
  pub spans : List SpanBuilder
  pub parent_stack : List String
  pub disabled : Bool
  pub snapshot : Option (List TraceSpan)

-- `_current_parent_id`; the stack's top stands first.
abbrev pub current_parent_id : List String → Option String
current_parent_id [] = none
current_parent_id (p ∷ stack) = some p

-- `_SpanBuilder(...)` as `_new_builder` calls it.
unfoldable pub new_span : SpanType → String → String → Clock → TraceRecorder → SpanBuilder
new_span span_type name uuid c r = record {
  fields = record {
    schema_version = "1.0";
    trace_id = r.trace_id;
    span_id = uuid;
    parent_span_id = current_parent_id r.parent_stack;
    user_id = r.user_id;
    task_id = r.task_id;
    flow_id = r.flow_id;
    sequence_no = r.sequence_counter + 1;
    span_type = span_type;
    name = name;
    started_at = c.now;
    ended_at = c.now;
    duration_ms = 0;
    status = succeeded;
    outcome = none;
    attempt = 1;
    retry_recovered = false;
    recovered_error_type = none;
    structured_repair_attempted = none;
    structured_repair_succeeded = none;
    model_name = none;
    prompt_tokens = none;
    completion_tokens = none;
    cached_calls = none;
    result_count = none;
    error_type = none;
    fallback_reason = none;
    evidence_ids = [];
  };
  ended = none;
  mono_start = c.monotonic;
}

-- `_new_builder` and what the caller sets in the builder, before anything else happens to it.
unfoldable pub add_builder :
    SpanType → String → String → Clock → (SpanBuilder → SpanBuilder) → TraceRecorder → TraceRecorder
unfolding new_span
add_builder span_type name uuid c set r = record r {
  sequence_counter = r.sequence_counter + 1;
  spans = r.spans ++ (set (new_span span_type name uuid c r) ∷ []);
}

-- `builder.…` of the builder with a handle.
unfoldable pub update_builder : ℕ → (SpanBuilder → SpanBuilder) → TraceRecorder → TraceRecorder
unfolding update_where
update_builder handle f r = record r {
  spans = update_where (λ b. b.fields.sequence_no == handle) f r.spans;
}

-- `TraceRecorder.__init__`
unfoldable pub new_recorder :
    String → String → String → String → String → String → Clock → TraceRecorder
unfolding add_builder
new_recorder user task flow root_name trace_uuid root_uuid c =
    let empty : TraceRecorder = record {
      user_id = user;
      task_id = task;
      flow_id = flow;
      trace_id = trace_uuid;
      sequence_counter = 0;
      spans = [];
      parent_stack = [];
      disabled = false;
      snapshot = none;
    } in
    record (add_builder workflow root_name root_uuid c (λ b. b) empty) {
      parent_stack = root_uuid ∷ [];
    }

-- `close_root`; the root's handle is 1.
unfoldable pub close_root :
    SpanStatus
    → String
    → Option SpanType
    → Option String
    → String
    → Clock
    → Clock
    → TraceRecorder
    → TraceRecorder
unfolding add_builder update_builder close terminal_type_of terminal_name_of
close_root status outcome terminal_type terminal_name uuid c c' r =
    if r.disabled
    then r
    else let t = terminal_type_of terminal_type outcome in
      update_builder 1 (set_outcome status outcome c')
        (add_builder t (terminal_name_of terminal_name t) uuid c (set_outcome status outcome c) r)

-- `disable`
unfoldable pub disable : TraceRecorder → TraceRecorder
disable r = record r { disabled = true; spans = []; snapshot = some [] }

-- `snapshot` of spans that are converted already, or not accepted.
unfoldable pub validated_snapshot :
    Option (List TraceSpan) → TraceRecorder → TraceRecorder × Option (List TraceSpan)
unfolding validate_trace_snapshot
validated_snapshot none r = (r, none)
validated_snapshot (some spans) r =
    if validate_trace_snapshot spans
    then (record r { snapshot = some spans }, some spans)
    else (r, none)

-- `snapshot`: the recorder behind it, and the spans, or none where it raises.
unfoldable pub snapshot : (ℕ → Timestamp) → TraceRecorder → TraceRecorder × Option (List TraceSpan)
unfolding to_spans validated_snapshot
snapshot now r = if r.disabled then (r, some []) else elim r.snapshot [
  | some spans ↦ (r, some spans)
  | none ↦ validated_snapshot (to_spans now r.spans) r
]
