-- ===== src/Trace/Tests.antt =====
-- Tests of the rows, the snapshots and the recorder of a trace.
use bank_reconciliation_agen.Base.{
  ℕ, length, ◌≡◌, refl, true, false, String, Option, none, some, List, [], ◌∷◌, map, str_eq,
  if◌then◌else◌,
}
use mathlib.Core.Option
use bank_reconciliation_agen.Trace.Builder.{Clock, ToolProjection, to_spans}
use bank_reconciliation_agen.Trace.Recorder.{TraceRecorder, new_recorder, snapshot}
use bank_reconciliation_agen.Trace.Flow.{
  Span, Body, done, call, within, start_tool, finish_tool, close_flow, run, is_plain, closes,
}
use bank_reconciliation_agen.Trace.Runs.{parent_stack-run}
use bank_reconciliation_agen.Trace.Valid.{run-snapshot}
use bank_reconciliation_agen.Base.Int.{pos}
use bank_reconciliation_agen.Trace.{
  TraceSpan, workflow, guard, fallback, agent, tool, succeeded, is_accepted,
}
use bank_reconciliation_agen.Trace.Rows.{SpanRow, span_to_row}
use bank_reconciliation_agen.Trace.Saved.{save_trace}
use bank_reconciliation_agen.Trace.Snapshot.{
  TraceService, validate_trace_snapshot, persist_snapshot,
}

abbrev root_span : TraceSpan
root_span = record {
  schema_version = "1.0";
  trace_id = "t1";
  span_id = "s1";
  parent_span_id = none;
  user_id = "u1";
  task_id = "k1";
  flow_id = "f1";
  sequence_no = 1;
  span_type = workflow;
  name = "reconciliation_workflow";
  started_at = record { micros = 10; utcoffset = some (pos 0) };
  ended_at = record { micros = 30; utcoffset = some (pos 0) };
  duration_ms = 0;
  status = succeeded;
  outcome = some "PENDING_HUMAN";
  attempt = 1;
  retry_recovered = false;
  recovered_error_type = none;
  structured_repair_attempted = none;
  structured_repair_succeeded = none;
  model_name = none;
  prompt_tokens = none;
  completion_tokens = none;
  cached_calls = none;
  result_count = none;
  error_type = none;
  fallback_reason = none;
  evidence_ids = [];
}

abbrev agent_span : TraceSpan
agent_span = record root_span {
  span_id = "s2";
  parent_span_id = some "s1";
  sequence_no = 2;
  span_type = agent;
  outcome = none;
  structured_repair_attempted = some true;
  structured_repair_succeeded = some false;
  model_name = some "m";
  prompt_tokens = some 7;
}

-- An encoder and a decoder that know two texts.
abbrev dumps : List String → String
dumps [] = "[]"
dumps (x ∷ xs) = "[\"c1\"]"

abbrev loads : String → Option (List String)
loads s = if str_eq s "[]" then some [] else if str_eq s "[\"c1\"]" then some ("c1" ∷ []) else none

abbrev tool_span : TraceSpan
tool_span = record root_span {
  span_id = "s3";
  sequence_no = 3;
  span_type = tool;
  outcome = some "RESULT";
  evidence_ids = "c1" ∷ [];
}

abbrev last_span : TraceSpan
last_span = record root_span {
  span_id = "s4";
  parent_span_id = some "s1";
  sequence_no = 4;
  span_type = fallback;
}

abbrev saved : List TraceSpan
saved = root_span ∷ agent_span ∷ tool_span ∷ last_span ∷ []

abbrev saved_rows : List SpanRow
saved_rows = map (span_to_row true dumps "u1") saved

saves : save_trace true dumps "u1" saved [] ≡ some saved_rows
unfolding save_trace
saves = refl

abbrev empty : TraceService
empty = record { rows = []; write_success_count = 0; write_failure_count = 4 }

abbrev filled : TraceService
filled = record { rows = saved_rows; write_success_count = 1; write_failure_count = 4 }

persists : persist_snapshot true dumps "u1" "k1" "f1" saved empty ≡ (filled, true)
unfolding persist_snapshot
persists = refl

-- A snapshot without a terminal span is refused, and so is one with a gap in its numbers.
no_terminal : validate_trace_snapshot (root_span ∷ agent_span ∷ tool_span ∷ []) ≡ false
unfolding validate_trace_snapshot
no_terminal = refl

with_gap : validate_trace_snapshot (root_span ∷ agent_span ∷ last_span ∷ []) ≡ false
unfolding validate_trace_snapshot
with_gap = refl

-- A span of another user is refused.
refuses_other_user : save_trace true dumps "u2" saved [] ≡ none
unfolding save_trace
refuses_other_user = refl

-- A span_id cannot be saved twice in one trace.
refuses_same_span : save_trace true dumps "u1" (root_span ∷ []) saved_rows ≡ none
unfolding save_trace
refuses_same_span = refl

accepts_agent : is_accepted agent_span ≡ true
unfolding is_accepted
accepts_agent = refl

-- A FALLBACK span with the outcome AUTO_FIXED is rejected.
rejects_fixed_fallback :
    is_accepted (record root_span { span_type = fallback; outcome = some "AUTO_FIXED" }) ≡ false
unfolding is_accepted
rejects_fixed_fallback = refl

abbrev at : ℕ → Clock
at n = record { now = record { micros = n; utcoffset = some (pos 0) }; monotonic = n }

abbrev empty_result : ToolProjection
empty_result = record {
  status = succeeded;
  outcome = some "EMPTY";
  attempt = 1;
  retry_recovered = false;
  recovered_error_type = none;
  result_count = 0;
  evidence_ids = none;
  error_type = none;
  fallback_reason = none;
}

abbrev guard_span : Span
guard_span = record {
  span_type = guard;
  name = "constraint_hook";
  outcome = some "PASSED";
  model_name = none;
  uuid = "s2";
}

-- A tool within a guard, then the end of the flow.
abbrev flow : Body
flow =
    within guard_span (at 2000)
      (call (start_tool "rag" "s3" (at 3000)) (call (finish_tool 3 empty_result (at 9000)) done))
      false (at 9500)
      (call (close_flow succeeded "PENDING_HUMAN" none none "s4" (at 9600) (at 9700)) done)

abbrev recorded : TraceRecorder
recorded = run flow (new_recorder "u1" "k1" "f1" "reconciliation_workflow" "t1" "s1" (at 1000))

plain : is_plain flow ≡ true
unfolding is_plain
plain = refl

run-snapshot_example :
    (snapshot (λ n. (at 9999).now) recorded).1 ≡ to_spans (λ n. (at 9999).now) recorded.spans
unfolding closes
run-snapshot_example =
    run-snapshot "u1" "k1" "f1" "reconciliation_workflow" "t1" "s1" (at 1000) flow
      (λ n. (at 9999).now) plain

-- The schema accepts the four spans.
four_spans : Option.map length (to_spans (λ n. (at 9999).now) recorded.spans) ≡ some 4
unfolding run new_recorder to_spans
four_spans = refl

parent_stack-run_example : recorded.parent_stack ≡ "s1" ∷ []
unfolding new_recorder
parent_stack-run_example =
    parent_stack-run flow
      (new_recorder "u1" "k1" "f1" "reconciliation_workflow" "t1" "s1" (at 1000))
