-- ===== src/Trace/Builder.antt =====
-- services/trace.py: `_SpanBuilder`, and what the methods of `TraceRecorder` write into one. Readings of
-- the clocks are arguments, in whole microseconds, and a duration is in whole milliseconds.
use bank_reconciliation_agen.Base.{
  ℕ, ◌+◌, ◌-◌, ◌*◌, ◌/◌, Bool, String, Option, none, some, List, [], ◌∷◌, str_eq, if◌then◌else◌,
}
use bank_reconciliation_agen.Base.Int.{ℤ, pos_part}
use bank_reconciliation_agen.Trace.{
  SpanType, final, fallback, SpanStatus, Timestamp, TraceSpan, validated,
}
use bank_reconciliation_agen.Trace.Saved.{cons_span}

-- `fields.ended_at` is the time at which the builder was made, until `ended` says otherwise.
pub record SpanBuilder : Type 0 where
  pub fields : TraceSpan
  pub ended : Option Timestamp
  pub mono_start : ℕ

-- `datetime.now(timezone.utc)` and `monotonic()`
pub record Clock : Type 0 where
  pub now : Timestamp
  pub monotonic : ℕ

-- `close`
unfoldable pub close : Option SpanStatus → Clock → SpanBuilder → SpanBuilder
close status c b = record {
  fields = record b.fields {
    duration_ms = (c.monotonic - b.mono_start) / 1000;
    status = elim status [ none ↦ b.fields.status | some s ↦ s ];
  };
  ended = some c.now;
  mono_start = b.mono_start;
}

-- `to_span`; `now` is read for a span that has not ended.
abbrev pub finished : Timestamp → SpanBuilder → TraceSpan
finished now b = record b.fields { ended_at = elim b.ended [ none ↦ now | some t ↦ t ] }

unfoldable pub to_span : Timestamp → SpanBuilder → Option TraceSpan
unfolding validated
to_span now b = validated (finished now b)

-- The arguments of `record_tool` and `finish_tool`.
pub record ToolProjection : Type 0 where
  pub status : SpanStatus
  pub outcome : Option String
  pub attempt : ℕ
  pub retry_recovered : Bool
  pub recovered_error_type : Option String
  pub result_count : ℕ
  pub evidence_ids : Option (List String)
  pub error_type : Option String
  pub fallback_reason : Option String

-- The arguments of `record_agent` and `finish_agent`.
pub record AgentProjection : Type 0 where
  pub status : SpanStatus
  pub model_name : Option String
  pub prompt_tokens : ℕ
  pub completion_tokens : ℕ
  pub cached_calls : ℕ
  pub attempt : ℕ
  pub retry_recovered : Bool
  pub recovered_error_type : Option String
  pub structured_repair_attempted : Bool
  pub structured_repair_succeeded : Bool
  pub error_type : Option String
  pub fallback_reason : Option String

-- What `record_tool` and `finish_tool` write, but for the times.
unfoldable pub set_tool : ToolProjection → SpanBuilder → SpanBuilder
set_tool p b = record b {
  fields = record b.fields {
    status = p.status;
    outcome = p.outcome;
    attempt = p.attempt;
    retry_recovered = p.retry_recovered;
    recovered_error_type = p.recovered_error_type;
    result_count = some p.result_count;
    evidence_ids = elim p.evidence_ids [ none ↦ [] | some ids ↦ ids ];
    error_type = p.error_type;
    fallback_reason = p.fallback_reason;
  };
}

-- What `record_agent` and `finish_agent` write, but for the times.
unfoldable pub set_agent : AgentProjection → SpanBuilder → SpanBuilder
set_agent p b = record b {
  fields = record b.fields {
    status = p.status;
    model_name = p.model_name;
    prompt_tokens = some p.prompt_tokens;
    completion_tokens = some p.completion_tokens;
    cached_calls = some p.cached_calls;
    attempt = p.attempt;
    retry_recovered = p.retry_recovered;
    recovered_error_type = p.recovered_error_type;
    structured_repair_attempted = some p.structured_repair_attempted;
    structured_repair_succeeded = some p.structured_repair_succeeded;
    error_type = p.error_type;
    fallback_reason = p.fallback_reason;
  };
}

-- The times of `record_tool` and `record_agent`: now, or back-dated by `started_at`.
unfoldable pub set_times : Option Timestamp → ℤ → Clock → SpanBuilder → SpanBuilder
set_times none duration_ms c b = record b {
  fields = record b.fields { duration_ms = pos_part duration_ms };
  ended = some c.now;
}
set_times (some t) duration_ms c b = record b {
  fields = record b.fields { started_at = t; duration_ms = pos_part duration_ms };
  ended = some (record t { micros = t.micros + 1000 * pos_part duration_ms });
}

-- `terminal_type`, or the default.
unfoldable pub terminal_type_of : Option SpanType → String → SpanType
terminal_type_of (some t) outcome = t
terminal_type_of none outcome = if str_eq outcome "AUTO_FIXED" then final else fallback

-- `terminal_name`, or the default; the empty name counts as none.
unfoldable pub terminal_name_of : Option String → SpanType → String
terminal_name_of name t =
    let usual : String = elim t [ final ↦ "final_decision" | other ↦ "fallback_human" ] in
    elim name [ none ↦ usual | some n ↦ if str_eq n "" then usual else n ]

abbrev pub set_outcome : SpanStatus → String → Clock → SpanBuilder → SpanBuilder
set_outcome status outcome c b =
    close none c (record b { fields = record b.fields { status = status; outcome = some outcome } })

-- `tuple(b.to_span() for b in self._spans)`; `now` may differ from span to span.
unfoldable pub to_spans : (ℕ → Timestamp) → List SpanBuilder → Option (List TraceSpan)
unfolding to_span
to_spans now [] = some []
to_spans now (b ∷ builders) =
    cons_span (to_span (now b.fields.sequence_no) b) (to_spans now builders)
