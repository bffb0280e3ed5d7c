-- ===== src/Trace/Flow.antt =====
-- services/trace.py: the methods of `TraceRecorder` that a flow calls, and a flow as the tree of its calls.
use bank_reconciliation_agen.Base.{
  ℕ, ◌+◌, Bool, true, false, ◌&&◌, String, Option, none, some, List, [], ◌∷◌, if◌then◌else◌,
}
use bank_reconciliation_agen.Base.Int.{ℤ}
use bank_reconciliation_agen.Trace.{
  SpanType, route, tool, agent, guard, SpanStatus, succeeded, failed, Timestamp, is_last,
}
use bank_reconciliation_agen.Trace.Builder.{
  Clock, ToolProjection, AgentProjection, SpanBuilder, close, set_tool, set_agent, set_times,
}
use bank_reconciliation_agen.Trace.Recorder.{
  TraceRecorder, add_builder, update_builder, close_root, disable,
}

-- A call of a method, with the id that it draws and its readings of the clocks.
pub data Action : Type 0 where
  record_tool : String → ToolProjection → Option Timestamp → ℤ → String → Clock → Action
  record_agent : String → AgentProjection → Option Timestamp → ℤ → String → Clock → Action
  start_tool : String → String → Clock → Action
  finish_tool : ℕ → ToolProjection → Clock → Action
  start_agent : String → String → Clock → Action
  finish_agent : ℕ → AgentProjection → Clock → Action
  close_flow :
      SpanStatus → String → Option SpanType → Option String → String → Clock → Clock → Action
  disabling : Action

-- `finish_tool` and `finish_agent` of a handle that is not None.
unfoldable pub finish :
    ℕ → (SpanBuilder → SpanBuilder) → SpanStatus → Clock → TraceRecorder → TraceRecorder
unfolding update_builder close
finish handle set status c r =
    if r.disabled then r else update_builder handle (λ b. close (some status) c (set b)) r

-- The methods that make a builder: nothing where the recorder is disabled.
unfoldable pub add :
    SpanType → String → String → Clock → (SpanBuilder → SpanBuilder) → TraceRecorder → TraceRecorder
unfolding add_builder
add span_type name uuid c set r = if r.disabled then r else add_builder span_type name uuid c set r

unfoldable pub perform : Action → TraceRecorder → TraceRecorder
unfolding add finish set_tool set_agent set_times close_root disable
perform (record_tool name p started_at duration_ms uuid c) r =
    add tool name uuid c (λ b. set_times started_at duration_ms c (set_tool p b)) r
perform (record_agent name p started_at duration_ms uuid c) r =
    add agent name uuid c (λ b. set_times started_at duration_ms c (set_agent p b)) r
perform (start_tool name uuid c) r = add tool name uuid c (λ b. b) r
perform (finish_tool handle p c) r = finish handle (set_tool p) p.status c r
perform (start_agent name uuid c) r = add agent name uuid c (λ b. b) r
perform (finish_agent handle p c) r = finish handle (set_agent p) p.status c r
perform (close_flow status outcome terminal_type terminal_name uuid c c') r =
    close_root status outcome terminal_type terminal_name uuid c c' r
perform disabling r = disable r

-- The arguments of `span`, with the id that it draws.
pub record Span : Type 0 where
  pub span_type : SpanType
  pub name : String
  pub outcome : Option String
  pub model_name : Option String
  pub uuid : String

-- What a flow does: it calls a method, or runs a body within `with recorder.span(...)`, and goes on. The
-- flag is whether an exception left the body; where it goes on from there, the rest is empty.
pub data Body : Type 0 where
  done : Body
  call : Action → Body → Body
  within : Span → Clock → Body → Bool → Clock → Body → Body

abbrev pub set_span : Span → SpanBuilder → SpanBuilder
set_span s b = record b {
  fields = record b.fields {
    outcome = elim s.outcome [ none ↦ b.fields.outcome | some o ↦ some o ];
    model_name = elim s.model_name [ none ↦ b.fields.model_name | some m ↦ some m ];
  };
}

-- `span` up to its `yield`.
unfoldable pub enter : Span → Clock → TraceRecorder → TraceRecorder
unfolding add_builder
enter s c r =
    if r.disabled then r else record (add_builder s.span_type s.name s.uuid c (set_span s) r) {
      parent_stack = s.uuid ∷ r.parent_stack;
    }

abbrev pub pop : List String → List String
pop [] = []
pop (p ∷ stack) = stack

-- `span` behind its `yield`, for the builder that it made; nothing where it made none. `raised` is an
-- `Exception`; one that is none, which ends the process, is left out.
unfoldable pub leave : Bool → ℕ → Bool → Clock → TraceRecorder → TraceRecorder
unfolding update_builder close
leave was_disabled handle raised c r =
    if was_disabled
    then r
    else record (update_builder handle (close (some (if raised then failed else succeeded)) c) r) {
      parent_stack = pop r.parent_stack;
    }

unfoldable pub run : Body → TraceRecorder → TraceRecorder
unfolding perform enter leave
run done r = r
run (call a rest) r = run rest (perform a r)
run (within s c inner raised c' rest) r =
    run rest (leave r.disabled (r.sequence_counter + 1) raised c' (run inner (enter s c r)))

-- The types of span that the flows open by `span`.
abbrev pub is_inner : SpanType → Bool
is_inner route = true
is_inner tool = true
is_inner agent = true
is_inner guard = true
is_inner t = false

abbrev pub is_plain_call : Action → Bool
is_plain_call (close_flow status outcome none name uuid c c') = true
is_plain_call (close_flow status outcome (some t) name uuid c c') = is_last t
is_plain_call disabling = false
is_plain_call a = true

-- The flow opens spans of inner types, closes its root with a terminal type, and does not disable.
unfoldable pub is_plain : Body → Bool
is_plain done = true
is_plain (call a rest) = is_plain_call a && is_plain rest
is_plain (within s c inner raised c' rest) = is_inner s.span_type && is_plain inner && is_plain rest

abbrev pub count_call : Action → ℕ
count_call (close_flow status outcome t name uuid c c') = 1
count_call a = 0

-- How often the flow calls `close_root`.
unfoldable pub closes : Body → ℕ
closes done = 0
closes (call a rest) = count_call a + closes rest
closes (within s c inner raised c' rest) = closes inner + closes rest
