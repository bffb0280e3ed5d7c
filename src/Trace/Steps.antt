-- ===== src/Trace/Steps.antt =====
-- services/trace.py: each step of a recorder keeps its invariant.
use mathlib.Core.List.{map-append}
use bank_reconciliation_agen.Base.{
  ℕ, ◌+◌, ◌≡◌, ◌⊎◌, refl, ap, ◌∙◌, Bool, true, false, ◌&&◌, String, Option, none, some, [], ◌∷◌,
  map, ◌==◌, length, length-map, length-append, if◌then◌else◌, inl, inr, arith,
}
use bank_reconciliation_agen.Base.Table.{update_where}
use bank_reconciliation_agen.Base.Int.{ℤ}
use bank_reconciliation_agen.Trace.{
  SpanType, SpanStatus, Timestamp, is_workflow, is_last, workflow, route, tool, agent, guard, final,
  fallback,
}
use bank_reconciliation_agen.Trace.Builder.{
  SpanBuilder, ToolProjection, AgentProjection, close, set_tool, set_agent, set_times, Clock,
  terminal_type_of, terminal_name_of, set_outcome,
}
use bank_reconciliation_agen.Trace.Recorder.{
  TraceRecorder, update_builder, add_builder, new_span, close_root,
}
use bank_reconciliation_agen.Trace.Flow.{add, finish}
use bank_reconciliation_agen.Trace.Frames.{
  frame, IsFitting, IsFitting-append, owner, update_where-frames, is_one,
}

-- A recorder that is enabled and has no snapshot yet, `k` of whose spans are terminal.
pub record IsRecording (k : ℕ) (r : TraceRecorder) : Type 0 where
  pub enabled : r.disabled ≡ false
  pub unsnapped : r.snapshot ≡ none
  pub counted : r.sequence_counter ≡ length r.spans
  pub fits : IsFitting (owner r) k r.parent_stack (map frame r.spans)

pub and_both : (a b : Bool) → (a && b) ≡ true → (a ≡ true) × (b ≡ true)
and_both a b e = (ground arith, ground arith)

pub unless_disabled :
    (k : ℕ) (b : Bool) (x y : TraceRecorder)
    → b ≡ false
    → IsRecording k y
    → IsRecording k (if b then x else y)
unless_disabled k b x y e h = rw e h

pub add_builder-IsRecording :
    (t : SpanType) (name uuid : String) (c : Clock) (set : SpanBuilder → SpanBuilder)
    → ((b : SpanBuilder) → frame (set b) ≡ frame b)
    → is_workflow t ≡ false
    → (k : ℕ) (r : TraceRecorder) → IsRecording k r
    → IsRecording (k + is_one (is_last t)) (add_builder t name uuid c set r)
unfolding add_builder new_span
add_builder-IsRecording t name uuid c set same inner k r h = record {
  enabled = h.enabled;
  unsnapped = h.unsnapped;
  counted = omega (arith, h.counted, length-append r.spans (set (new_span t name uuid c r) ∷ []));
  fits =
      rw
        (
          map-append frame r.spans (set (new_span t name uuid c r) ∷ []),
          same (new_span t name uuid c r),
        )
        (IsFitting-append (owner r) k r.parent_stack (map frame r.spans)
          (frame (new_span t name uuid c r)) inner
          (omega (arith, h.counted, length-map frame r.spans)) refl
          (record { trace = refl; user = refl; task = refl; flow = refl }) h.fits);
}

pub update_builder-IsRecording :
    (handle : ℕ) (f : SpanBuilder → SpanBuilder)
    → ((b : SpanBuilder) → frame (f b) ≡ frame b)
    → (k : ℕ) (r : TraceRecorder) → IsRecording k r
    → IsRecording k (update_builder handle f r)
unfolding update_builder
update_builder-IsRecording handle f same k r h =
    let e = update_where-frames (λ b. b.fields.sequence_no == handle) f same r.spans in
    record {
      enabled = h.enabled;
      unsnapped = h.unsnapped;
      counted = omega (
        arith,
        h.counted,
        length-map frame r.spans,
        length-map frame
            (update_where (λ (b : SpanBuilder). b.fields.sequence_no == handle) f r.spans),
        ap length e,
      );
      fits = rw e h.fits;
    }

pub frame-close :
    (s : Option SpanStatus) (c : Clock) (b : SpanBuilder) → frame (close s c b) ≡ frame b
unfolding close
frame-close s c b = refl

frame-set_outcome :
    (s : SpanStatus) (outcome : String) (c : Clock) (b : SpanBuilder)
    → frame (set_outcome s outcome c b) ≡ frame b
unfolding close
frame-set_outcome s outcome c b = refl

pub frame-set_tool : (p : ToolProjection) (b : SpanBuilder) → frame (set_tool p b) ≡ frame b
unfolding set_tool
frame-set_tool p b = refl

pub frame-set_agent : (p : AgentProjection) (b : SpanBuilder) → frame (set_agent p b) ≡ frame b
unfolding set_agent
frame-set_agent p b = refl

pub frame-set_times :
    (t : Option Timestamp) (d : ℤ) (c : Clock) (b : SpanBuilder)
    → frame (set_times t d c b) ≡ frame b
unfolding set_times
frame-set_times none d c b = refl
frame-set_times (some t) d c b = refl

pub add-IsRecording :
    (t : SpanType) (name uuid : String) (c : Clock) (set : SpanBuilder → SpanBuilder)
    → ((b : SpanBuilder) → frame (set b) ≡ frame b)
    → is_workflow t ≡ false
    → is_last t ≡ false
    → (k : ℕ) (r : TraceRecorder) → IsRecording k r
    → IsRecording (k + 0) (add t name uuid c set r)
unfolding add
add-IsRecording t name uuid c set same inner more k r h =
    let made : IsRecording (k + 0) (add_builder t name uuid c set r) =
      rw more at (add_builder-IsRecording t name uuid c set same inner k r h) in
    unless_disabled (k + 0) r.disabled r _ h.enabled made

pub finish-IsRecording :
    (handle : ℕ) (set : SpanBuilder → SpanBuilder) (s : SpanStatus) (c : Clock)
    → ((b : SpanBuilder) → frame (set b) ≡ frame b)
    → (k : ℕ) (r : TraceRecorder) → IsRecording k r
    → IsRecording (k + 0) (finish handle set s c r)
unfolding finish
finish-IsRecording handle set s c same k r h =
    let e : k + 0 ≡ k = omega arith in
    let made =
      update_builder-IsRecording handle (λ b. close (some s) c (set b))
        (λ b. frame-close (some s) c (set b) ∙ same b) k r h in
    rw e (unless_disabled k r.disabled r _ h.enabled made)

is_last-terminal_type_of :
    (t : Option SpanType) (outcome : String)
    → (t ≡ none) ⊎ ((u : SpanType) × (t ≡ some u) × (is_last u ≡ true))
    → is_last (terminal_type_of t outcome) ≡ true
unfolding terminal_type_of
is_last-terminal_type_of t outcome (inl e) = rw e (ground arith)
is_last-terminal_type_of t outcome (inr (u, e, y)) = rw e y

last_is_inner : (t : SpanType) → is_last t ≡ true → is_workflow t ≡ false
last_is_inner workflow e = cc
last_is_inner route e = refl
last_is_inner tool e = refl
last_is_inner agent e = refl
last_is_inner guard e = refl
last_is_inner final e = refl
last_is_inner fallback e = refl

last_builder-IsRecording :
    (t : SpanType) (name uuid : String) (c : Clock) (set : SpanBuilder → SpanBuilder)
    → ((b : SpanBuilder) → frame (set b) ≡ frame b)
    → is_last t ≡ true
    → (k : ℕ) (r : TraceRecorder) → IsRecording k r
    → IsRecording (k + 1) (add_builder t name uuid c set r)
last_builder-IsRecording t name uuid c set same last k r h =
    rw last at (add_builder-IsRecording t name uuid c set same (last_is_inner t last) k r h)

pub close_root-IsRecording :
    (s : SpanStatus) (outcome : String) (t : Option SpanType) (name : Option String) (uuid : String)
    (c c' : Clock)
    → (t ≡ none) ⊎ ((u : SpanType) × (t ≡ some u) × (is_last u ≡ true))
    → (k : ℕ) (r : TraceRecorder) → IsRecording k r
    → IsRecording (k + 1) (close_root s outcome t name uuid c c' r)
unfolding close_root
close_root-IsRecording s outcome t name uuid c c' fits k r h =
    let u = terminal_type_of t outcome in
    let made =
      last_builder-IsRecording u (terminal_name_of name u) uuid c (set_outcome s outcome c)
        (frame-set_outcome s outcome c) (is_last-terminal_type_of t outcome fits) k r h in
    let closed =
      update_builder-IsRecording 1 (set_outcome s outcome c') (frame-set_outcome s outcome c')
        (k + 1) _ made in
    unless_disabled (k + 1) r.disabled r _ h.enabled closed
