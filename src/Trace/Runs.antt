-- ===== src/Trace/Runs.antt =====
-- services/trace.py: the invariant of a recorder through a flow.
use mathlib.Core.List.{map-append}
use bank_reconciliation_agen.Base.{
  ℕ, ◌+◌, ◌≡◌, refl, ◌∙◌, Bool, true, false, ◌&&◌, String, Option, none, some, List, [], ◌∷◌, map,
  if◌then◌else◌, Bool-cases, inl, inr, arith,
}
use bank_reconciliation_agen.Trace.{
  SpanType, SpanStatus, succeeded, failed, is_workflow, is_last, workflow, route, tool, agent,
  guard, final, fallback,
}
use bank_reconciliation_agen.Trace.Builder.{close, set_tool, set_agent, set_times, Clock}
use bank_reconciliation_agen.Trace.Recorder.{
  add_builder, update_builder, close_root, disable, TraceRecorder, new_span,
}
use bank_reconciliation_agen.Trace.Flow.{
  add, finish, Action, Span, Body, done, call, within, record_tool, record_agent, start_tool,
  finish_tool, start_agent, finish_agent, close_flow, disabling, perform, enter, leave, run,
  is_inner, pop, is_plain, is_plain_call, count_call, closes, set_span,
}
use bank_reconciliation_agen.Trace.Frames.{Frame, frame, IsFitting, IsFitting-push, Owner, owner}
use bank_reconciliation_agen.Trace.Steps.{
  IsRecording, and_both, unless_disabled, add_builder-IsRecording, update_builder-IsRecording,
  add-IsRecording, finish-IsRecording, close_root-IsRecording, frame-close, frame-set_tool,
  frame-set_agent, frame-set_times,
}

perform-IsRecording :
    (a : Action) (k : ℕ) (r : TraceRecorder)
    → is_plain_call a ≡ true
    → IsRecording k r
    → IsRecording (k + count_call a) (perform a r)
unfolding perform
perform-IsRecording (record_tool name p t d uuid c) k r e h =
    add-IsRecording tool name uuid c (λ b. set_times t d c (set_tool p b))
      (λ b. frame-set_times t d c (set_tool p b) ∙ frame-set_tool p b) refl refl k r h
perform-IsRecording (record_agent name p t d uuid c) k r e h =
    add-IsRecording agent name uuid c (λ b. set_times t d c (set_agent p b))
      (λ b. frame-set_times t d c (set_agent p b) ∙ frame-set_agent p b) refl refl k r h
perform-IsRecording (start_tool name uuid c) k r e h =
    add-IsRecording tool name uuid c (λ b. b) (λ b. refl) refl refl k r h
perform-IsRecording (finish_tool handle p c) k r e h =
    finish-IsRecording handle (set_tool p) p.status c (frame-set_tool p) k r h
perform-IsRecording (start_agent name uuid c) k r e h =
    add-IsRecording agent name uuid c (λ b. b) (λ b. refl) refl refl k r h
perform-IsRecording (finish_agent handle p c) k r e h =
    finish-IsRecording handle (set_agent p) p.status c (frame-set_agent p) k r h
perform-IsRecording (close_flow s outcome none name uuid c c') k r e h =
    close_root-IsRecording s outcome none name uuid c c' (inl refl) k r h
perform-IsRecording (close_flow s outcome (some t) name uuid c c') k r e h =
    close_root-IsRecording s outcome (some t) name uuid c c' (inr (t, refl, e)) k r h
perform-IsRecording disabling k r e h = absurd (ground arith)

inner_is_not_last :
    (t : SpanType) → is_inner t ≡ true → (is_workflow t ≡ false) × (is_last t ≡ false)
inner_is_not_last workflow e = absurd (ground arith)
inner_is_not_last route e = (refl, refl)
inner_is_not_last tool e = (refl, refl)
inner_is_not_last agent e = (refl, refl)
inner_is_not_last guard e = (refl, refl)
inner_is_not_last final e = absurd (ground arith)
inner_is_not_last fallback e = absurd (ground arith)

enter-IsRecording :
    (s : Span) (c : Clock) (k : ℕ) (r : TraceRecorder)
    → is_inner s.span_type ≡ true
    → IsRecording k r
    → IsRecording k (enter s c r)
unfolding enter add_builder new_span
enter-IsRecording s c k r e h =
    let plain = inner_is_not_last s.span_type e in
    let zero_more : k + 0 ≡ k = omega arith in
    let b = new_span s.span_type s.name s.uuid c r in
    let made : IsRecording k (add_builder s.span_type s.name s.uuid c (set_span s) r) =
      rw (plain.1, zero_more) at
        (add_builder-IsRecording s.span_type s.name s.uuid c (set_span s) (λ b. refl) plain.0 k r
          h) in
    let split = map-append frame r.spans (set_span s b ∷ []) in
    let pushed =
      IsFitting-push (owner r) k r.parent_stack (map frame r.spans) (frame b)
        (rw split at made.fits) in
    unless_disabled k r.disabled r _ h.enabled (record {
      enabled = made.enabled;
      unsnapped = made.unsnapped;
      counted = made.counted;
      fits = rw split pushed;
    })

pop-IsFitting :
    (o : Owner) (k : ℕ) (stack : List String) (fs : List Frame)
    → IsFitting o k stack fs
    → IsFitting o k (pop stack) fs
pop-IsFitting o k [] fs h = h
pop-IsFitting o k (p ∷ stack) fs h = record {
  rooted = h.rooted;
  numbered = h.numbered;
  parents = h.parents;
  stacked = h.stacked.1;
  owned = h.owned;
  ended = h.ended;
}

leave-IsRecording :
    (was_disabled : Bool) (handle : ℕ) (raised : Bool) (c : Clock) (k : ℕ) (r : TraceRecorder)
    → was_disabled ≡ false
    → IsRecording k r
    → IsRecording k (leave was_disabled handle raised c r)
unfolding leave
leave-IsRecording was_disabled handle raised c k r e h =
    let status : Option SpanStatus = some (if raised then failed else succeeded) in
    let made = update_builder-IsRecording handle (close status c) (frame-close status c) k r h in
    rw e (record {
      enabled = made.enabled;
      unsnapped = made.unsnapped;
      counted = made.counted;
      fits = pop-IsFitting (owner r) k r.parent_stack _ made.fits;
    })

-- A plain flow keeps the invariant and counts its calls of `close_root`.
pub run-IsRecording :
    (body : Body) (k : ℕ) (r : TraceRecorder)
    → is_plain body ≡ true
    → IsRecording k r
    → IsRecording (k + closes body) (run body r)
unfolding run is_plain closes
run-IsRecording done k r e h = let same : k + 0 ≡ k = omega arith in rw same h
run-IsRecording (call a rest) k r e h =
    let both = and_both (is_plain_call a) (is_plain rest) e in
    let sums : k + (count_call a + closes rest) ≡ k + count_call a + closes rest = omega arith in
    rw sums (
      run-IsRecording rest (k + count_call a) (perform a r) both.1
        (perform-IsRecording a k r both.0 h))
run-IsRecording (within s c inner raised c' rest) k r e h =
    let both = and_both (is_inner s.span_type && is_plain inner) (is_plain rest) e in
    let parts = and_both (is_inner s.span_type) (is_plain inner) both.0 in
    let sums : k + (closes inner + closes rest) ≡ k + closes inner + closes rest = omega arith in
    let entered = enter-IsRecording s c k r parts.0 h in
    let ran = run-IsRecording inner k (enter s c r) parts.1 entered in
    rw sums (
      run-IsRecording rest (k + closes inner) _ both.1
        (leave-IsRecording r.disabled (r.sequence_counter + 1) raised c' _ _ h.enabled ran))

parent_stack-if :
    (b : Bool) (x y : TraceRecorder) (stack : List String)
    → x.parent_stack ≡ stack
    → y.parent_stack ≡ stack
    → (if b then x else y).parent_stack ≡ stack
parent_stack-if true x y stack e f = e
parent_stack-if false x y stack e f = f

parent_stack-perform :
    (a : Action) (r : TraceRecorder) → (perform a r).parent_stack ≡ r.parent_stack
unfolding perform add finish add_builder update_builder close_root disable
parent_stack-perform (record_tool name p t d uuid c) r = parent_stack-if r.disabled r _ _ refl refl
parent_stack-perform (record_agent name p t d uuid c) r = parent_stack-if r.disabled r _ _ refl refl
parent_stack-perform (start_tool name uuid c) r = parent_stack-if r.disabled r _ _ refl refl
parent_stack-perform (finish_tool handle p c) r = parent_stack-if r.disabled r _ _ refl refl
parent_stack-perform (start_agent name uuid c) r = parent_stack-if r.disabled r _ _ refl refl
parent_stack-perform (finish_agent handle p c) r = parent_stack-if r.disabled r _ _ refl refl
parent_stack-perform (close_flow s outcome t name uuid c c') r =
    parent_stack-if r.disabled r _ _ refl refl
parent_stack-perform disabling r = refl

parent_stack-within :
    (s : Span) (c : Clock) (raised : Bool) (c' : Clock) (r u : TraceRecorder)
    → u.parent_stack ≡ (enter s c r).parent_stack
    → (leave r.disabled (r.sequence_counter + 1) raised c' u).parent_stack ≡ r.parent_stack
unfolding enter leave add_builder update_builder
parent_stack-within s c raised c' r u e = elim (Bool-cases r.disabled) [
  | inl y ↦ rw y (ground arith)
  | inr n ↦ rw n (ground arith)
]

-- Behind every flow, nested and raising as it may, the open spans are those from before.
pub parent_stack-run :
    (body : Body) (r : TraceRecorder) → (run body r).parent_stack ≡ r.parent_stack
unfolding run
parent_stack-run done r = refl
parent_stack-run (call a rest) r = parent_stack-run rest (perform a r) ∙ parent_stack-perform a r
parent_stack-run (within s c inner raised c' rest) r =
    parent_stack-run rest _
    ∙ parent_stack-within s c raised c' r (run inner (enter s c r))
        (parent_stack-run inner (enter s c r))
