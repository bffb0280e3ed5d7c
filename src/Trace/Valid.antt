-- ===== src/Trace/Valid.antt =====
-- services/trace.py: when the snapshot of a recorder validates.
use bank_reconciliation_agen.Base.{
  ℕ, suc, ◌+◌, ◌≡◌, ◌⊎◌, refl, sym, ◌∙◌, Bool, true, false, ◌&&◌, String, Option, none, some, List,
  [], ◌∷◌, map, ◌==◌, ==_iff, str_eq, eq_iff, any, all, keep, All, length, if◌then◌else◌,
  Bool-cases, inl, inr, arith,
}
use bank_reconciliation_agen.Trace.{
  TraceSpan, Timestamp, is_workflow, is_last, is_accepted, validated,
}
use bank_reconciliation_agen.Trace.Snapshot.{
  counts_from, insert_number, sorted_numbers, is_root, is_terminal, root_fits, has_parent,
  same_trace, all_same_trace, validate_trace_snapshot,
}
use bank_reconciliation_agen.Trace.Builder.{SpanBuilder, Clock, finished, to_span, to_spans}
use bank_reconciliation_agen.Trace.Recorder.{
  TraceRecorder, snapshot, validated_snapshot, new_recorder, add_builder, new_span,
}
use bank_reconciliation_agen.Trace.Flow.{Body, run, is_plain, closes}
use bank_reconciliation_agen.Trace.Frames.{
  frame, numbers, has_id, HasParent, terminals, IsRooted, IsOf, Owner, owner, IsFitting,
}
use bank_reconciliation_agen.Trace.Steps.{IsRecording, and_both}
use bank_reconciliation_agen.Trace.Runs.{run-IsRecording}

-- The spans that a snapshot has if all are accepted.
abbrev made : (ℕ → Timestamp) → List SpanBuilder → List TraceSpan
made now [] = []
made now (b ∷ bs) = finished (now b.fields.sequence_no) b ∷ made now bs

to_span-cases :
    (now : Timestamp) (b : SpanBuilder)
    → (to_span now b ≡ none) ⊎ (to_span now b ≡ some (finished now b))
unfolding to_span validated
to_span-cases now b = elim (Bool-cases (is_accepted (finished now b))) [
  | inl y ↦ inr (rw y refl)
  | inr n ↦ inl (rw n refl)
]

to_spans-made :
    (now : ℕ → Timestamp) (bs : List SpanBuilder)
    → (to_spans now bs ≡ none) ⊎ (to_spans now bs ≡ some (made now bs))
unfolding to_spans
to_spans-made now [] = inr refl
to_spans-made now (b ∷ bs) = elim (to_span-cases (now b.fields.sequence_no) b) [
  | inl n ↦ inl (rw n refl)
  | inr y ↦ elim (to_spans-made now bs) [
    | inl n ↦ inl (rw (y, n) refl)
    | inr z ↦ inr (rw (y, z) refl)
  ]
]

no_roots :
    (now : ℕ → Timestamp) (bs : List SpanBuilder)
    → All (λ g. is_workflow g.span_type ≡ false) (map frame bs)
    → keep is_root (made now bs) ≡ []
no_roots now [] h = refl
no_roots now (b ∷ bs) h = rw (h.0, no_roots now bs h.1) refl

one_root :
    (now : ℕ → Timestamp) (bs : List SpanBuilder)
    → IsRooted (map frame bs)
    → counts_from 1 (numbers (map frame bs)) ≡ true
    → root_fits (keep is_root (made now bs)) ≡ true
unfolding counts_from
one_root now [] h e = absurd h
one_root now (b ∷ bs) h e =
    let first = and_both (b.fields.sequence_no == 1) _ e in
    rw (h.0, no_roots now bs h.2, h.1, first.0) refl

count_terminals :
    (now : ℕ → Timestamp) (bs : List SpanBuilder)
    → length (keep is_terminal (made now bs)) ≡ terminals (map frame bs)
count_terminals now [] = refl
count_terminals now (b ∷ bs) = elim (Bool-cases (is_last b.fields.span_type)) [
  | inl y ↦ rw (y, count_terminals now bs) (omega arith)
  | inr n ↦ rw (n, count_terminals now bs) (omega arith)
]

insert_first : (n : ℕ) (ks : List ℕ) → counts_from (suc n) ks ≡ true → insert_number n ks ≡ n ∷ ks
unfolding insert_number counts_from
insert_first n [] e = refl
insert_first n (k ∷ ks) e = ground arith

sorted_already :
    (now : ℕ → Timestamp) (bs : List SpanBuilder) (n : ℕ)
    → counts_from n (numbers (map frame bs)) ≡ true
    → sorted_numbers (made now bs) ≡ numbers (map frame bs)
unfolding sorted_numbers counts_from
sorted_already now [] n e = refl
sorted_already now (b ∷ bs) n e =
    let parts = and_both (b.fields.sequence_no == n) _ e in
    let k : b.fields.sequence_no ≡ n = (==_iff b.fields.sequence_no n).0 parts.0 in
    rw (sorted_already now bs (suc n) parts.1)
      (insert_first b.fields.sequence_no (numbers (map frame bs)) (rw k parts.1))

any_id :
    (now : ℕ → Timestamp) (bs : List SpanBuilder) (p : String)
    → any (λ q. str_eq q.span_id p) (made now bs) ≡ has_id (map frame bs) p
any_id now [] p = refl
any_id now (b ∷ bs) p = rw (any_id now bs p) refl

parent_found :
    (now : ℕ → Timestamp) (bs : List SpanBuilder) (b : SpanBuilder) (p : Option String)
    → b.fields.parent_span_id ≡ p
    → HasParent (map frame bs) p
    → has_parent (made now bs) (finished (now b.fields.sequence_no) b) ≡ true
parent_found now bs b none e h = rw e refl
parent_found now bs b (some p) e h = rw e (any_id now bs p ∙ h)

parents_found :
    (now : ℕ → Timestamp) (bs cs : List SpanBuilder)
    → All (λ f. HasParent (map frame bs) f.parent_span_id) (map frame cs)
    → all (has_parent (made now bs)) (made now cs) ≡ true
parents_found now bs [] h = refl
parents_found now bs (c ∷ cs) h =
    rw (parent_found now bs c c.fields.parent_span_id refl h.0) (parents_found now bs cs h.1)

same_owner :
    (now : ℕ → Timestamp) (o : Owner) (b : SpanBuilder) (cs : List SpanBuilder)
    → IsOf o (frame b)
    → All (IsOf o) (map frame cs)
    → all (same_trace (finished (now b.fields.sequence_no) b)) (made now cs) ≡ true
same_owner now o b [] h hs = refl
same_owner now o b (c ∷ cs) h hs =
    rw
      (
        (eq_iff _ _).1 (hs.0.trace ∙ sym h.trace),
        (eq_iff _ _).1 (hs.0.user ∙ sym h.user),
        (eq_iff _ _).1 (hs.0.task ∙ sym h.task),
        (eq_iff _ _).1 (hs.0.flow ∙ sym h.flow),
      )
      (same_owner now o b cs h hs.1)

all_same_owner :
    (now : ℕ → Timestamp) (o : Owner) (bs : List SpanBuilder)
    → All (IsOf o) (map frame bs)
    → all_same_trace (made now bs) ≡ true
all_same_owner now o [] hs = refl
all_same_owner now o (b ∷ bs) hs = same_owner now o b bs hs.0 hs.1

and_true : (b : Bool) → (b && true) ≡ b
and_true b = ground arith

-- The spans of a recorder validate exactly if one of them is terminal.
validate-made :
    (now : ℕ → Timestamp) (o : Owner) (k : ℕ) (stack : List String) (bs : List SpanBuilder)
    → IsFitting o k stack (map frame bs)
    → validate_trace_snapshot (made now bs) ≡ (k == 1)
unfolding validate_trace_snapshot
validate-made now o k stack bs h =
    rw
      (
        one_root now bs h.rooted h.numbered,
        count_terminals now bs,
        h.ended,
        sorted_already now bs 1 h.numbered,
        h.numbered,
        parents_found now bs bs h.parents,
        all_same_owner now o bs h.owned,
      )
      (ground arith)

-- The spans that are asked of a recorder in this state.
snapshot-recording :
    (now : ℕ → Timestamp) (k : ℕ) (r : TraceRecorder)
    → IsRecording k r
    → (snapshot now r).1 ≡ (if k == 1 then to_spans now r.spans else none)
unfolding snapshot validated_snapshot
snapshot-recording now k r h = elim (to_spans-made now r.spans) [
  | inl n ↦ rw (h.enabled, h.unsnapped, n) (ground arith)
  | inr y ↦
      rw (h.enabled, h.unsnapped, y, validate-made now (owner r) k r.parent_stack r.spans h.fits)
        (ground arith)
]

new_recorder-IsRecording :
    (user task flow root_name trace root : String) (c : Clock)
    → IsRecording 0 (new_recorder user task flow root_name trace root c)
unfolding new_recorder add_builder new_span counts_from
new_recorder-IsRecording user task flow root_name trace root c = record {
  enabled = refl;
  unsnapped = refl;
  counted = refl;
  fits = record {
    rooted = (refl, refl, tt);
    numbered = refl;
    parents = (tt, tt);
    stacked = (rw ((eq_iff root root).1 refl) refl, tt);
    owned = (record { trace = refl; user = refl; task = refl; flow = refl }, tt);
    ended = refl;
  };
}

-- However a flow nests spans and calls the recorder's methods, if it opens inner spans only and closes its
-- root with terminal types, `snapshot` raises unless the root was closed exactly once; then it gives
-- all recorded spans, if the schema accepts each.
pub run-snapshot :
    (user task flow root_name trace root : String) (c : Clock) (body : Body) (now : ℕ → Timestamp)
    → is_plain body ≡ true
    → (snapshot now (run body (new_recorder user task flow root_name trace root c))).1 ≡ (
        if closes body == 1
        then to_spans now (run body (new_recorder user task flow root_name trace root c)).spans
        else none)
run-snapshot user task flow root_name trace root c body now e =
    let r = new_recorder user task flow root_name trace root c in
    let h =
      run-IsRecording body 0 r e (new_recorder-IsRecording user task flow root_name trace root c) in
    let zero : 0 + closes body ≡ closes body = omega arith in
    snapshot-recording now (closes body) (run body r) (rw zero at h)
