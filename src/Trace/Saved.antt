-- ===== src/Trace/Saved.antt =====
-- services/trace.py: `save_trace`, and what `_row_to_span` makes of the rows that it writes.
use bank_reconciliation_agen.Base.{
  ℕ, ◌+◌, ◌*◌, ◌/◌, ◌≤◌, leb, leb→le, ◌≡◌, refl, ap, eq_iff, ==_iff, sym, ◌∙◌, Bool, true, false,
  ◌&&◌, ◌||◌, String, Option, none, some, List, [], ◌∷◌, ◌++◌, map, ◌==◌, str_eq, all, any, All,
  if◌then◌else◌, Bool-cases, inl, inr, arith, some-injective,
}
use mathlib.Core.List.{append-nil, append_assoc}
use bank_reconciliation_agen.Base.Int.{ℤ, pos, negsuc}
use bank_reconciliation_agen.Trace.{
  SpanType, workflow, route, tool, agent, guard, final, fallback, SpanStatus, succeeded, failed,
  cancelled, Timestamp, TraceSpan, type_value, status_value, is_utc, times_fit, fields_fit,
  tokens_fit, is_accepted, validated,
}
use bank_reconciliation_agen.Trace.Rows.{
  SpanRow, int_of, bool_of, flag_column, read_flag, naive, ensure_utc, span_type_of, status_of,
  span_to_row, stored_time, stored_row, row_to_span, read_evidence, span_of, json, text,
}

abbrev pub same_identity : TraceSpan → TraceSpan → Bool
same_identity first s =
    str_eq s.user_id first.user_id
    && str_eq s.task_id first.task_id
    && str_eq s.flow_id first.flow_id
    && str_eq s.trace_id first.trace_id

-- `_validate_caller_identity`: false where it raises.
unfoldable pub validate_caller_identity : String → List TraceSpan → Bool
validate_caller_identity user [] = true
validate_caller_identity user (first ∷ spans) =
    all (same_identity first) (first ∷ spans) && str_eq first.user_id user

-- The two unique constraints of the table.
abbrev pub clashes : SpanRow → SpanRow → Bool
clashes q r =
    str_eq q.trace_id r.trace_id && (str_eq q.span_id r.span_id || q.sequence_no == r.sequence_no)

-- The statement `insert` of several rows in one transaction: none where a constraint is violated.
unfoldable pub insert_rows : List SpanRow → List SpanRow → Option (List SpanRow)
insert_rows [] rows = some rows
insert_rows (r ∷ new) rows =
    let rest = insert_rows new (rows ++ (r ∷ [])) in if any (clashes r) rows then none else rest

-- The rows that the table gets of spans.
abbrev pub new_rows : Bool → (List String → String) → String → List TraceSpan → List SpanRow
new_rows is_sqlite dumps user spans =
    map (λ s. stored_row is_sqlite (span_to_row is_sqlite dumps user s)) spans

-- A span with the times that the table keeps.
abbrev pub as_stored : Bool → TraceSpan → TraceSpan
as_stored is_sqlite s = record s {
  started_at = stored_time is_sqlite s.started_at;
  ended_at = stored_time is_sqlite s.ended_at;
}

-- `save_trace`: the table behind it, or none where it raises.
unfoldable pub save_trace :
    Bool → (List String → String) → String → List TraceSpan → List SpanRow → Option (List SpanRow)
unfolding validate_caller_identity insert_rows span_to_row
save_trace is_sqlite dumps user spans rows =
    if validate_caller_identity user spans
    then insert_rows (new_rows is_sqlite dumps user spans) rows
    else none

abbrev pub cons_span : Option TraceSpan → Option (List TraceSpan) → Option (List TraceSpan)
cons_span none spans = none
cons_span (some s) none = none
cons_span (some s) (some spans) = some (s ∷ spans)

-- `[self._row_to_span(r) for r in rows]`
unfoldable pub read_rows : (String → Option (List String)) → List SpanRow → Option (List TraceSpan)
unfolding row_to_span
read_rows loads [] = some []
read_rows loads (r ∷ rows) = cons_span (row_to_span loads r) (read_rows loads rows)

span_type_of-type_value : (t : SpanType) → span_type_of (type_value t) ≡ some t
unfolding span_type_of
span_type_of-type_value workflow = refl
span_type_of-type_value route = refl
span_type_of-type_value tool = refl
span_type_of-type_value agent = refl
span_type_of-type_value guard = refl
span_type_of-type_value final = refl
span_type_of-type_value fallback = refl

status_of-status_value : (t : SpanStatus) → status_of (status_value t) ≡ some t
unfolding status_of
status_of-status_value succeeded = refl
status_of-status_value failed = refl
status_of-status_value cancelled = refl

bool_of-int_of : (b : Bool) → bool_of (int_of b) ≡ b
bool_of-int_of true = refl
bool_of-int_of false = refl

read_flag-flag_column : (b : Option Bool) → read_flag (flag_column b) ≡ b
read_flag-flag_column none = refl
read_flag-flag_column (some b) = ap some (bool_of-int_of b)

zero_offset : (d : Option ℤ) → is_utc d ≡ true → d ≡ some (pos 0)
unfolding is_utc
zero_offset none e = absurd (ground arith)
zero_offset (some (pos n)) e = ap (λ k. some (pos k)) ((==_iff n 0).0 e)
zero_offset (some (negsuc n)) e = absurd (ground arith)

ensure_utc-naive : (t : Timestamp) → is_utc t.utcoffset ≡ true → ensure_utc (naive t) ≡ t
ensure_utc-naive t e = ap (λ d. record t { utcoffset = d }) (sym (zero_offset t.utcoffset e))

and_left : (a b : Bool) → a && b ≡ true → a ≡ true
and_left a b e = ground arith

times_are_utc :
    (start end : Timestamp)
    → times_fit start end ≡ true
    → (is_utc start.utcoffset ≡ true) × (is_utc end.utcoffset ≡ true)
unfolding times_fit
times_are_utc start end e = (ground arith, ground arith)

accepted_times : (s : TraceSpan) → is_accepted s ≡ true → times_fit s.started_at s.ended_at ≡ true
unfolding is_accepted
accepted_times s e = and_left (times_fit s.started_at s.ended_at) (fields_fit s) e

validated-accepted : (s : TraceSpan) → is_accepted s ≡ true → validated s ≡ some s
unfolding validated
validated-accepted s e = rw e refl

le→leb : (a b : ℕ) → a ≤ b → leb a b ≡ true
le→leb a b h = ground arith

rounded_le :
    (a b : ℕ)
    → leb a b ≡ true
    → leb ((a + 500000) / 1000000 * 1000000) ((b + 500000) / 1000000 * 1000000) ≡ true
rounded_le a b e =
    le→leb ((a + 500000) / 1000000 * 1000000) ((b + 500000) / 1000000 * 1000000)
      (omega (arith, leb→le a b e))

stored_times_fit :
    (start end : Timestamp)
    → times_fit start end ≡ true
    → times_fit (stored_time false start) (stored_time false end) ≡ true
unfolding times_fit
stored_times_fit start end e =
    let le : leb start.micros end.micros ≡ true = ground arith in
    let (u, v) = times_are_utc start end (unfold times_fit in e) in
    rw (u, v, rounded_le start.micros end.micros le) refl

fields_stored : (s : TraceSpan) → fields_fit (as_stored false s) ≡ fields_fit s
unfolding fields_fit tokens_fit
fields_stored s = refl

and_right : (a b : Bool) → a && b ≡ true → b ≡ true
and_right a b e = ground arith

both_true : (a b : Bool) → a ≡ true → b ≡ true → a && b ≡ true
both_true a b e f = ground arith

as_stored-accepted :
    (is_sqlite : Bool) (s : TraceSpan)
    → is_accepted s ≡ true
    → is_accepted (as_stored is_sqlite s) ≡ true
unfolding is_accepted
as_stored-accepted true s e = e
as_stored-accepted false s e =
    both_true (times_fit (stored_time false s.started_at) (stored_time false s.ended_at))
      (fields_fit (as_stored false s))
      (stored_times_fit s.started_at s.ended_at (accepted_times s e))
      (fields_stored s ∙ and_right (times_fit s.started_at s.ended_at) (fields_fit s) e)

module _ (is_sqlite : Bool) (dumps : List String → String) (loads : String → Option (List String))
    (user : String) where
  read_evidence-dumps :
      (texts : List String)
      → loads (dumps texts) ≡ some texts
      → read_evidence loads (if is_sqlite then text (dumps texts) else json texts) ≡ some texts
  read_evidence-dumps texts k = elim (Bool-cases is_sqlite) [ inl y ↦ rw y k | inr n ↦ rw n refl ]

  span_of-span_to_row :
      (s : TraceSpan)
      → is_accepted s ≡ true
      → s.user_id ≡ user
      → span_of (span_to_row is_sqlite dumps user s) s.evidence_ids s.span_type s.status ≡ s
  unfolding span_to_row
  span_of-span_to_row s e own =
      rw
        (
          bool_of-int_of s.retry_recovered,
          read_flag-flag_column s.structured_repair_attempted,
          read_flag-flag_column s.structured_repair_succeeded,
          ensure_utc-naive s.started_at
              (times_are_utc s.started_at s.ended_at (accepted_times s e)).0,
          ensure_utc-naive s.ended_at
              (times_are_utc s.started_at s.ended_at (accepted_times s e)).1,
          sym own,
        )
        refl

  row_to_span-span_to_row :
      (s : TraceSpan)
      → loads (dumps s.evidence_ids) ≡ some s.evidence_ids
      → is_accepted s ≡ true
      → s.user_id ≡ user
      → row_to_span loads (span_to_row is_sqlite dumps user s) ≡ some s
  unfolding row_to_span span_to_row
  row_to_span-span_to_row s k e own =
      rw
        (
          read_evidence-dumps s.evidence_ids k,
          span_type_of-type_value s.span_type,
          status_of-status_value s.status,
        )
        (ap validated (span_of-span_to_row s e own) ∙ validated-accepted s e)

  row_to_span-stored_row :
      (s : TraceSpan)
      → loads (dumps s.evidence_ids) ≡ some s.evidence_ids
      → is_accepted s ≡ true
      → s.user_id ≡ user
      → row_to_span loads (stored_row is_sqlite (span_to_row is_sqlite dumps user s))
        ≡ some (as_stored is_sqlite s)
  unfolding span_to_row
  row_to_span-stored_row s k e own =
      row_to_span-span_to_row (as_stored is_sqlite s) k (as_stored-accepted is_sqlite s e) own

  read_rows-new_rows :
      (spans : List TraceSpan)
      → All (λ s. loads (dumps s.evidence_ids) ≡ some s.evidence_ids) spans
      → All (λ s. is_accepted s ≡ true) spans
      → All (λ s. s.user_id ≡ user) spans
      → read_rows loads (new_rows is_sqlite dumps user spans)
        ≡ some (map (as_stored is_sqlite) spans)
  unfolding read_rows
  read_rows-new_rows [] ks es owns = refl
  read_rows-new_rows (s ∷ spans) ks es owns =
      rw (row_to_span-stored_row s ks.0 es.0 owns.0, read_rows-new_rows spans ks.1 es.1 owns.1) refl

pub insert_rows-appends :
    (new rows table : List SpanRow) → insert_rows new rows ≡ some table → table ≡ rows ++ new
unfolding insert_rows
insert_rows-appends [] rows table e = cc (some-injective rows table e, append-nil rows)
insert_rows-appends (r ∷ new) rows table e = elim (Bool-cases (any (clashes r) rows)) [
  | inl y ↦ absurd (ground arith)
  | inr n ↦
      insert_rows-appends new (rows ++ (r ∷ [])) table (ground arith)
      ∙ append_assoc rows (r ∷ []) new
]

all_same :
    (user : String) (first : TraceSpan) (spans : List TraceSpan)
    → first.user_id ≡ user
    → all (same_identity first) spans ≡ true
    → All (λ s. s.user_id ≡ user) spans
all_same user first [] own e = tt
all_same user first (s ∷ spans) own e = (
  (eq_iff s.user_id first.user_id).0 (ground arith) ∙ own,
  all_same user first spans own (ground arith),
)

caller_owns :
    (user : String) (spans : List TraceSpan)
    → validate_caller_identity user spans ≡ true
    → All (λ s. s.user_id ≡ user) spans
unfolding validate_caller_identity
caller_owns user [] e = tt
caller_owns user (first ∷ spans) e =
    all_same user first (first ∷ spans) ((eq_iff first.user_id user).0 (ground arith))
      (ground arith)

-- The rows of spans that the schema accepts read as the spans again, with the times that the table keeps, in
-- both dialects, if the decoder inverts the encoder on their evidence.
pub new_rows-read_rows :
    (is_sqlite : Bool) (dumps : List String → String) (loads : String → Option (List String))
    → (user : String) (spans : List TraceSpan)
    → All (λ s. loads (dumps s.evidence_ids) ≡ some s.evidence_ids) spans
    → All (λ s. is_accepted s ≡ true) spans
    → validate_caller_identity user spans ≡ true
    → read_rows loads (new_rows is_sqlite dumps user spans) ≡ some (map (as_stored is_sqlite) spans)
new_rows-read_rows is_sqlite dumps loads user spans ks es y =
    read_rows-new_rows is_sqlite dumps loads user spans ks es (caller_owns user spans y)
