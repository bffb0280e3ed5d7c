-- ===== src/Trace/Snapshot.antt =====
-- services/trace.py: `validate_trace_snapshot`, and `persist_snapshot` with its counters of writes.
use bank_reconciliation_agen.Base.{
  ℕ, suc, ◌+◌, ◌≡◌, Bool, true, false, ◌&&◌, String, Option, none, some, List, [], ◌∷◌, ◌++◌, map,
  is_some, ◌==◌, leb, str_eq, all, any, keep, length, if◌then◌else◌, is_none,
}
use bank_reconciliation_agen.Trace.{TraceSpan, is_workflow, is_last}
use bank_reconciliation_agen.Trace.Rows.{SpanRow}
use bank_reconciliation_agen.Trace.Saved.{save_trace, read_rows, new_rows, as_stored, insert_rows}

abbrev pub is_root : TraceSpan → Bool
is_root s = is_workflow s.span_type

abbrev pub is_terminal : TraceSpan → Bool
is_terminal s = is_last s.span_type

-- The one root, with the number 1 and without a parent.
abbrev pub root_fits : List TraceSpan → Bool
root_fits [] = false
root_fits (root ∷ []) = root.sequence_no == 1 && is_none root.parent_span_id
root_fits (root ∷ s ∷ rest) = false

unfoldable pub insert_number : ℕ → List ℕ → List ℕ
insert_number n [] = n ∷ []
insert_number n (k ∷ ks) = let rest = insert_number n ks in if leb n k then n ∷ k ∷ ks else k ∷ rest

-- `sorted(s.sequence_no for s in span_list)`
unfoldable pub sorted_numbers : List TraceSpan → List ℕ
unfolding insert_number
sorted_numbers [] = []
sorted_numbers (s ∷ spans) = insert_number s.sequence_no (sorted_numbers spans)

-- Whether the numbers are `n`, `n + 1` and so on, as `range` gives them.
unfoldable pub counts_from : ℕ → List ℕ → Bool
counts_from n [] = true
counts_from n (k ∷ ks) = k == n && counts_from (suc n) ks

abbrev pub has_parent : List TraceSpan → TraceSpan → Bool
has_parent spans s = elim s.parent_span_id [
  | none ↦ true
  | some parent ↦ any (λ q. str_eq q.span_id parent) spans
]

abbrev pub same_trace : TraceSpan → TraceSpan → Bool
same_trace first s =
    str_eq s.trace_id first.trace_id
    && str_eq s.user_id first.user_id
    && str_eq s.task_id first.task_id
    && str_eq s.flow_id first.flow_id

abbrev pub all_same_trace : List TraceSpan → Bool
all_same_trace [] = true
all_same_trace (first ∷ spans) = all (same_trace first) spans

-- `validate_trace_snapshot`: false where it raises.
unfoldable pub validate_trace_snapshot : List TraceSpan → Bool
unfolding sorted_numbers counts_from
validate_trace_snapshot spans =
    root_fits (keep is_root spans)
    && length (keep is_terminal spans) == 1
    && counts_from 1 (sorted_numbers spans)
    && all (has_parent spans) spans
    && all_same_trace spans

-- The table of spans, and the counters of the process.
pub record TraceService : Type 0 where
  pub rows : List SpanRow
  pub write_success_count : ℕ
  pub write_failure_count : ℕ

-- `_record_write_failure`
abbrev record_write_failure : TraceService → TraceService
record_write_failure t = record t { write_failure_count = t.write_failure_count + 1 }

-- `_record_write_success`, once the table is `rows`.
abbrev record_write_success : TraceService → List SpanRow → TraceService
record_write_success t rows = record t {
  rows = rows;
  write_success_count = t.write_success_count + 1;
}

-- The outcome of `save_trace` in `persist_snapshot`.
unfoldable written : TraceService → Option (List SpanRow) → TraceService × Bool
written t none = (record_write_failure t, false)
written t (some rows) = (record_write_success t rows, true)

-- `persist_snapshot`
unfoldable pub persist_snapshot :
    Bool
    → (List String → String)
    → String
    → String
    → String
    → List TraceSpan
    → TraceService
    → TraceService × Bool
unfolding validate_trace_snapshot save_trace written
persist_snapshot is_sqlite dumps user task flow [] t = (t, false)
persist_snapshot is_sqlite dumps user task flow (first ∷ spans) t =
    if (str_eq first.user_id user && str_eq first.task_id task && str_eq first.flow_id flow)
      && validate_trace_snapshot (first ∷ spans)
    then written t (save_trace is_sqlite dumps user (first ∷ spans) t.rows)
    else (record_write_failure t, false)

-- The first span is of the user, the task and the flow.
abbrev pub is_own : String → String → String → List TraceSpan → Bool
is_own user task flow [] = false
is_own user task flow (first ∷ spans) =
    str_eq first.user_id user && str_eq first.task_id task && str_eq first.flow_id flow

-- Whether a snapshot is due to be kept: it is the caller's, its structure is right, and the table's unique
-- constraints admit its rows.
abbrev pub is_keepable :
    Bool → (List String → String) → String → String → String → List TraceSpan → List SpanRow → Bool
is_keepable is_sqlite dumps user task flow spans rows =
    is_own user task flow spans
    && validate_trace_snapshot spans
    && is_some (insert_rows (new_rows is_sqlite dumps user spans) rows)

-- A snapshot is kept: its rows stand behind the others, they read as its spans with the times that the table
-- keeps, and one success is counted.
pub record IsKept (is_sqlite : Bool) (loads : String → Option (List String))
    (spans : List TraceSpan) (t u : TraceService) : Type 0 where
  pub new : List SpanRow
  pub appended : u.rows ≡ t.rows ++ new
  pub reads : read_rows loads new ≡ some (map (as_stored is_sqlite) spans)
  pub counted : u.write_success_count ≡ t.write_success_count + 1
  pub failures_same : u.write_failure_count ≡ t.write_failure_count

-- A snapshot is refused: the table and the counter of successes stay, and a failure is counted if it has spans.
pub record IsRefused (spans : List TraceSpan) (t u : TraceService) : Type 0 where
  pub same : u.rows ≡ t.rows
  pub successes_same : u.write_success_count ≡ t.write_success_count
  pub counted :
      u.write_failure_count ≡ t.write_failure_count + (elim spans [ [] ↦ 0 | s ∷ rest ↦ 1 ])

abbrev pub IsAnswered :
    Bool
    → (String → Option (List String))
    → List TraceSpan
    → TraceService
    → TraceService × Bool
    → Type 0
IsAnswered is_sqlite loads spans t (u, true) = IsKept is_sqlite loads spans t u
IsAnswered is_sqlite loads spans t (u, false) = IsRefused spans t u
