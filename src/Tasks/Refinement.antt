-- ===== src/Tasks/Refinement.antt =====
-- The table of tasks against the map from a user and a task to a row: what each statement does to it.
use bank_reconciliation_agen.Base.{
  ℕ, ◌≤◌, ◌≡◌, refl, Bool, true, false, ◌&&◌, Option, none, some, String, List, [], ◌∷◌, ltb, ◌||◌,
  if◌then◌else◌, str_eq, eq_iff, arith, Bool-cases, inl, inr, ap, sym, ◌∙◌, subst, some-injective,
}
use bank_reconciliation_agen.Base.Table.{
  select_first, select_first-update, select_first-update_other, select_first-deleted,
  select_first-delete_other, select_first-append, count_where, count_where-deleted,
  count_where-delete, count_where-append, count_where-update, any_row-select_first, delete_where,
}
use bank_reconciliation_agen.Base.Text.{len}
use bank_reconciliation_agen.Tasks.{
  TaskStatus, TaskRow, running, failed, is_active, is_done, is_task, Upload, new_row, replace_task,
  get_task, update_task, AiStats, numeric_cost, update_status, replace_ai_stats,
  mark_attempt_started, mark_failed_if_active, mark_attempt_succeeded,
}

-- The database's constraint `uk_task_user_task`.
abbrev pub IsUnique : List TaskRow → Type 0
IsUnique rows = (user task : String) → count_where (is_task user task) rows ≤ 1

is_task-apart :
    (user task other that : String)
    → (str_eq user other && str_eq task that) ≡ false
    → (r : TaskRow) → is_task other that r ≡ true
    → is_task user task r ≡ false
unfolding is_task
is_task-apart user task other that apart r h = ground (
  arith,
  eq_iff r.user_id other,
  eq_iff r.task_id that,
  eq_iff r.user_id user,
  eq_iff r.task_id task,
  eq_iff user other,
  eq_iff task that,
)

is_task-new_row :
    (user task other that : String) (u : Upload)
    → is_task other that (new_row user task u) ≡ (str_eq user other && str_eq task that)
unfolding is_task new_row
is_task-new_row user task other that u = refl

-- A statement of the service on one task.
pub data Request : Type 0 where
  replace : Upload → Request
  set_status : TaskStatus → Request
  set_ai_stats : AiStats → Request
  start : ℕ → Request
  fail : ℕ → ℕ → String → String → Request
  succeed : ℕ → Request

-- What the table answers, none for a `ValueError`. `replace_task` answers nothing, shown as true.
abbrev pub run : String → String → Request → List TaskRow → Option (Bool × List TaskRow)
run user task (replace u) rows = some (true, replace_task user task u rows)
run user task (set_status s) rows = some (update_status user task s rows)
run user task (set_ai_stats s) rows = some (replace_ai_stats user task s rows)
run user task (start n) rows = mark_attempt_started user task n rows
run user task (fail now n t s) rows = mark_failed_if_active now user task n t s rows
run user task (succeed n) rows = some (mark_attempt_succeeded user task n rows)

-- The row changed by `values` where there is one that `guard` lets through, and whether it was.
abbrev pub amend : (TaskRow → Bool) → (TaskRow → TaskRow) → Option TaskRow → Bool × Option TaskRow
amend guard values none = (false, none)
amend guard values (some r) = if guard r then (true, some (values r)) else (false, some r)

-- The row of an attempt that has started, and of one that is not tried again.
abbrev pub started : ℕ → TaskRow → TaskRow
started n r = record r { status = running; job_attempt = n }

abbrev pub given_up : ℕ → ℕ → String → String → TaskRow → TaskRow
given_up now n t s r = record r {
  status = failed;
  job_attempt = n;
  retry_exhausted = true;
  retry_recovered = false;
  failure_type = some t;
  failure_summary = some s;
  failed_at = some now;
}

-- The abstract view: what a statement does to the row of its task.
abbrev pub change : String → String → Request → Option TaskRow → Option (Bool × Option TaskRow)
change user task (replace u) row = some (true, some (new_row user task u))
change user task (set_status s) row = some (amend (λ r. true) (λ r. record r { status = s }) row)
change user task (set_ai_stats s) row = some (
    amend (λ r. true)
      (λ r. record r {
        ai_processed_rows = s.ai_processed_rows;
        fallback_l2_rows = s.fallback_l2_rows;
        fallback_l3_rows = s.fallback_l3_rows;
        total_llm_tokens = s.total_llm_tokens;
        total_llm_cost = numeric_cost s.total_llm_cost;
      })
      row)
change user task (start n) row =
    if ltb n 1 then none else some (amend (λ r. is_active r.status) (started n) row)
change user task (fail now n t s) row =
    if ltb 64 (len t) || ltb 255 (len s)
    then none
    else some (amend (λ r. is_active r.status) (given_up now n t s) row)
change user task (succeed n) row = some (
    amend (λ r. is_done r.status)
      (λ r. record r {
        job_attempt = n;
        retry_recovered = ltb 1 n;
        retry_exhausted = false;
        failure_type = none;
        failure_summary = none;
        failed_at = none;
      })
      row)

-- What holds of a table and the one that a statement on a task leaves.
pub record IsChange (user task : String) (rows after : List TaskRow) : Type 0 where
  pub unique : IsUnique after
  pub others :
      (other that : String)
      → (str_eq user other && str_eq task that) ≡ false
      → get_task other that after ≡ get_task other that rows

module _ (user task : String) (rows : List TaskRow) (unique : IsUnique rows) where
  pub replace_task-IsChange : (u : Upload) → IsChange user task rows (replace_task user task u rows)
  unfolding replace_task get_task count_where select_first
  replace_task-IsChange u = record {
    unique = λ other that. ground (
      arith,
      is_task-new_row user task other that u,
      eq_iff user other,
      eq_iff task that,
      unique other that,
      count_where-deleted (is_task user task) rows,
      count_where-delete (is_task user task) (is_task other that) rows,
      count_where-append (is_task other that) (delete_where (is_task user task) rows)
          (new_row user task u ∷ []),
    );
    others = λ other that apart.
        let kept = delete_where (is_task user task) rows in
        ground (
          arith,
          is_task-new_row user task other that u,
          apart,
          select_first-append (is_task other that) kept (new_row user task u ∷ []),
          select_first-delete_other (is_task user task) (is_task other that)
              (is_task-apart user task other that apart) rows,
        );
  }

  pub replace_task-get_task :
      (u : Upload) → get_task user task (replace_task user task u rows) ≡ some (new_row user task u)
  unfolding replace_task get_task select_first
  replace_task-get_task u =
      let kept = delete_where (is_task user task) rows in
      ground (
        arith,
        is_task-new_row user task user task u,
        eq_iff user user,
        eq_iff task task,
        select_first-append (is_task user task) kept (new_row user task u ∷ []),
        select_first-deleted (is_task user task) rows,
      )

-- An update that keeps the key of every row.
module _ (user task : String) (rows : List TaskRow) (unique : IsUnique rows)
    (guard : TaskRow → Bool) (values : TaskRow → TaskRow)
    (same : (other that : String) (r : TaskRow)
      → is_task other that (values r) ≡ is_task other that r) where
  pub update_task-IsChange : IsChange user task rows (update_task user task guard values rows).1
  unfolding update_task get_task
  update_task-IsChange =
      let fits : TaskRow → Bool = λ r. is_task user task r && guard r in
      record {
        unique = λ other that. ground (
          arith,
          unique other that,
          count_where-update fits (is_task other that) values (same other that) rows,
        );
        others = λ other that apart.
            select_first-update_other fits (is_task other that) values (same other that)
              (λ r h. ground (arith, is_task-apart user task other that apart r h)) rows;
      }

  pub update_task-get_task : amend guard values (get_task user task rows) ≡ (
    (update_task user task guard values rows).0,
    get_task user task (update_task user task guard values rows).1,
  )
  unfolding update_task get_task
  update_task-get_task = ground (
    arith,
    any_row-select_first (is_task user task) guard rows (unique user task),
    select_first-update (is_task user task) guard values (same user task) rows,
  )

-- The table implements the map: a statement answers what the map's change answers, leaves the changed
-- row to be found, changes no other task's, and keeps the constraint.
pub record IsRefined (user task : String) (q : Request) (rows : List TaskRow) : Type 0 where
  pub row : change user task q (get_task user task rows) ≡ elim (run user task q rows) [
    | none ↦ none
    | some (touched, after) ↦ some (touched, get_task user task after)
  ]
  pub frame :
      (touched : Bool) (after : List TaskRow)
      → run user task q rows ≡ some (touched, after)
      → IsChange user task rows after

update-IsRefined :
    (user task : String) (rows : List TaskRow) (unique : IsUnique rows) (q : Request)
    (guard : TaskRow → Bool) (values : TaskRow → TaskRow)
    → ((other that : String) (r : TaskRow) → is_task other that (values r) ≡ is_task other that r)
    → run user task q rows ≡ some (update_task user task guard values rows)
    → change user task q (get_task user task rows)
      ≡ some (amend guard values (get_task user task rows))
    → IsRefined user task q rows
update-IsRefined user task rows unique q guard values same e f =
    let table : Bool × List TaskRow = update_task user task guard values rows in
    record {
      row = rw (e, f) (ap some (update_task-get_task user task rows unique guard values same));
      frame = λ touched after h.
          subst (λ p. IsChange user task rows p.1) (some-injective _ _ (sym e ∙ h))
            (update_task-IsChange user task rows unique guard values same);
    }

-- On a table with at most one row for each user and task, every statement of `TaskService` does what the
-- abstract change says to the row that `get` finds, leaves the row of every other user or task alone,
-- and leaves the table with at most one row for each.
pub run-IsRefined :
    (user task : String) (q : Request) (rows : List TaskRow)
    → IsUnique rows
    → IsRefined user task q rows
unfolding update_status replace_ai_stats mark_attempt_started mark_failed_if_active
    mark_attempt_succeeded is_task
run-IsRefined user task (replace u) rows unique = record {
  row = ap (λ r. some (true, r)) (sym (replace_task-get_task user task rows unique u));
  frame = λ touched after h.
      subst (λ p. IsChange user task rows p.1) (some-injective _ _ h)
        (replace_task-IsChange user task rows unique u);
}
run-IsRefined user task (set_status s) rows unique =
    update-IsRefined user task rows unique (set_status s) (λ r. true) _ (λ other that r. refl) refl
      refl
run-IsRefined user task (set_ai_stats s) rows unique =
    update-IsRefined user task rows unique (set_ai_stats s) (λ r. true) _ (λ other that r. refl)
      refl refl
run-IsRefined user task (start n) rows unique = elim (Bool-cases (ltb n 1)) [
  | inl e ↦ record { row = rw e refl; frame = λ touched after h. cc }
  | inr e ↦
      update-IsRefined user task rows unique (start n) (λ r. is_active r.status) (started n)
        (λ other that r. refl) (rw e refl) (rw e refl)
]
run-IsRefined user task (fail now n t s) rows unique =
    elim (Bool-cases (ltb 64 (len t) || ltb 255 (len s))) [
      | inl e ↦ record { row = rw e refl; frame = λ touched after h. cc }
      | inr e ↦
          update-IsRefined user task rows unique (fail now n t s) (λ r. is_active r.status)
            (given_up now n t s) (λ other that r. refl) (rw e refl) (rw e refl)
    ]
run-IsRefined user task (succeed n) rows unique =
    update-IsRefined user task rows unique (succeed n) (λ r. is_done r.status) _
      (λ other that r. refl) refl refl
