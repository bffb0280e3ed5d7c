-- ===== src/Tasks.antt =====
-- services/task.py: the rows of `t_reconciliation_task`, and the statements of `TaskService` on them.
-- The key of the database, the name of the task, the batch and the two automatic times are left out;
-- `now` is the database's clock.
pub mod Refinement
pub mod Rows
mod Tests
use bank_reconciliation_agen.Base.{
  ℕ, ◌+◌, ◌-◌, ◌*◌, ◌/◌, ◌^◌, Bool, true, false, ◌&&◌, ◌||◌, Option, none, some, String, List, [],
  ◌∷◌, ltb, leb, if◌then◌else◌, str_eq,
}
use bank_reconciliation_agen.Base.Int.{ℤ, pos, magnitude}
use bank_reconciliation_agen.Base.Text.{len}
use bank_reconciliation_agen.Base.Table.{select_first, update_where, delete_where, insert, any_row}
use bank_reconciliation_agen.Amount.{Decimal}

-- The values that the code writes into the column `status`.
pub data TaskStatus : Type 0 where
  queued running uploaded ai_running completed failed : TaskStatus

-- A row of the table: `ReconciliationTaskRow` with its `user_id`.
pub record TaskRow : Type 0 where
  pub user_id : String
  pub task_id : String
  pub scenario_type : String
  pub status : TaskStatus
  pub total_bank_rows : ℕ
  pub total_clear_rows : ℕ
  pub auto_fixed_rows : ℕ
  pub pending_ai_rows : ℕ
  pub pending_human_rows : ℤ
  pub unresolved_rows : ℤ
  pub ai_processed_rows : ℕ
  pub fallback_l2_rows : ℕ
  pub fallback_l3_rows : ℕ
  pub total_llm_tokens : ℕ
  pub total_llm_cost : Decimal
  pub job_attempt : ℕ
  pub retry_recovered : Bool
  pub retry_exhausted : Bool
  pub failure_type : Option String
  pub failure_summary : Option String
  pub failed_at : Option ℕ
  pub force_requeue_count : ℕ

-- The condition `user_id == user and task_id == task` of every statement.
unfoldable pub is_task : String → String → TaskRow → Bool
is_task user task r = str_eq r.user_id user && str_eq r.task_id task

-- The arguments of `replace_task` beside the key.
pub record Upload : Type 0 where
  pub scenario_type : String
  pub total_bank_rows : ℕ
  pub total_clear_rows : ℕ
  pub auto_fixed_rows : ℕ
  pub pending_ai_rows : ℕ
  pub pending_human_rows : ℕ
  pub status : TaskStatus
  pub force_requeue_count : ℕ

-- The row that `replace_task` inserts, with the defaults of the other columns.
unfoldable pub new_row : String → String → Upload → TaskRow
new_row user task u = record {
  user_id = user;
  task_id = task;
  scenario_type = u.scenario_type;
  status = u.status;
  total_bank_rows = u.total_bank_rows;
  total_clear_rows = u.total_clear_rows;
  auto_fixed_rows = u.auto_fixed_rows;
  pending_ai_rows = u.pending_ai_rows;
  pending_human_rows = pos u.pending_human_rows;
  unresolved_rows = pos (u.pending_ai_rows + u.pending_human_rows);
  ai_processed_rows = 0;
  fallback_l2_rows = 0;
  fallback_l3_rows = 0;
  total_llm_tokens = 0;
  total_llm_cost = record { coefficient = pos 0; places = 4 };
  job_attempt = 0;
  retry_recovered = false;
  retry_exhausted = false;
  failure_type = none;
  failure_summary = none;
  failed_at = none;
  force_requeue_count = u.force_requeue_count;
}

-- `TaskService.replace_task`
unfoldable pub replace_task : String → String → Upload → List TaskRow → List TaskRow
replace_task user task u rows =
    insert (new_row user task u ∷ []) (delete_where (is_task user task) rows)

-- `TaskService.get`
unfoldable pub get_task : String → String → List TaskRow → Option TaskRow
get_task user task rows = select_first (is_task user task) rows

-- An update of the task's row where `guard` holds: whether it touched a row, and the table.
unfoldable pub update_task :
    String → String → (TaskRow → Bool) → (TaskRow → TaskRow) → List TaskRow → Bool × List TaskRow
update_task user task guard values rows =
    let fits : TaskRow → Bool = λ r. is_task user task r && guard r in
    (any_row fits rows, update_where fits values rows)

-- `TaskService.update_status`
unfoldable pub update_status : String → String → TaskStatus → List TaskRow → Bool × List TaskRow
update_status user task status rows =
    update_task user task (λ r. true) (λ r. record r { status = status }) rows

-- The arguments of `replace_ai_stats`.
pub record AiStats : Type 0 where
  pub ai_processed_rows : ℕ
  pub fallback_l2_rows : ℕ
  pub fallback_l3_rows : ℕ
  pub total_llm_tokens : ℕ
  pub total_llm_cost : Decimal

-- What the column `Numeric(10, 4)` keeps of a cost, which is not negative and below a million: it is
-- rounded to four places, halves up.
unfoldable pub numeric_cost : Decimal → Decimal
numeric_cost d = record {
  coefficient = pos (
      if leb d.places 4
      then magnitude d.coefficient * 10 ^ (4 - d.places)
      else (2 * magnitude d.coefficient + 10 ^ (d.places - 4)) / (2 * 10 ^ (d.places - 4)));
  places = 4;
}

-- `TaskService.replace_ai_stats`
unfoldable pub replace_ai_stats : String → String → AiStats → List TaskRow → Bool × List TaskRow
unfolding numeric_cost
replace_ai_stats user task stats rows =
    update_task user task (λ r. true)
      (λ r. record r {
        ai_processed_rows = stats.ai_processed_rows;
        fallback_l2_rows = stats.fallback_l2_rows;
        fallback_l3_rows = stats.fallback_l3_rows;
        total_llm_tokens = stats.total_llm_tokens;
        total_llm_cost = numeric_cost stats.total_llm_cost;
      })
      rows

-- `status in ["QUEUED", "RUNNING"]`
abbrev pub is_active : TaskStatus → Bool
is_active queued = true
is_active running = true
is_active _ = false

-- `status in ["UPLOADED", "AI_RUNNING", "COMPLETED"]`
abbrev pub is_done : TaskStatus → Bool
is_done uploaded = true
is_done ai_running = true
is_done completed = true
is_done _ = false

-- `TaskService.mark_attempt_started`; none is the `ValueError`.
unfoldable pub mark_attempt_started :
    String → String → ℕ → List TaskRow → Option (Bool × List TaskRow)
mark_attempt_started user task attempt rows =
    if ltb attempt 1
    then none
    else some (
        update_task user task (λ r. is_active r.status)
          (λ r. record r { status = running; job_attempt = attempt }) rows)

-- `TaskService.mark_failed_if_active`; none is the `ValueError`.
unfoldable pub mark_failed_if_active :
    ℕ → String → String → ℕ → String → String → List TaskRow → Option (Bool × List TaskRow)
mark_failed_if_active now user task attempt failure_type failure_summary rows =
    if ltb 64 (len failure_type) || ltb 255 (len failure_summary)
    then none
    else some (
        update_task user task (λ r. is_active r.status)
          (λ r. record r {
            status = failed;
            job_attempt = attempt;
            retry_exhausted = true;
            retry_recovered = false;
            failure_type = some failure_type;
            failure_summary = some failure_summary;
            failed_at = some now;
          })
          rows)

-- `TaskService.mark_attempt_succeeded`
unfoldable pub mark_attempt_succeeded : String → String → ℕ → List TaskRow → Bool × List TaskRow
mark_attempt_succeeded user task attempt rows =
    update_task user task (λ r. is_done r.status)
      (λ r. record r {
        job_attempt = attempt;
        retry_recovered = ltb 1 attempt;
        retry_exhausted = false;
        failure_type = none;
        failure_summary = none;
        failed_at = none;
      })
      rows
