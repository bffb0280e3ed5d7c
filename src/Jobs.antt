-- ===== src/Jobs.antt =====
-- worker.py and the job of services/reconciliation/service.py: a task from its upload to its end.
-- The log is left out.
pub mod Ends
pub mod Tries
pub mod Counts
pub mod Requests
pub mod Stranded
pub mod Isolation
mod Tests
use bank_reconciliation_agen.Base.{
  ℕ, zero, suc, ◌+◌, Bool, true, false, ◌||◌, String, Option, none, some, List, [], ◌∷◌, ltb,
  if◌then◌else◌, length,
}
use bank_reconciliation_agen.Tasks.{
  TaskStatus, running, uploaded, completed, failed, TaskRow, Upload, replace_task, get_task,
  update_status, mark_attempt_started, mark_failed_if_active, mark_attempt_succeeded,
}
use bank_reconciliation_agen.Router.Rows.{Row, Calendar}
use bank_reconciliation_agen.Reconcile.{
  MatchResult, MatchSummary, build_match_results, summarize_match_results,
}
use bank_reconciliation_agen.Reconcile.Batch.{WorkflowReply}
use bank_reconciliation_agen.Reconcile.Batch.Writes.{WriteBundle, build_write_bundle}
use bank_reconciliation_agen.Reconcile.Store.{Database, persist_write_bundle}

-- The exceptions that the worker tells apart.
pub data Failure : Type 0 where
  redis_connection_error operational_error other_exception : Failure

-- `except (RedisConnectionError, OperationalError)`
abbrev pub is_transient : Failure → Bool
is_transient redis_connection_error = true
is_transient operational_error = true
is_transient other_exception = false

-- The settings that a job reads.
pub record Settings : Type 0 where
  pub cutoff_window : String
  pub reconciliation_max_concurrency : ℕ
  pub arq_job_max_attempts : ℕ

-- The statements of a try on the table of tasks: `get`, `update_status` with the three statuses,
-- `replace_task`, and the three marks of the worker.
pub data Statement : Type 0 where
  read_task set_running replace_row set_uploaded set_failed mark_started mark_failed
        mark_succeeded :
      Statement

-- What one attempt meets: the exceptions of the statements on the table of tasks if they have one, the rows of the two files or the exception of reading them, the exceptions of
-- the two groups of writes if they have one, the run of each item, and the exception that a run which
-- fails raises. `now` is the time of the database.
pub record Attempt : Type 0 where
  pub statement_error : Statement → Option Failure
  pub frames : List Row × List Row
  pub read_error : Option Failure
  pub transactions_error : Option Failure
  pub persist_error : Option Failure
  pub run_workflow : MatchResult → WorkflowReply
  pub run_error : Failure
  pub now : ℕ

-- `match_summary` and the sizes of the frames as the arguments of `replace_task`.
unfoldable pub upload_of : String → TaskStatus → List Row × List Row → MatchSummary → Upload
upload_of scenario_type status (bank_rows, clear_rows) summary = record {
  scenario_type = scenario_type;
  total_bank_rows = length bank_rows;
  total_clear_rows = length clear_rows;
  auto_fixed_rows = summary.auto_fixed_rows;
  pending_ai_rows = summary.pending_ai_rows;
  pending_human_rows = summary.pending_human_rows;
  status = status;
  force_requeue_count = 0;
}

-- How the worker's job ends.
pub data JobEnd : Type 0 where
  value_error runtime_error terminal_noop retry raised returned : JobEnd

abbrev pub is_retry : JobEnd → Bool
is_retry retry = true
is_retry _ = false

abbrev pub failure_type_for : Failure → String
failure_type_for redis_connection_error = "RedisConnectionError"
failure_type_for _ = "OperationalError"

abbrev pub failure_summary_for : Failure → String
failure_summary_for redis_connection_error = "redis connection unavailable"
failure_summary_for _ = "database operation unavailable"

module _ (calendar : Calendar) (settings : Settings) (user task scenario_type : String) where
  -- The end of `_execute_reconciliation`: the transaction and the status.
  unfoldable pub write_batch : Attempt → List MatchResult → Database → Option Failure × Database
  unfolding build_write_bundle
  write_batch a results db = elim a.transactions_error [
    | some f ↦ (some f, db)
    | none ↦
        elim (build_write_bundle settings.reconciliation_max_concurrency a.run_workflow task
          results) [
            | none ↦ (some a.run_error, db)
            | some w ↦ elim a.persist_error [
              | some f ↦ (some f, db)
              | none ↦
                  let stored = persist_write_bundle user task scenario_type results w db in
                  elim (a.statement_error set_uploaded) [
                    | some f ↦ (some f, stored)
                    | none ↦ (
                      none,
                      record stored { tasks = (update_status user task uploaded stored.tasks).1 },
                    )
                  ]
            ]
          ]
  ]

  -- `_execute_reconciliation`
  unfoldable pub execute_reconciliation : Attempt → Database → Option Failure × Database
  execute_reconciliation a db =
      elim (build_match_results calendar scenario_type settings.cutoff_window a.frames.0
        a.frames.1) [
          | none ↦ (some other_exception, db)
          | some results ↦ elim (a.statement_error replace_row) [
            | some f ↦ (some f, db)
            | none ↦ write_batch a results (record db {
              tasks =
                  replace_task user task
                    (upload_of scenario_type running a.frames (summarize_match_results results))
                    db.tasks;
            })
          ]
        ]

  -- What `run_reconciliation_job` of the service does with an exception.
  unfoldable pub settle : Attempt → Option Failure × Database → Option Failure × Database
  settle a (none, db) = (none, db)
  settle a (some f, db) =
      if is_transient f then (some f, db) else elim (a.statement_error set_failed) [
        | some g ↦ (some g, db)
        | none ↦ (none, record db { tasks = (update_status user task failed db.tasks).1 })
      ]

  -- `existing_task is not None and existing_task.status in {"UPLOADED", "COMPLETED"}`
  unfoldable pub is_skipped : Option TaskRow → Bool
  is_skipped none = false
  is_skipped (some r) = elim r.status [ uploaded ↦ true | completed ↦ true | _ ↦ false ]

  -- From the status RUNNING on.
  unfoldable pub served : Attempt → Database → Option Failure × Database
  unfolding settle execute_reconciliation
  served a db = elim (a.statement_error set_running) [
    | some f ↦ (some f, db)
    | none ↦
        let db1 = record db { tasks = (update_status user task running db.tasks).1 } in
        settle a
          (elim a.read_error [ some f ↦ (some f, db1) | none ↦ execute_reconciliation a db1 ])
  ]

  -- `ReconciliationService.run_reconciliation_job`
  unfoldable pub service_job : Attempt → Database → Option Failure × Database
  unfolding served
  service_job a db = elim (a.statement_error read_task) [
    | some f ↦ (some f, db)
    | none ↦ if is_skipped (get_task user task db.tasks) then (none, db) else served a db
  ]

  -- The handler of a transient exception in the worker.
  unfoldable pub after_transient : Attempt → ℕ → Failure → Database → JobEnd × Database
  after_transient a attempt f db =
      if ltb attempt settings.arq_job_max_attempts
      then (retry, db)
      else elim (a.statement_error mark_failed) [
        | some g ↦ (raised, db)
        | none ↦
            elim (mark_failed_if_active a.now user task attempt (failure_type_for f)
              (failure_summary_for f) db.tasks) [
                | none ↦ (value_error, db)
                | some (marked, tasks) ↦ (raised, record db { tasks = tasks })
              ]
      ]

  -- What follows the service's job in `run_reconciliation_job` of the worker.
  unfoldable pub after_job : Attempt → ℕ → Option Failure × Database → JobEnd × Database
  unfolding after_transient
  after_job a attempt (none, db) = elim (a.statement_error mark_succeeded) [
    | some g ↦ (raised, db)
    | none ↦ (returned, record db { tasks = (mark_attempt_succeeded user task attempt db.tasks).1 })
  ]
  after_job a attempt (some f, db) =
      if is_transient f then after_transient a attempt f db else (raised, db)

  -- From `mark_attempt_started` on.
  unfoldable pub started_job : ℕ → Attempt → Database → JobEnd × Database
  unfolding after_job service_job
  started_job attempt a db = elim (mark_attempt_started user task attempt db.tasks) [
    | none ↦ (value_error, db)
    | some (started, tasks) ↦
        if started
        then after_job a attempt (service_job a (record db { tasks = tasks }))
        else (terminal_noop, record db { tasks = tasks })
  ]

  -- `run_reconciliation_job` of the worker, of the try `attempt`.
  unfoldable pub worker_job : ℕ → Attempt → Database → JobEnd × Database
  unfolding started_job
  worker_job attempt a db =
      if ltb attempt 1
      then (value_error, db)
      else if ltb settings.arq_job_max_attempts attempt
      then (runtime_error, db)
      else elim (a.statement_error mark_started) [
        | some f ↦ (raised, db)
        | none ↦ started_job attempt a db
      ]

  -- The deliveries of a job: where a try ends with `Retry` the queue hands the job to a worker again,
  -- with `job_try` one more, at most `max_tries` times. The number of the last try comes first.
  unfoldable pub deliver : ℕ → ℕ → (ℕ → Attempt) → Database → ℕ × JobEnd × Database
  deliver zero attempt attempts db = (attempt, retry, db)
  deliver (suc tries) attempt attempts db =
      let (end, after) = worker_job attempt (attempts attempt) db in
      let later = deliver tries (attempt + 1) attempts after in
      if is_retry end then later else (attempt, end, after)
