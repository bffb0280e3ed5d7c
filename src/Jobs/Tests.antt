-- ===== src/Jobs/Tests.antt =====
-- A job that meets a database error once, and the uploads of one pair of files by two users.
use bank_reconciliation_agen.Base.{
  ℕ, ◌≡◌, refl, Bool, true, false, String, none, some, List, [], ◌∷◌, arith, if◌then◌else◌, ◌==◌,
}
use bank_reconciliation_agen.Base.Dict.{mem}
use bank_reconciliation_agen.Base.Table.{count_where, select_first, delete_where}
use bank_reconciliation_agen.Tasks.{
  queued, failed, is_active, TaskRow, Upload, is_task, new_row, replace_task, get_task,
}
use bank_reconciliation_agen.Tasks.Refinement.{IsUnique}
use bank_reconciliation_agen.Tasks.Rows.{Has, Has-replace_task}
use bank_reconciliation_agen.Router.{classify, all_duplicates}
use bank_reconciliation_agen.Reconcile.{build_match_results}
use bank_reconciliation_agen.Router.Rows.{Calendar, rows_by_flow_id}
use bank_reconciliation_agen.Reconcile.Batch.{other_error}
use bank_reconciliation_agen.Reconcile.Store.{Database}
use bank_reconciliation_agen.Reconcile.Counts.{IsNumbered}
use bank_reconciliation_agen.Jobs.{
  Settings, Attempt, operational_error, other_exception, execute_reconciliation, write_batch,
  worker_job, deliver,
}
use bank_reconciliation_agen.Jobs.Ends.{IsSteady}
use bank_reconciliation_agen.Jobs.Tries.{IsDelivered, job_ends}
use bank_reconciliation_agen.Jobs.Counts.{IsWritten, execute_reconciliation-IsWritten}
use bank_reconciliation_agen.Jobs.Isolation.{IsIsolated, worker_job-IsIsolated}
use bank_reconciliation_agen.Jobs.Requests.{Redis, UploadRequest, upload_async, is_terminal_task}
use bank_reconciliation_agen.Jobs.Stranded.{
  has_job, IsStranded, here, next, first_upload-IsStranded,
}

abbrev calendar : Calendar
calendar = record { iso_datetime = λ s. none; iso_date = λ s. none }

abbrev settings : Settings
settings = record {
  cutoff_window = "22:00-02:00";
  reconciliation_max_concurrency = 4;
  arq_job_max_attempts = 3;
}

abbrev upload : Upload
upload = record {
  scenario_type = "BANK_CLEARING";
  total_bank_rows = 0;
  total_clear_rows = 0;
  auto_fixed_rows = 0;
  pending_ai_rows = 0;
  pending_human_rows = 0;
  status = queued;
  force_requeue_count = 0;
}

none-IsUnique : IsUnique []
unfolding count_where
none-IsUnique user task = omega arith

abbrev with_rows : List TaskRow → Database
with_rows rows = record { tasks = rows; queue = []; ledger = []; reviews = []; next_id = 1 }

abbrev fresh : Database
fresh = with_rows (replace_task "ann" "TASK_1" upload [])

fresh-Has :
    Has "ann" "TASK_1" (replace_task "ann" "TASK_1" upload []) (new_row "ann" "TASK_1" upload)
fresh-Has = Has-replace_task "ann" "TASK_1" [] none-IsUnique upload

-- The first try cannot read the files, the later ones find them empty.
abbrev attempts : ℕ → Attempt
attempts n = record {
  statement_error = λ s. none;
  frames = ([], []);
  read_error = if n == 1 then some operational_error else none;
  transactions_error = none;
  persist_error = none;
  run_workflow = λ r. other_error;
  run_error = other_exception;
  now = n;
}

queued_active : is_active (new_row "ann" "TASK_1" upload).status ≡ true
unfolding new_row
queued_active = refl

attempts-IsSteady : (n : ℕ) → IsSteady (attempts n)
attempts-IsSteady n = record {
  reads = refl;
  runs = refl;
  fails = refl;
  starts = refl;
  marks_failed = refl;
  marks_succeeded = refl;
}

job_ends_example :
    IsDelivered "ann" "TASK_1" 3
      (deliver calendar settings "ann" "TASK_1" "BANK_CLEARING" 3 1 attempts fresh)
job_ends_example =
    job_ends calendar settings "ann" "TASK_1" "BANK_CLEARING" attempts fresh
      (new_row "ann" "TASK_1" upload) (omega arith) attempts-IsSteady fresh-Has queued_active

worker_job-IsIsolated_example :
    IsIsolated "ann" "TASK_1" fresh
      (worker_job calendar settings "ann" "TASK_1" "BANK_CLEARING" 2 (attempts 2) fresh).1
worker_job-IsIsolated_example =
    worker_job-IsIsolated calendar settings "ann" "TASK_1" "BANK_CLEARING" 2 (attempts 2) fresh
      (fresh-Has.unique)

nothing-IsNumbered : IsNumbered fresh
unfolding count_where
nothing-IsNumbered n = ground arith

executed :
    (execute_reconciliation calendar settings "ann" "TASK_1" "BANK_CLEARING" (attempts 2) fresh).0
    ≡ none
unfolding execute_reconciliation write_batch build_match_results classify rows_by_flow_id
    all_duplicates
executed = refl

execute_reconciliation-IsWritten_example :
    IsWritten "ann" "TASK_1"
      (execute_reconciliation calendar settings "ann" "TASK_1" "BANK_CLEARING" (attempts 2) fresh).1
execute_reconciliation-IsWritten_example =
    execute_reconciliation-IsWritten calendar settings "ann" "TASK_1" "BANK_CLEARING" (attempts 2)
      fresh (fresh-Has.unique) nothing-IsNumbered executed

-- The task's row after a job that failed, and the key of the job still set.
abbrev ended : Upload
ended = record upload { status = failed }

abbrev keyed_redis : Redis
keyed_redis = record { keys = "TASK_1" ∷ []; jobs = [] }

abbrev request : String → Bool → UploadRequest
request user force = record {
  user_id = user;
  task_id = "TASK_1";
  scenario_type = "BANK_CLEARING";
  bank_length = 0;
  clear_length = 0;
  force = force;
}

has_ended : is_terminal_task (new_row "ann" "TASK_1" ended).status ≡ true
unfolding new_row
has_ended = refl

no_bob : get_task "bob" "TASK_1" (replace_task "ann" "TASK_1" upload []) ≡ none
unfolding get_task replace_task delete_where select_first is_task new_row
no_bob = refl

key_there : mem "TASK_1" ("TASK_1" ∷ []) ≡ true
unfolding mem
key_there = refl

no_job_of_bob : has_job "bob" "TASK_1" [] ≡ false
unfolding has_job
no_job_of_bob = refl

first_upload-IsStranded_example :
    IsStranded "bob" "TASK_1"
      (upload_async
        (request "bob" true)
        (upload_async (request "bob" false) (replace_task "ann" "TASK_1" upload []) keyed_redis).1
        (upload_async
          (request "bob" false)
          (replace_task "ann" "TASK_1" upload [])
          keyed_redis).2).1
      (upload_async
        (request "bob" true)
        (upload_async (request "bob" false) (replace_task "ann" "TASK_1" upload []) keyed_redis).1
        (upload_async
          (request "bob" false)
          (replace_task "ann" "TASK_1" upload [])
          keyed_redis).2).2
first_upload-IsStranded_example =
    first_upload-IsStranded (request "bob" false) (replace_task "ann" "TASK_1" upload []) _
      keyed_redis _ (fresh-Has.unique) no_bob key_there no_job_of_bob
      (next (request "bob" true) here)
