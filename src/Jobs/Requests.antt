-- ===== src/Jobs/Requests.antt =====
-- `upload_async`, `start`, `start_live` and `_run_live_task` of services/reconciliation/service.py with
-- services/queue_client.py. The two files have been read and validated; the task's id is the digest of
-- their content, an argument here. The registry of emitters and the events are left out.
use bank_reconciliation_agen.Base.{
  ℕ, ◌+◌, Bool, true, false, not, ◌&&◌, ◌||◌, String, Option, none, some, List, [], ◌∷◌, ◌++◌,
  if◌then◌else◌, str_eq, is_some, keep,
}
use bank_reconciliation_agen.Base.Int.{ℤ, pos}
use bank_reconciliation_agen.Base.Dict.{mem}
use bank_reconciliation_agen.Tasks.{
  TaskStatus, queued, running, uploaded, ai_running, completed, failed, TaskRow, replace_task,
  get_task, update_status,
}

-- The arguments of a job of the queue.
pub record Job : Type 0 where
  pub user_id : String
  pub task_id : String
  pub scenario_type : String

-- The job keys that are set, each named by its `task_id`, and the jobs that were put into the queue.
pub record Redis : Type 0 where
  pub keys : List String
  pub jobs : List Job

-- `ReconciliationUploadResponse`
pub record UploadResponse : Type 0 where
  pub task_id : String
  pub status : TaskStatus
  pub total_bank_rows : ℕ
  pub total_clear_rows : ℕ
  pub auto_fixed_rows : ℕ
  pub pending_ai_rows : ℕ
  pub pending_human_rows : ℤ

-- The answer to a request, or the status code of an HTTPException.
pub data Answered {ℓ} (A : Type ℓ) : Type ℓ where
  ok : A → Answered A
  http_403 http_404 http_409 : Answered A

-- `enqueue_reconciliation`: whether the job was put into the queue. The key runs out after the
-- `job_idempotency_ttl_seconds`, by itself.
unfoldable pub enqueue_reconciliation : Bool → Job → Redis → Bool × Redis
unfolding mem
enqueue_reconciliation force job redis =
    let deleted = if force then keep (λ k. not (str_eq k job.task_id)) redis.keys else redis.keys in
    if mem job.task_id deleted
    then (false, record redis { keys = deleted })
    else (true, record { keys = job.task_id ∷ deleted; jobs = redis.jobs ++ job ∷ [] })

-- `status in {"UPLOADED", "COMPLETED", "FAILED"}`
abbrev pub is_terminal_task : TaskStatus → Bool
is_terminal_task uploaded = true
is_terminal_task completed = true
is_terminal_task failed = true
is_terminal_task _ = false

abbrev pub is_running : TaskStatus → Bool
is_running running = true
is_running _ = false

unfoldable pub response_of : TaskRow → UploadResponse
response_of r = record {
  task_id = r.task_id;
  status = r.status;
  total_bank_rows = r.total_bank_rows;
  total_clear_rows = r.total_clear_rows;
  auto_fixed_rows = r.auto_fixed_rows;
  pending_ai_rows = r.pending_ai_rows;
  pending_human_rows = r.pending_human_rows;
}

-- A validated upload: the two frames by their numbers of rows.
pub record UploadRequest : Type 0 where
  pub user_id : String
  pub task_id : String
  pub scenario_type : String
  pub bank_length : ℕ
  pub clear_length : ℕ
  pub force : Bool

-- The part of `upload_async` that queues the task.
unfoldable pub queue_upload :
    UploadRequest
    → Option TaskRow
    → List TaskRow
    → Redis
    → Answered UploadResponse × List TaskRow × Redis
queue_upload q existing rows redis = (
  ok (record {
    task_id = q.task_id;
    status = queued;
    total_bank_rows = q.bank_length;
    total_clear_rows = q.clear_length;
    auto_fixed_rows = 0;
    pending_ai_rows = 0;
    pending_human_rows = pos 0;
  }),
  replace_task q.user_id q.task_id
      (record {
        scenario_type = q.scenario_type;
        total_bank_rows = 0;
        total_clear_rows = 0;
        auto_fixed_rows = 0;
        pending_ai_rows = 0;
        pending_human_rows = 0;
        status = queued;
        force_requeue_count = elim existing [
          | none ↦ 0
          | some r ↦ if q.force then r.force_requeue_count + 1 else 0
        ];
      })
      rows,
  (enqueue_reconciliation (q.force && is_some existing)
      (record { user_id = q.user_id; task_id = q.task_id; scenario_type = q.scenario_type })
      redis).1,
)

-- `upload_async`
unfoldable pub upload_async :
    UploadRequest → List TaskRow → Redis → Answered UploadResponse × List TaskRow × Redis
unfolding queue_upload response_of
upload_async q rows redis = elim (get_task q.user_id q.task_id rows) [
  | none ↦ queue_upload q none rows redis
  | some r ↦
      if q.force && is_running r.status
      then (http_409, rows, redis)
      else if not q.force || not (is_terminal_task r.status)
      then (ok (response_of r), rows, redis)
      else queue_upload q (some r) rows redis
]

-- `start`: `auth_hook`, and the status.
unfoldable pub start : String → String → List TaskRow → Answered TaskStatus × List TaskRow
start user task rows = elim (get_task user task rows) [
  | none ↦ (http_403, rows)
  | some r ↦
      let (touched, after) = update_status user task ai_running rows in
      if touched then (ok ai_running, after) else (http_404, after)
]

-- `start_live`, up to the task that it creates.
unfoldable pub start_live : String → String → List TaskRow → Answered TaskStatus × List TaskRow
start_live user task rows = elim (get_task user task rows) [
  | none ↦ (http_403, rows)
  | some r ↦ elim r.status [
    | uploaded ↦
        let (touched, after) = update_status user task ai_running rows in
        if touched then (ok ai_running, after) else (http_404, after)
    | _ ↦ (http_409, rows)
  ]
]

-- `_run_live_task`, where the progress is emitted or an exception is raised.
unfoldable pub run_live_task : String → String → Bool → List TaskRow → List TaskRow
run_live_task user task emitted rows =
    (update_status user task (if emitted then completed else failed) rows).1
