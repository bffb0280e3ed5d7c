-- ===== src/Jobs/Stranded.antt =====
-- Which uploads put a job into the queue.
use bank_reconciliation_agen.Base.{
  ◌+◌, ◌≡◌, refl, ◌∙◌, Bool, true, false, not, ◌&&◌, ◌||◌, inl, inr, String, Option, none, some,
  List, [], ◌∷◌, ◌++◌, arith, str_eq, eq_iff, Bool-cases, Option-cases, keep, any, is_some,
}
use bank_reconciliation_agen.Base.Dict.{mem}
use bank_reconciliation_agen.Tasks.{TaskStatus, queued, TaskRow, new_row, get_task}
use bank_reconciliation_agen.Tasks.Rows.{Has, Has-replace_task}
use bank_reconciliation_agen.Tasks.Refinement.{IsUnique, replace_task-IsChange}
use bank_reconciliation_agen.Jobs.Requests.{
  Job, Redis, UploadRequest, enqueue_reconciliation, is_terminal_task, is_running, queue_upload,
  upload_async,
}

mem-dropped : (k : String) (ks : List String) → mem k (keep (λ j. not (str_eq j k)) ks) ≡ false
unfolding mem
mem-dropped k [] = refl
mem-dropped k (j ∷ ks) = ground (arith, mem-dropped k ks)

abbrev job_of : UploadRequest → Job
job_of q = record { user_id = q.user_id; task_id = q.task_id; scenario_type = q.scenario_type }

-- A forced upload of a task that has ended puts its job into the queue, behind the others, whether or
-- not its key is still set; the task is QUEUED and has been forced once more.
pub forced_upload-enqueues :
    (q : UploadRequest) (rows : List TaskRow) (redis : Redis) (r : TaskRow)
    → Has q.user_id q.task_id rows r
    → q.force ≡ true
    → is_terminal_task r.status ≡ true
    → let after = (upload_async q rows redis) in
      (after.2.jobs ≡ redis.jobs ++ job_of q ∷ [])
      × (mem q.task_id after.2.keys ≡ true)
      × (row : TaskRow) × (Has q.user_id q.task_id after.1 row)
      × (row.status ≡ queued)
      × (row.force_requeue_count ≡ r.force_requeue_count + 1)
unfolding upload_async queue_upload enqueue_reconciliation new_row mem
forced_upload-enqueues q rows redis r has forced ended =
    let idle : is_running r.status ≡ false = not_running r.status ended in
    let free = mem-dropped q.task_id redis.keys in
    rw (upload_async, has.found, forced, idle, ended, free)
      (
        refl,
        ground (arith, eq_iff q.task_id q.task_id),
        _,
        Has-replace_task q.user_id q.task_id rows has.unique _,
        refl,
        refl,
      )
  where
    not_running : (s : TaskStatus) → is_terminal_task s ≡ true → is_running s ≡ false
    not_running s e = ground arith

-- A job of the task among those that were put into the queue.
unfoldable pub has_job : String → String → List Job → Bool
has_job user task jobs = any (λ (j : Job). str_eq j.user_id user && str_eq j.task_id task) jobs

has_job-append :
    (user task : String) (jobs : List Job) (j : Job)
    → has_job user task jobs ≡ false
    → (str_eq j.user_id user && str_eq j.task_id task) ≡ false
    → has_job user task (jobs ++ j ∷ []) ≡ false
unfolding has_job
has_job-append user task [] j none_yet other = ground arith
has_job-append user task (i ∷ jobs) j none_yet other =
    ground (arith, has_job-append user task jobs j)

-- The task is QUEUED, and the queue never got a job of it.
pub record IsStranded (user task : String) (rows : List TaskRow) (redis : Redis) : Type 0 where
  pub row : TaskRow
  pub has : Has user task rows row
  pub waits : row.status ≡ queued
  pub no_job : has_job user task redis.jobs ≡ false

-- Uploads of any users, forced or not, while keys run out or are set by others.
pub data Uploads (rows : List TaskRow) (redis : Redis) : List TaskRow → Redis → Type 0 where
  here : Uploads rows redis rows redis
  next :
      {rs : List TaskRow} {rd : Redis} (q : UploadRequest)
      → Uploads rows redis rs rd
      → Uploads rows redis (upload_async q rs rd).1 (upload_async q rs rd).2
  keyed :
      {rs : List TaskRow} {rd : Redis} (keys : List String)
      → Uploads rows redis rs rd
      → Uploads rows redis rs (record rd { keys = keys })

enqueue-no_job :
    (force : Bool) (user task : String) (j : Job) (redis : Redis)
    → has_job user task redis.jobs ≡ false
    → (str_eq j.user_id user && str_eq j.task_id task) ≡ false
    → has_job user task (enqueue_reconciliation force j redis).1.jobs ≡ false
unfolding enqueue_reconciliation
enqueue-no_job force user task j redis none_yet other =
    ground (arith, has_job-append user task redis.jobs j)

other-IsStranded :
    (user task : String) (q : UploadRequest) (existing : Option TaskRow) (rows : List TaskRow)
    (redis : Redis)
    → (str_eq q.user_id user && str_eq q.task_id task) ≡ false
    → IsStranded user task rows redis
    → IsStranded user task
        (queue_upload q existing rows redis).1
        (queue_upload q existing rows redis).2
unfolding queue_upload
other-IsStranded user task q existing rows redis apart s =
    let change = replace_task-IsChange q.user_id q.task_id rows s.has.unique _ in
    record {
      row = s.row;
      has = record { unique = change.unique; found = change.others user task apart ∙ s.has.found };
      waits = s.waits;
      no_job =
          enqueue-no_job (q.force && is_some existing) user task (job_of q) redis s.no_job apart;
    }

upload_async-apart :
    (user task : String) (q : UploadRequest) (rows : List TaskRow) (redis : Redis)
    → (str_eq q.user_id user && str_eq q.task_id task) ≡ false
    → IsStranded user task rows redis
    → IsStranded user task (upload_async q rows redis).1 (upload_async q rows redis).2
unfolding upload_async
upload_async-apart user task q rows redis apart s =
    elim (Option-cases (get_task q.user_id q.task_id rows)) [
      | inl e ↦ rw (upload_async, e) (other-IsStranded user task q none rows redis apart s)
      | inr (r, e) ↦ elim (Bool-cases (q.force && is_running r.status)) [
        | inl b ↦ rw (upload_async, e, b) s
        | inr b ↦ elim (Bool-cases (not q.force || not (is_terminal_task r.status))) [
          | inl k ↦ rw (upload_async, e, b, k) s
          | inr k ↦
              rw (upload_async, e, b, k) (other-IsStranded user task q (some r) rows redis apart s)
        ]
      ]
    ]

upload_async-own :
    (q : UploadRequest) (rows : List TaskRow) (redis : Redis)
    → IsStranded q.user_id q.task_id rows redis
    → IsStranded q.user_id q.task_id (upload_async q rows redis).1 (upload_async q rows redis).2
unfolding upload_async
upload_async-own q rows redis s = elim (Bool-cases q.force) [
  | inl b ↦ rw (upload_async, s.has.found, s.waits, b) s
  | inr b ↦ rw (upload_async, s.has.found, s.waits, b) s
]

Uploads-IsStranded :
    (user task : String) (rows : List TaskRow) (redis : Redis) (rs : List TaskRow) (rd : Redis)
    → IsStranded user task rows redis
    → Uploads rows redis rs rd
    → IsStranded user task rs rd
Uploads-IsStranded user task rows redis rs rd s here = s
Uploads-IsStranded user task rows redis rs rd s (next {rs = mid} {rd = mid_redis} q before) =
    let s1 = Uploads-IsStranded user task rows redis mid mid_redis s before in
    elim (Bool-cases (str_eq q.user_id user && str_eq q.task_id task)) [
      | inr e ↦ upload_async-apart user task q mid mid_redis e s1
      | inl e ↦
          let u : q.user_id ≡ user = ground (arith, eq_iff q.user_id user) in
          let t : q.task_id ≡ task = ground (arith, eq_iff q.task_id task) in
          rw (← u, ← t) (upload_async-own q mid mid_redis (rw (u, t) s1))
    ]
Uploads-IsStranded user task rows redis rs rd s (keyed {rs = mid} {rd = mid_redis} keys before) =
    let s1 = Uploads-IsStranded user task rows redis mid mid_redis s before in
    record { row = s1.row; has = s1.has; waits = s1.waits; no_job = s1.no_job }

-- The key of a job does not name the user. Where a user uploads, for the first time, files whose task
-- another user's job holds the key of, the task is QUEUED without a job; and it stays QUEUED, without
-- ever getting one, through all uploads to the queue (`upload_async`) that follow, of any user, forced or not,
-- and whether the keys have run out by then or not, as long as nothing else touches it.
pub first_upload-IsStranded :
    (q : UploadRequest) (rows rs : List TaskRow) (redis rd : Redis)
    → IsUnique rows
    → get_task q.user_id q.task_id rows ≡ none
    → mem q.task_id redis.keys ≡ true
    → has_job q.user_id q.task_id redis.jobs ≡ false
    → Uploads (upload_async q rows redis).1 (upload_async q rows redis).2 rs rd
    → IsStranded q.user_id q.task_id rs rd
unfolding upload_async queue_upload enqueue_reconciliation new_row
first_upload-IsStranded q rows rs redis rd unique absent taken no_job later =
    Uploads-IsStranded q.user_id q.task_id _ _ rs rd
      (rw (upload_async, absent)
        (record {
          row = _;
          has = Has-replace_task q.user_id q.task_id rows unique _;
          waits = refl;
          no_job = no_job_yet q.force;
        }))
      later
  where
    no_job_yet :
        (force : Bool)
        → has_job q.user_id q.task_id
            (enqueue_reconciliation (force && false) (job_of q) redis).1.jobs
          ≡ false
    no_job_yet true = rw (enqueue_reconciliation, taken) no_job
    no_job_yet false = rw (enqueue_reconciliation, taken) no_job
