-- ===== src/Jobs/Tries.antt =====
-- The tries of a job: how each ends for the task, and that the last of them ends it.
use bank_reconciliation_agen.Base.{
  ℕ, zero, suc, ◌+◌, ◌≤◌, ◌<◌, ◌≡◌, refl, true, false, ◌||◌, inl, inr, String, Option, none, some,
  ltb, arith, Bool-cases,
}
use bank_reconciliation_agen.Base.Text.{len}
use bank_reconciliation_agen.Tasks.{
  running, uploaded, failed, is_active, is_done, is_task, TaskRow, mark_attempt_started,
  mark_failed_if_active, mark_attempt_succeeded,
}
use bank_reconciliation_agen.Tasks.Rows.{Has, Has-update_task, Has-kept}
use bank_reconciliation_agen.Router.Rows.{Calendar}
use bank_reconciliation_agen.Reconcile.Store.{Database}
use bank_reconciliation_agen.Jobs.{
  Failure, redis_connection_error, operational_error, other_exception, Settings, Attempt, JobEnd,
  raised, returned, is_retry, is_transient, after_job, after_transient, started_job, worker_job,
  deliver, failure_type_for, failure_summary_for,
}
use bank_reconciliation_agen.Jobs.Ends.{HasStatus, IsServed, IsSteady, service_job-IsServed}

-- How a try that is not tried again leaves the task's row.
pub data IsEnded (max attempt : ℕ) (r : TaskRow) : JobEnd → Type 0 where
  succeeded :
      r.status ≡ uploaded
      → r.job_attempt ≡ attempt
      → r.retry_recovered ≡ ltb 1 attempt
      → r.retry_exhausted ≡ false
      → r.failure_type ≡ none
      → IsEnded max attempt r returned
  given_up : r.status ≡ failed → IsEnded max attempt r returned
  exhausted :
      attempt ≡ max
      → r.status ≡ failed
      → r.job_attempt ≡ max
      → r.retry_exhausted ≡ true
      → (kind : String) × (r.failure_type ≡ some kind)
      → IsEnded max attempt r raised

-- What one try leaves: it is tried again while tries are left, with the task RUNNING, or it is ended.
pub record IsTried (user task : String) (max attempt : ℕ) (o : JobEnd × Database) : Type 0 where
  pub row : TaskRow
  pub has : Has user task o.1.tasks row
  pub again : is_retry o.0 ≡ true → (attempt < max) × (row.status ≡ running)
  pub ended : is_retry o.0 ≡ false → IsEnded max attempt row o.0

texts_fit :
    (f : Failure)
    → (ltb 64 (len (failure_type_for f)) || ltb 255 (len (failure_summary_for f))) ≡ false
unfolding len
texts_fit redis_connection_error = refl
texts_fit operational_error = refl
texts_fit other_exception = refl

module _ (calendar : Calendar) (settings : Settings) (user task scenario_type : String) where
  abbrev max_attempts : ℕ
  max_attempts = settings.arq_job_max_attempts

  succeeded-IsTried :
      (a : Attempt) (attempt : ℕ) (db : Database)
      → IsSteady a
      → HasStatus user task db.tasks uploaded
      → IsTried user task max_attempts attempt
          (after_job calendar settings user task scenario_type a attempt (none, db))
  unfolding after_job mark_attempt_succeeded is_task
  succeeded-IsTried a attempt db steady h =
      rw (after_job, steady.marks_succeeded)
        (record {
          row = record (h.row) {
            job_attempt = attempt;
            retry_recovered = ltb 1 attempt;
            retry_exhausted = false;
            failure_type = none;
            failure_summary = none;
            failed_at = none;
          };
          has =
              (Has-update_task user task db.tasks h.row h.has (λ q. is_done q.status) _
                (λ other that q. refl) (rw h.status refl)).1;
          again = λ e. absurd (ground arith);
          ended = λ e. succeeded h.status refl refl refl refl;
        })

  given_up-IsTried :
      (a : Attempt) (attempt : ℕ) (db : Database)
      → IsSteady a
      → HasStatus user task db.tasks failed
      → IsTried user task max_attempts attempt
          (after_job calendar settings user task scenario_type a attempt (none, db))
  unfolding after_job mark_attempt_succeeded is_task
  given_up-IsTried a attempt db steady h =
      rw (after_job, steady.marks_succeeded)
        (record {
          row = h.row;
          has =
              (Has-kept user task db.tasks h.row h.has (λ q. is_done q.status) _
                (λ other that q. refl) (rw h.status refl)).1;
          again = λ e. absurd (ground arith);
          ended = λ e. given_up h.status;
        })

  failed-IsTried :
      (a : Attempt) (attempt : ℕ) (f : Failure) (db : Database)
      → IsSteady a
      → is_transient f ≡ true
      → attempt ≤ max_attempts
      → HasStatus user task db.tasks running
      → IsTried user task max_attempts attempt
          (after_job calendar settings user task scenario_type a attempt (some f, db))
  unfolding after_job after_transient mark_failed_if_active is_task
  failed-IsTried a attempt f db steady transient le h =
      elim (Bool-cases (ltb attempt max_attempts)) [
        | inl e ↦
            rw (after_job, after_transient, transient, e)
              (record {
                row = h.row;
                has = h.has;
                again = λ _. (ground arith, h.status);
                ended = λ n. absurd (ground arith);
              })
        | inr e ↦
            rw (after_job, after_transient, transient, e, steady.marks_failed, texts_fit f)
              (record {
                row = record (h.row) {
                  status = failed;
                  job_attempt = attempt;
                  retry_exhausted = true;
                  retry_recovered = false;
                  failure_type = some (failure_type_for f);
                  failure_summary = some (failure_summary_for f);
                  failed_at = some a.now;
                };
                has =
                    (Has-update_task user task db.tasks h.row h.has (λ q. is_active q.status) _
                      (λ other that q. refl) (rw h.status refl)).1;
                again = λ n. absurd (ground arith);
                ended = λ n.
                    let last : attempt ≡ max_attempts = ground arith in
                    exhausted last refl last refl (failure_type_for f, refl);
              })
      ]

  after_job-IsTried :
      (a : Attempt) (attempt : ℕ) (o : Option Failure × Database)
      → IsSteady a
      → attempt ≤ max_attempts
      → IsServed user task o
      → IsTried user task max_attempts attempt
          (after_job calendar settings user task scenario_type a attempt o)
  after_job-IsTried a attempt (some f, db) steady le h =
      failed-IsTried a attempt f db steady (h.raises f refl).0 le (h.raises f refl).1
  after_job-IsTried a attempt (none, db) steady le h = elim (h.returns refl) [
    | inl up ↦ succeeded-IsTried a attempt db steady up
    | inr down ↦ given_up-IsTried a attempt db steady down
  ]

  -- Of a task that is QUEUED or RUNNING, a try whose number is from 1 to the maximum is tried again only
  -- while tries are left, and leaves the task RUNNING then; otherwise the task is UPLOADED by this try,
  -- with its number and whether it recovered, or FAILED: with the exhausted retries recorded and the
  -- exception raised after the last try's transient error, and quietly after another exception.
  pub worker_job-IsTried :
      (attempt : ℕ) (a : Attempt) (db : Database) (r : TaskRow)
      → 1 ≤ attempt
      → attempt ≤ max_attempts
      → IsSteady a
      → Has user task db.tasks r
      → is_active r.status ≡ true
      → IsTried user task max_attempts attempt
          (worker_job calendar settings user task scenario_type attempt a db)
  unfolding worker_job started_job mark_attempt_started is_task
  worker_job-IsTried attempt a db r positive le steady has active =
      let positive_b : ltb attempt 1 ≡ false = ground arith in
      let le_b : ltb max_attempts attempt ≡ false = ground arith in
      let (touched, there) =
        Has-update_task user task db.tasks r has (λ q. is_active q.status)
          (λ q. record q { status = running; job_attempt = attempt }) (λ other that q. refl)
          active in
      rw (worker_job, positive_b, le_b, steady.starts, started_job, positive_b, touched)
        (after_job-IsTried a attempt _ steady le (
          service_job-IsServed calendar settings user task scenario_type a _ steady
            (record { row = _; has = there; status = refl })))

-- Where the deliveries of a job have ended: the try that was the last, and the row it left.
pub record IsDelivered (user task : String) (max : ℕ) (o : ℕ × JobEnd × Database) : Type 0 where
  pub row : TaskRow
  pub has : Has user task o.2.tasks row
  pub tried : (1 ≤ o.0) × (o.0 ≤ max)
  pub ended : IsEnded max o.0 row o.1

module _ (calendar : Calendar) (settings : Settings) (user task scenario_type : String) where
  deliver-IsDelivered :
      (tries attempt : ℕ) (attempts : ℕ → Attempt) (db : Database) (r : TaskRow)
      → 1 ≤ attempt
      → 1 ≤ tries
      → attempt + tries ≡ settings.arq_job_max_attempts + 1
      → ((k : ℕ) → IsSteady (attempts k))
      → Has user task db.tasks r
      → is_active r.status ≡ true
      → IsDelivered user task settings.arq_job_max_attempts
          (deliver calendar settings user task scenario_type tries attempt attempts db)
  unfolding deliver
  deliver-IsDelivered zero attempt attempts db r positive some_left e steady has active =
      absurd (omega arith)
  deliver-IsDelivered (suc tries) attempt attempts db r positive some_left e steady has active =
      let tried =
        worker_job-IsTried calendar settings user task scenario_type attempt (attempts attempt) db r
          positive (omega arith) (steady attempt) has active in
      elim (Bool-cases (
        is_retry
          (worker_job calendar settings user task scenario_type attempt (attempts attempt) db).0)) [
            | inl again ↦
                let (left, going) = tried.again again in
                rw again (
                  deliver-IsDelivered tries (attempt + 1) attempts _ tried.row (omega arith)
                    (omega arith) (omega arith) steady tried.has (rw going refl))
            | inr over ↦ rw over (record {
              row = tried.row;
              has = tried.has;
              tried = (positive, omega arith);
              ended = tried.ended over;
            })
          ]

  -- The job of a task that is QUEUED or RUNNING, delivered again after each `Retry`, ends within the
  -- maximum of tries, whatever exceptions the files, the runs, the writes, `replace_task` and the status
  -- UPLOADED meet, where the other statements on the table of tasks raise none: the task is UPLOADED with the
  -- number of the last try, or it is FAILED, with the retries recorded as exhausted where a transient exception
  -- is raised again behind the last try.
  pub job_ends :
      (attempts : ℕ → Attempt) (db : Database) (r : TaskRow)
      → 1 ≤ settings.arq_job_max_attempts
      → ((k : ℕ) → IsSteady (attempts k))
      → Has user task db.tasks r
      → is_active r.status ≡ true
      → IsDelivered user task settings.arq_job_max_attempts (
          deliver calendar settings user task scenario_type settings.arq_job_max_attempts 1 attempts
            db)
  job_ends attempts db r positive steady has active =
      deliver-IsDelivered settings.arq_job_max_attempts 1 attempts db r (omega arith) positive
        (omega arith) steady has active
