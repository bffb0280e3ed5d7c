-- ===== src/Jobs/Isolation.antt =====
-- A job among those of other users and tasks: it reads and writes the rows of its own task only.
use bank_reconciliation_agen.Base.{
  ℕ, ◌+◌, ◌≡◌, refl, ◌∙◌, Bool, true, false, ◌&&◌, inl, inr, String, Option, none, some, List, [],
  ◌∷◌, map, ltb, arith, str_eq, eq_iff, Bool-cases, Option-cases, keep, All,
}
use bank_reconciliation_agen.Base.Table.{keep-delete_other, keep-append_other}
use bank_reconciliation_agen.Tasks.{
  TaskRow, get_task, mark_attempt_started, update_status, mark_failed_if_active, running, uploaded,
  failed,
}
use bank_reconciliation_agen.Tasks.Refinement.{
  IsUnique, Request, run, run-IsRefined, replace, set_status, set_ai_stats, succeed, start, fail,
}
use bank_reconciliation_agen.Router.Rows.{Calendar}
use bank_reconciliation_agen.Reconcile.{
  MatchResult, QueueRow, is_fixed, queue_row, queue_entries, build_match_results,
  summarize_match_results,
}
use bank_reconciliation_agen.Reconcile.Batch.{LedgerRow}
use bank_reconciliation_agen.Reconcile.Batch.Writes.{WriteBundle, build_write_bundle}
use bank_reconciliation_agen.Reconcile.Batch.Order.{ledger_rows-task}
use bank_reconciliation_agen.Reconcile.Store.{
  Database, LedgerEntry, is_queued, is_entered, to_entry, replace_queue, replace_ledger,
  persist_write_bundle,
}
use bank_reconciliation_agen.Jobs.{
  Failure, is_transient, Settings, Attempt, upload_of, write_batch, execute_reconciliation, settle,
  is_skipped, service_job, after_job, after_transient, started_job, served, read_task, set_running,
  set_failed, set_uploaded, replace_row, mark_started, mark_failed, mark_succeeded, worker_job,
  failure_type_for, failure_summary_for,
}

-- Every other task has its row, its part of the queue and its part of the ledger as before.
pub record IsIsolated (user task : String) (db after : Database) : Type 0 where
  pub unique : IsUnique after.tasks
  pub tasks :
      (other that : String)
      → (str_eq user other && str_eq task that) ≡ false
      → get_task other that after.tasks ≡ get_task other that db.tasks
  pub queue :
      (other that : String)
      → (str_eq user other && str_eq task that) ≡ false
      → keep (is_queued other that) after.queue ≡ keep (is_queued other that) db.queue
  pub ledger :
      (other that : String)
      → (str_eq user other && str_eq task that) ≡ false
      → keep (is_entered other that) after.ledger ≡ keep (is_entered other that) db.ledger

is_queued-apart :
    (user task other that : String)
    → (str_eq user other && str_eq task that) ≡ false
    → (r : QueueRow) → is_queued other that r ≡ true
    → is_queued user task r ≡ false
unfolding is_queued
is_queued-apart user task other that apart r h = ground (
  arith,
  eq_iff r.user_id other,
  eq_iff r.task_id that,
  eq_iff r.user_id user,
  eq_iff r.task_id task,
  eq_iff user other,
  eq_iff task that,
)

is_entered-apart :
    (user task other that : String)
    → (str_eq user other && str_eq task that) ≡ false
    → (e : LedgerEntry) → is_entered other that e ≡ true
    → is_entered user task e ≡ false
unfolding is_entered
is_entered-apart user task other that apart e h = ground (
  arith,
  eq_iff e.user_id other,
  eq_iff e.row.task_id that,
  eq_iff e.user_id user,
  eq_iff e.row.task_id task,
  eq_iff user other,
  eq_iff task that,
)

queue_entries-others :
    (id : ℕ) (user task scenario_type other that : String)
    → (str_eq user other && str_eq task that) ≡ false
    → (results : List MatchResult)
    → All (λ r. is_queued other that r ≡ false) (queue_entries id user task scenario_type results)
unfolding queue_entries queue_row is_queued
queue_entries-others id user task scenario_type other that apart [] = tt
queue_entries-others id user task scenario_type other that apart (r ∷ results) =
    elim (Bool-cases (is_fixed r)) [
      | inl e ↦ rw e (queue_entries-others id user task scenario_type other that apart results)
      | inr e ↦
          rw e
            (apart, queue_entries-others (id + 1) user task scenario_type other that apart results)
    ]

entries-others :
    (user task scenario_type other that : String)
    → (str_eq user other && str_eq task that) ≡ false
    → (rows : List LedgerRow) → All (λ (l : LedgerRow). l.task_id ≡ task) rows
    → All (λ e. is_entered other that e ≡ false) (map (to_entry user scenario_type) rows)
unfolding to_entry is_entered
entries-others user task scenario_type other that apart [] same = tt
entries-others user task scenario_type other that apart (l ∷ rows) same =
    (rw (same.0) apart, entries-others user task scenario_type other that apart rows same.1)

module _ (user task : String) where
  IsIsolated-refl : (db : Database) → IsUnique db.tasks → IsIsolated user task db db
  IsIsolated-refl db unique = record {
    unique = unique;
    tasks = λ other that apart. refl;
    queue = λ other that apart. refl;
    ledger = λ other that apart. refl;
  }

  -- A statement on the table of tasks after other steps.
  IsIsolated-tasks :
      (db mid : Database) (q : Request) (touched : Bool) (rows : List TaskRow)
      → IsIsolated user task db mid
      → run user task q mid.tasks ≡ some (touched, rows)
      → IsIsolated user task db (record mid { tasks = rows })
  IsIsolated-tasks db mid q touched rows h e =
      let change = (run-IsRefined user task q mid.tasks h.unique).frame touched rows e in
      record {
        unique = change.unique;
        tasks = λ other that apart. change.others other that apart ∙ h.tasks other that apart;
        queue = h.queue;
        ledger = h.ledger;
      }

  IsIsolated-persist_write_bundle :
      (scenario_type : String) (results : List MatchResult) (w : WriteBundle) (db mid : Database)
      → All (λ (l : LedgerRow). l.task_id ≡ task) w.ledger_rows
      → IsIsolated user task db mid
      → IsIsolated user task db (persist_write_bundle user task scenario_type results w mid)
  unfolding persist_write_bundle replace_queue replace_ledger
  IsIsolated-persist_write_bundle scenario_type results w db mid same h =
      let change = (run-IsRefined user task (set_ai_stats _) mid.tasks h.unique).frame _ _ refl in
      record {
        unique = change.unique;
        tasks = λ other that apart. change.others other that apart ∙ h.tasks other that apart;
        queue = λ other that apart.
            keep-append_other (is_queued other that) _ _
              (queue_entries-others mid.next_id user task scenario_type other that apart results)
            ∙ keep-delete_other (is_queued user task) (is_queued other that)
                (is_queued-apart user task other that apart) mid.queue
            ∙ h.queue other that apart;
        ledger = λ other that apart.
            keep-append_other (is_entered other that) _ _
              (entries-others user task scenario_type other that apart w.ledger_rows same)
            ∙ keep-delete_other (is_entered user task) (is_entered other that)
                (is_entered-apart user task other that apart) mid.ledger
            ∙ h.ledger other that apart;
      }

module _ (calendar : Calendar) (settings : Settings) (user task scenario_type : String) where
  write_batch-IsIsolated :
      (a : Attempt) (results : List MatchResult) (db mid : Database)
      → IsIsolated user task db mid
      → IsIsolated user task db
          (write_batch calendar settings user task scenario_type a results mid).1
  unfolding write_batch
  write_batch-IsIsolated a results db mid h = elim (Option-cases a.transactions_error) [
    | inr (f, e) ↦ rw (write_batch, e) h
    | inl e ↦
        elim (Option-cases (
          build_write_bundle settings.reconciliation_max_concurrency a.run_workflow task results)) [
            | inl n ↦ rw (write_batch, e, n) h
            | inr (w, n) ↦ elim (Option-cases a.persist_error) [
              | inr (f, m) ↦ rw (write_batch, e, n, m) h
              | inl m ↦
                  let stored =
                    IsIsolated-persist_write_bundle user task scenario_type results w db mid
                      (ledger_rows-task a.run_workflow task settings.reconciliation_max_concurrency
                        results w n)
                      h in
                  elim (Option-cases (a.statement_error set_uploaded)) [
                    | inr (f, u) ↦ rw (write_batch, e, n, m, u) stored
                    | inl u ↦
                        rw (write_batch, e, n, m, u)
                          (IsIsolated-tasks user task db _ (set_status uploaded) _ _ stored refl)
                  ]
            ]
          ]
  ]

  execute-IsIsolated :
      (a : Attempt) (db mid : Database)
      → IsIsolated user task db mid
      → IsIsolated user task db
          (execute_reconciliation calendar settings user task scenario_type a mid).1
  unfolding execute_reconciliation
  execute-IsIsolated a db mid h =
      elim (Option-cases
        (build_match_results calendar scenario_type settings.cutoff_window a.frames.0 a.frames.1)) [
          | inl e ↦ rw (execute_reconciliation, e) h
          | inr (results, e) ↦ elim (Option-cases (a.statement_error replace_row)) [
            | inr (f, n) ↦ rw (execute_reconciliation, e, n) h
            | inl n ↦
                rw (execute_reconciliation, e, n)
                  (write_batch-IsIsolated a results db _ (
                    IsIsolated-tasks user task db mid
                      (replace (
                        upload_of scenario_type running a.frames (summarize_match_results results)))
                      true _ h refl))
          ]
        ]

  settle-IsIsolated :
      (a : Attempt) (db : Database) (o : Option Failure × Database)
      → IsIsolated user task db o.1
      → IsIsolated user task db (settle calendar settings user task scenario_type a o).1
  unfolding settle
  settle-IsIsolated a db (none, mid) h = h
  settle-IsIsolated a db (some f, mid) h = elim (Bool-cases (is_transient f)) [
    | inl e ↦ rw e h
    | inr e ↦ elim (Option-cases (a.statement_error set_failed)) [
      | inr (g, n) ↦ rw (settle, e, n) h
      | inl n ↦ rw (settle, e, n) (IsIsolated-tasks user task db mid (set_status failed) _ _ h refl)
    ]
  ]

  served-IsIsolated :
      (a : Attempt) (db mid : Database)
      → IsIsolated user task db mid
      → IsIsolated user task db (served calendar settings user task scenario_type a mid).1
  unfolding served
  served-IsIsolated a db mid h =
      let going = IsIsolated-tasks user task db mid (set_status running) _ _ h refl in
      let db1 = record mid { tasks = (update_status user task running mid.tasks).1 } in
      elim (Option-cases (a.statement_error set_running)) [
        | inr (f, n) ↦ rw (served, n) h
        | inl n ↦
            rw (served, n)
              (settle-IsIsolated a db
                (elim a.read_error [
                  | some f ↦ (some f, db1)
                  | none ↦ execute_reconciliation calendar settings user task scenario_type a db1
                ])
                (elim (Option-cases a.read_error) [
                  | inr (f, m) ↦ rw m going
                  | inl m ↦ rw m (execute-IsIsolated a db _ going)
                ]))
      ]

  service_job-IsIsolated :
      (a : Attempt) (db mid : Database)
      → IsIsolated user task db mid
      → IsIsolated user task db (service_job calendar settings user task scenario_type a mid).1
  unfolding service_job
  service_job-IsIsolated a db mid h = elim (Option-cases (a.statement_error read_task)) [
    | inr (f, n) ↦ rw (service_job, n) h
    | inl n ↦
        elim (Bool-cases
          (is_skipped calendar settings user task scenario_type (get_task user task mid.tasks))) [
            | inl e ↦ rw (service_job, n, e) h
            | inr e ↦ rw (service_job, n, e) (served-IsIsolated a db mid h)
          ]
  ]

  after_transient-IsIsolated :
      (a : Attempt) (attempt : ℕ) (f : Failure) (db mid : Database)
      → IsIsolated user task db mid
      → IsIsolated user task db
          (after_transient calendar settings user task scenario_type a attempt f mid).1
  unfolding after_transient
  after_transient-IsIsolated a attempt f db mid h =
      elim (Bool-cases (ltb attempt settings.arq_job_max_attempts)) [
        | inl e ↦ rw (after_transient, e) h
        | inr e ↦ elim (Option-cases (a.statement_error mark_failed)) [
          | inr (g, k) ↦ rw (after_transient, e, k) h
          | inl k ↦
              elim (Option-cases (
                mark_failed_if_active a.now user task attempt (failure_type_for f)
                  (failure_summary_for f) mid.tasks)) [
                    | inl n ↦ rw (after_transient, e, k, n) h
                    | inr (r, n) ↦
                        rw (after_transient, e, k, n)
                          (IsIsolated-tasks user task db mid
                            (fail a.now attempt (failure_type_for f) (failure_summary_for f)) r.0
                            r.1 h n)
                  ]
        ]
      ]

  after_job-IsIsolated :
      (a : Attempt) (attempt : ℕ) (db : Database) (o : Option Failure × Database)
      → IsIsolated user task db o.1
      → IsIsolated user task db (after_job calendar settings user task scenario_type a attempt o).1
  unfolding after_job
  after_job-IsIsolated a attempt db (none, mid) h =
      elim (Option-cases (a.statement_error mark_succeeded)) [
        | inr (g, k) ↦ rw (after_job, k) h
        | inl k ↦ rw (after_job, k) (IsIsolated-tasks user task db mid (succeed attempt) _ _ h refl)
      ]
  after_job-IsIsolated a attempt db (some f, mid) h = elim (Bool-cases (is_transient f)) [
    | inl e ↦ rw e (after_transient-IsIsolated a attempt f db mid h)
    | inr e ↦ rw e h
  ]

  started_job-IsIsolated :
      (attempt : ℕ) (a : Attempt) (db : Database)
      → IsUnique db.tasks
      → IsIsolated user task db
          (started_job calendar settings user task scenario_type attempt a db).1
  unfolding started_job
  started_job-IsIsolated attempt a db unique =
      let h = IsIsolated-refl user task db unique in
      elim (Option-cases (mark_attempt_started user task attempt db.tasks)) [
        | inl m ↦ rw (started_job, m) h
        | inr ((touched, rows), m) ↦
            let going = IsIsolated-tasks user task db db (start attempt) touched rows h m in
            elim (Bool-cases touched) [
              | inl k ↦
                  rw (started_job, m, k)
                    (after_job-IsIsolated a attempt db _ (service_job-IsIsolated a db _ going))
              | inr k ↦ rw (started_job, m, k) going
            ]
      ]

  -- Whatever a try meets and however it ends, every other task, of this user or another, has its row,
  -- its part of the queue and its part of the ledger as before, and no task has two rows.
  pub worker_job-IsIsolated :
      (attempt : ℕ) (a : Attempt) (db : Database)
      → IsUnique db.tasks
      → IsIsolated user task db
          (worker_job calendar settings user task scenario_type attempt a db).1
  unfolding worker_job
  worker_job-IsIsolated attempt a db unique =
      let h = IsIsolated-refl user task db unique in
      elim (Bool-cases (ltb attempt 1)) [
        | inl e ↦ rw e h
        | inr e ↦ elim (Bool-cases (ltb settings.arq_job_max_attempts attempt)) [
          | inl n ↦ rw (e, n) h
          | inr n ↦ elim (Option-cases (a.statement_error mark_started)) [
            | inr (f, m) ↦ rw (worker_job, e, n, m) h
            | inl m ↦ rw (worker_job, e, n, m) (started_job-IsIsolated attempt a db unique)
          ]
        ]
      ]
