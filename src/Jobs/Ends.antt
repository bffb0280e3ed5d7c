-- ===== src/Jobs/Ends.antt =====
-- The end of a job, try by try.
use bank_reconciliation_agen.Base.{
  ◌≡◌, refl, true, ◌⊎◌, inl, inr, String, Option, none, some, some-injective, subst, List, arith,
  Bool-cases, Option-cases,
}
use bank_reconciliation_agen.Tasks.{
  TaskStatus, running, uploaded, failed, is_task, TaskRow, new_row, update_status, replace_ai_stats,
}
use bank_reconciliation_agen.Tasks.Rows.{Has, Has-replace_task, Has-update_task}
use bank_reconciliation_agen.Router.Rows.{Calendar}
use bank_reconciliation_agen.Reconcile.{MatchResult, build_match_results, summarize_match_results}
use bank_reconciliation_agen.Reconcile.Batch.Writes.{build_write_bundle}
use bank_reconciliation_agen.Reconcile.Store.{Database, persist_write_bundle}
use bank_reconciliation_agen.Jobs.{
  Failure, is_transient, Settings, Attempt, upload_of, write_batch, execute_reconciliation, settle,
  is_skipped, service_job, served, read_task, set_running, set_failed, set_uploaded, replace_row,
  mark_started, mark_failed, mark_succeeded,
}

-- The table has a row for the task with a status.
pub record HasStatus (user task : String) (rows : List TaskRow) (s : TaskStatus) : Type 0 where
  pub row : TaskRow
  pub has : Has user task rows row
  pub status : row.status ≡ s

HasStatus-update_status :
    (user task : String) (rows : List TaskRow) (r : TaskRow) (s : TaskStatus)
    → Has user task rows r
    → HasStatus user task (update_status user task s rows).1 s
unfolding update_status is_task
HasStatus-update_status user task rows r s has = record {
  row = record r { status = s };
  has = (Has-update_task user task rows r has (λ q. true) _ (λ other that q. refl) refl).1;
  status = refl;
}

-- What the service's job leaves: without an exception the task is UPLOADED or FAILED; a transient one
-- leaves it RUNNING, and no other gets through.
pub record IsServed (user task : String) (o : Option Failure × Database) : Type 0 where
  pub returns :
      o.0 ≡ none → HasStatus user task o.1.tasks uploaded ⊎ HasStatus user task o.1.tasks failed
  pub raises :
      (f : Failure) → o.0 ≡ some f → (is_transient f ≡ true) × HasStatus user task o.1.tasks running

-- The statements of a try raise no exception, but for `replace_task` and the status UPLOADED, which may.
pub record IsSteady (a : Attempt) : Type 0 where
  pub reads : a.statement_error read_task ≡ none
  pub runs : a.statement_error set_running ≡ none
  pub fails : a.statement_error set_failed ≡ none
  pub starts : a.statement_error mark_started ≡ none
  pub marks_failed : a.statement_error mark_failed ≡ none
  pub marks_succeeded : a.statement_error mark_succeeded ≡ none

-- The same before the service looks at the exception.
record IsExecuted (user task : String) (o : Option Failure × Database) : Type 0 where
  returns : o.0 ≡ none → HasStatus user task o.1.tasks uploaded
  raises : (f : Failure) → o.0 ≡ some f → HasStatus user task o.1.tasks running

IsExecuted-raised :
    (user task : String) (f : Failure) (db : Database)
    → HasStatus user task db.tasks running
    → IsExecuted user task (some f, db)
IsExecuted-raised user task f db h = record {
  returns = λ e. absurd (ground arith);
  raises = λ g e. h;
}

module _ (calendar : Calendar) (settings : Settings) (user task scenario_type : String) where
  write_batch-IsExecuted :
      (a : Attempt) (results : List MatchResult) (db : Database)
      → HasStatus user task db.tasks running
      → IsExecuted user task (write_batch calendar settings user task scenario_type a results db)
  unfolding write_batch persist_write_bundle replace_ai_stats is_task
  write_batch-IsExecuted a results db h = elim (Option-cases a.transactions_error) [
    | inr (f, e) ↦ rw (write_batch, e) (IsExecuted-raised user task f db h)
    | inl e ↦
        elim (Option-cases (
          build_write_bundle settings.reconciliation_max_concurrency a.run_workflow task results)) [
            | inl n ↦ rw (write_batch, e, n) (IsExecuted-raised user task a.run_error db h)
            | inr (w, n) ↦ elim (Option-cases a.persist_error) [
              | inr (f, m) ↦ rw (write_batch, e, n, m) (IsExecuted-raised user task f db h)
              | inl m ↦
                  let kept =
                    (Has-update_task user task db.tasks h.row h.has (λ q. true) _
                      (λ other that q. refl) refl).1 in
                  elim (Option-cases (a.statement_error set_uploaded)) [
                    | inr (f, u) ↦
                        rw (write_batch, e, n, m, u)
                          (IsExecuted-raised user task f _
                            (record { row = _; has = kept; status = h.status }))
                    | inl u ↦
                        rw (write_batch, e, n, m, u)
                          (record {
                            returns = λ _. HasStatus-update_status user task _ _ uploaded kept;
                            raises = λ f k. absurd (ground arith);
                          })
                  ]
            ]
          ]
  ]

  execute_reconciliation-IsExecuted :
      (a : Attempt) (db : Database)
      → HasStatus user task db.tasks running
      → IsExecuted user task (execute_reconciliation calendar settings user task scenario_type a db)
  unfolding execute_reconciliation new_row upload_of
  execute_reconciliation-IsExecuted a db h =
      elim (Option-cases
        (build_match_results calendar scenario_type settings.cutoff_window a.frames.0 a.frames.1)) [
          | inl e ↦ rw (execute_reconciliation, e) (IsExecuted-raised user task _ db h)
          | inr (results, e) ↦ elim (Option-cases (a.statement_error replace_row)) [
            | inr (f, n) ↦ rw (execute_reconciliation, e, n) (IsExecuted-raised user task f db h)
            | inl n ↦
                rw (execute_reconciliation, e, n)
                  (write_batch-IsExecuted a results _ (record {
                    row = new_row user task (
                        upload_of scenario_type running a.frames (summarize_match_results results));
                    has = Has-replace_task user task db.tasks h.has.unique _;
                    status = refl;
                  }))
          ]
        ]

  settle-IsServed :
      (a : Attempt) (o : Option Failure × Database)
      → IsSteady a
      → IsExecuted user task o
      → IsServed user task (settle calendar settings user task scenario_type a o)
  unfolding settle
  settle-IsServed a (none, db) steady h = record {
    returns = λ e. inl (h.returns refl);
    raises = λ f e. absurd (ground arith);
  }
  settle-IsServed a (some f, db) steady h = elim (Bool-cases (is_transient f)) [
    | inl e ↦ rw e (record {
      returns = λ n. absurd (ground arith);
      raises =
          λ g n. (subst (λ k. is_transient k ≡ true) (some-injective f g n) e, h.raises f refl);
    })
    | inr e ↦
        rw (settle, e, steady.fails)
          (record {
            returns = λ n.
                inr (HasStatus-update_status user task db.tasks _ failed (h.raises f refl).has);
            raises = λ g n. absurd (ground arith);
          })
  ]

  pub service_job-IsServed :
      (a : Attempt) (db : Database)
      → IsSteady a
      → HasStatus user task db.tasks running
      → IsServed user task (service_job calendar settings user task scenario_type a db)
  unfolding service_job served is_skipped
  service_job-IsServed a db steady h =
      let going = HasStatus-update_status user task db.tasks h.row running h.has in
      rw (service_job, served, steady.reads, steady.runs, h.has.found, h.status)
        (settle-IsServed a _ steady (elim (Option-cases a.read_error) [
          | inr (f, e) ↦ rw e (IsExecuted-raised user task f _ going)
          | inl e ↦ rw e (execute_reconciliation-IsExecuted a _ going)
        ]))
