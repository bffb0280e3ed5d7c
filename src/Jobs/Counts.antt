-- ===== src/Jobs/Counts.antt =====
-- What a batch that is carried through leaves in the tables.
use bank_reconciliation_agen.Base.{
  ◌+◌, ◌≡◌, refl, ◌∙◌, sym, ap, String, none, List, arith, Option-cases, inl, inr, true,
}
use bank_reconciliation_agen.Base.Int.{pos}
use bank_reconciliation_agen.Tasks.{
  running, uploaded, is_task, new_row, TaskRow, replace_ai_stats, numeric_cost, update_status,
  Upload,
}
use bank_reconciliation_agen.Tasks.Rows.{Has, Has-replace_task, Has-update_task}
use bank_reconciliation_agen.Tasks.Refinement.{IsUnique}
use bank_reconciliation_agen.Router.Rows.{Calendar}
use bank_reconciliation_agen.Reconcile.{
  MatchResult, build_match_results, summarize_match_results, count, is_for_human, is_for_ai,
}
use bank_reconciliation_agen.Reconcile.Batch.Writes.{WriteBundle, build_write_bundle, compute_cost}
use bank_reconciliation_agen.Reconcile.Store.{Database, persist_write_bundle}
use bank_reconciliation_agen.Reconcile.Counts.{
  IsCounted, IsNumbered, human_rows-replace_queue, open_rows-replace_queue, numbers-replace_queue,
}
use bank_reconciliation_agen.Jobs.{
  Settings, Attempt, upload_of, write_batch, execute_reconciliation, set_uploaded, replace_row,
}

-- The task is UPLOADED, its row counts its queue, and the numbers of the queue are apart.
pub record IsWritten (user task : String) (db : Database) : Type 0 where
  pub counted : IsCounted user task db
  pub uploaded_row : counted.row.status ≡ uploaded
  pub numbered : IsNumbered db

module _ (calendar : Calendar) (settings : Settings) (user task scenario_type : String) where
  -- The table with the row that `_execute_reconciliation` starts with, and with its end.
  stored-IsWritten :
      (a : Attempt) (results : List MatchResult) (w : WriteBundle) (db : Database)
      → IsNumbered db
      → (r : TaskRow) → Has user task db.tasks r
      → r.pending_human_rows ≡ pos (count is_for_human results)
      → r.unresolved_rows ≡ pos (count is_for_ai results + count is_for_human results)
      → let stored = persist_write_bundle user task scenario_type results w db in
        IsWritten user task
          (record stored { tasks = (update_status user task uploaded stored.tasks).1 })
  unfolding persist_write_bundle replace_ai_stats update_status is_task
  stored-IsWritten a results w db numbered r has human unresolved =
      let stats : TaskRow → TaskRow = λ r. record r {
        ai_processed_rows = w.ai_processed_rows;
        fallback_l2_rows = w.fallback_l2_rows;
        fallback_l3_rows = w.fallback_l3_rows;
        total_llm_tokens = w.total_prompt_tokens + w.total_completion_tokens;
        total_llm_cost =
            numeric_cost (compute_cost w.total_prompt_tokens w.total_completion_tokens);
      } in
      record {
        counted = record {
          row = record (stats r) { status = uploaded };
          has =
              (Has-update_task user task _ (stats r)
                (Has-update_task user task db.tasks r has (λ q. true) stats (λ other that q. refl)
                  refl).1
                (λ q. true) _ (λ other that q. refl) refl).1;
          human =
              human
              ∙ ap pos (
                  sym
                    (human_rows-replace_queue user task scenario_type db.next_id results db.queue));
          unresolved =
              unresolved
              ∙ ap pos (
                  sym
                    (open_rows-replace_queue user task scenario_type db.next_id results db.queue));
        };
        uploaded_row = refl;
        numbered =
            numbers-replace_queue user task scenario_type db.next_id results db.queue numbered;
      }

  write_batch-IsWritten :
      (a : Attempt) (results : List MatchResult) (db : Database)
      → IsNumbered db
      → (r : TaskRow) → Has user task db.tasks r
      → r.pending_human_rows ≡ pos (count is_for_human results)
      → r.unresolved_rows ≡ pos (count is_for_ai results + count is_for_human results)
      → (write_batch calendar settings user task scenario_type a results db).0 ≡ none
      → IsWritten user task (write_batch calendar settings user task scenario_type a results db).1
  unfolding write_batch
  write_batch-IsWritten a results db numbered r has human unresolved done =
      elim (Option-cases a.transactions_error) [
        | inr (f, e) ↦ absurd (ground arith)
        | inl e ↦
            elim (Option-cases (
              build_write_bundle settings.reconciliation_max_concurrency a.run_workflow task
                results)) [
                  | inl n ↦ absurd (ground arith)
                  | inr (w, n) ↦ elim (Option-cases a.persist_error) [
                    | inr (f, m) ↦ absurd (ground arith)
                    | inl m ↦ elim (Option-cases (a.statement_error set_uploaded)) [
                      | inr (f, u) ↦ absurd (ground arith)
                      | inl u ↦
                          rw (write_batch, e, n, m, u)
                            (stored-IsWritten a results w db numbered r has human unresolved)
                    ]
                  ]
                ]
      ]

  -- When `_execute_reconciliation` returns, on tables with one row for each task and apart numbers in
  -- the queue: the task is UPLOADED, its counters `pending_human_rows` and `unresolved_rows` are the
  -- numbers of its rows in the queue that wait for a human and that are not resolved, and the numbers
  -- of the queue are apart still.
  pub execute_reconciliation-IsWritten :
      (a : Attempt) (db : Database)
      → IsUnique db.tasks
      → IsNumbered db
      → (execute_reconciliation calendar settings user task scenario_type a db).0 ≡ none
      → IsWritten user task
          (execute_reconciliation calendar settings user task scenario_type a db).1
  unfolding execute_reconciliation new_row upload_of summarize_match_results
  execute_reconciliation-IsWritten a db unique numbered done =
      elim (Option-cases
        (build_match_results calendar scenario_type settings.cutoff_window a.frames.0 a.frames.1)) [
          | inl e ↦ absurd (ground arith)
          | inr (results, e) ↦
              let u : Upload =
                upload_of scenario_type running a.frames (summarize_match_results results) in
              elim (Option-cases (a.statement_error replace_row)) [
                | inr (f, n) ↦ absurd (ground arith)
                | inl n ↦
                    rw (execute_reconciliation, e, n)
                      (write_batch-IsWritten a results _ numbered (new_row user task u)
                        (Has-replace_task user task db.tasks unique u) refl refl (ground arith))
              ]
        ]
