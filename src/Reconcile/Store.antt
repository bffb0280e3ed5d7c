-- ===== src/Reconcile/Store.antt =====
-- services/queue.py, services/ledger.py and services/reconciliation/persistence.py: the tables of queue,
-- ledger and tasks, and the transaction that a batch ends with. The statements after it, each of which
-- has its exceptions caught, write the logs and the trace, and are left out.
use bank_reconciliation_agen.Base.{
  ℕ, ◌+◌, Bool, ◌&&◌, String, Option, none, List, map, str_eq, length,
}
use bank_reconciliation_agen.Base.Table.{select_first, delete_where, insert, count_where}
use bank_reconciliation_agen.Tasks.{TaskRow, replace_ai_stats}
use bank_reconciliation_agen.Reconcile.{MatchResult, QueueRow, queue_entries}
use bank_reconciliation_agen.Reconcile.Batch.{LedgerRow}
use bank_reconciliation_agen.Reconcile.Batch.Writes.{WriteBundle, compute_cost}

-- A row of `t_error_ledger`: the `LedgerRow` and what the service and a review set beside it.
pub record LedgerEntry : Type 0 where
  pub user_id : String
  pub scenario_type : String
  pub row : LedgerRow
  pub handler_username : Option String
  pub handle_remark : Option String
  pub handled_at : Option ℕ

-- A row of `t_human_review`.
pub record HumanReview : Type 0 where
  pub user_id : String
  pub scenario_type : String
  pub queue_id : ℕ
  pub task_id : String
  pub ai_suggestion : String
  pub ai_confidence : Option ℕ
  pub ai_reason : Option String
  pub ai_fallback_level : ℕ
  pub action : String
  pub handler_username : String
  pub remark : Option String

-- The tables, and the next `id` that the database gives to a row of the queue.
pub record Database : Type 0 where
  pub tasks : List TaskRow
  pub queue : List QueueRow
  pub ledger : List LedgerEntry
  pub reviews : List HumanReview
  pub next_id : ℕ

unfoldable pub is_queued : String → String → QueueRow → Bool
is_queued user task r = str_eq r.user_id user && str_eq r.task_id task

unfoldable pub is_entered : String → String → LedgerEntry → Bool
is_entered user task e = str_eq e.user_id user && str_eq e.row.task_id task

-- `QueueService.replace_task_rows`, of rows that have their `id` already.
unfoldable pub replace_queue : String → String → List QueueRow → List QueueRow → List QueueRow
replace_queue user task rows queue = insert rows (delete_where (is_queued user task) queue)

-- `QueueService.count_rows`
unfoldable pub count_rows : String → String → List QueueRow → ℕ
count_rows user task queue = count_where (is_queued user task) queue

-- `QueueService.get_row`
unfoldable pub get_row : String → String → String → List QueueRow → Option QueueRow
get_row user task flow_id queue =
    select_first (λ r. is_queued user task r && str_eq r.flow_id flow_id) queue

-- `LedgerService._to_insert_values`
unfoldable pub to_entry : String → String → LedgerRow → LedgerEntry
to_entry user scenario_type row = record {
  user_id = user;
  scenario_type = scenario_type;
  row = row;
  handler_username = none;
  handle_remark = none;
  handled_at = none;
}

-- `LedgerService.replace_task_rows`
unfoldable pub replace_ledger :
    String → String → String → List LedgerRow → List LedgerEntry → List LedgerEntry
replace_ledger user task scenario_type rows ledger =
    insert (map (to_entry user scenario_type) rows) (delete_where (is_entered user task) ledger)

-- The transaction of `persist_write_bundle`, with the rows of `_write_queue_entries`.
unfoldable pub persist_write_bundle :
    String → String → String → List MatchResult → WriteBundle → Database → Database
persist_write_bundle user task scenario_type results w db =
    let entries = queue_entries db.next_id user task scenario_type results in
    record db {
      ledger = replace_ledger user task scenario_type w.ledger_rows db.ledger;
      queue = replace_queue user task entries db.queue;
      next_id = db.next_id + length entries;
      tasks =
          (replace_ai_stats user task
            (record {
              ai_processed_rows = w.ai_processed_rows;
              fallback_l2_rows = w.fallback_l2_rows;
              fallback_l3_rows = w.fallback_l3_rows;
              total_llm_tokens = w.total_prompt_tokens + w.total_completion_tokens;
              total_llm_cost = compute_cost w.total_prompt_tokens w.total_completion_tokens;
            })
            db.tasks).1;
    }
