-- ===== src/Review/Tests.antt =====
-- A queue with one item that waits for a human.
use bank_reconciliation_agen.Base.{
  ℕ, List, ◌≡◌, refl, true, false, String, none, some, some-injective, sym, ap, [], ◌∷◌, map, keep,
  arith,
}
use bank_reconciliation_agen.Base.Int.{pos, negsuc, ◌-ℤ◌}
use bank_reconciliation_agen.Base.Table.{count_where, select_first, update_where, delete_where}
use bank_reconciliation_agen.Tasks.{
  uploaded, Upload, new_row, replace_task, update_task, get_task, is_task,
}
use bank_reconciliation_agen.Tasks.Refinement.{IsUnique}
use bank_reconciliation_agen.Tasks.Rows.{Has, Has-replace_task}
use bank_reconciliation_agen.Reconcile.{pending_human, fixed, QueueRow}
use bank_reconciliation_agen.Amount.{cents}
use bank_reconciliation_agen.Reconcile.Store.{Database, LedgerEntry, is_queued, is_entered}
use bank_reconciliation_agen.Review.Pending.{Serials, PendingItem, is_other, list_pending}
use bank_reconciliation_agen.Review.Listing.{listed_pages, approve-listed_pages}
use bank_reconciliation_agen.Reconcile.Counts.{IsCounted, IsNumbered, human_rows, open_rows}
use bank_reconciliation_agen.Review.{
  current, Decision, approve, approve_via_checkpoint, approve_plain, apply_checkpoint_decision,
  load_review_context, apply_review_core, status_for_action,
}
use bank_reconciliation_agen.Review.Decisions.{row_at}
use bank_reconciliation_agen.Review.Sequences.{here, next, Reviewed-IsCounted}
use bank_reconciliation_agen.Review.Once.{approve_all, decided_once}

abbrev upload : Upload
upload = record {
  scenario_type = "BANK_CLEARING";
  total_bank_rows = 1;
  total_clear_rows = 0;
  auto_fixed_rows = 0;
  pending_ai_rows = 0;
  pending_human_rows = 1;
  status = uploaded;
  force_requeue_count = 0;
}

abbrev item : QueueRow
item = record {
  id = 1;
  user_id = "ann";
  task_id = "TASK_1";
  scenario_type = "BANK_CLEARING";
  flow_id = "F1";
  error_type = "BANK_UNARRIVED";
  exception_branch = some "BC-R003";
  status = pending_human;
  risk_level = "MEDIUM";
  retry_count = 0;
}

abbrev db : Database
db = record {
  tasks = replace_task "ann" "TASK_1" upload [];
  queue = item ∷ [];
  ledger = [];
  reviews = [];
  next_id = 2;
}

abbrev decision : String → Decision
decision action = record {
  user_id = "ann";
  queue_id = 1;
  action = action;
  handler_username = "kim";
  remark = none;
}

none-IsUnique : IsUnique []
unfolding count_where
none-IsUnique user task = omega arith

db-Has : Has "ann" "TASK_1" (replace_task "ann" "TASK_1" upload []) (new_row "ann" "TASK_1" upload)
db-Has = Has-replace_task "ann" "TASK_1" [] none-IsUnique upload

db-IsNumbered : IsNumbered db
unfolding count_where
db-IsNumbered n = ground arith

db-IsCounted : IsCounted "ann" "TASK_1" db
unfolding human_rows open_rows count_where is_queued new_row
db-IsCounted = record {
  row = new_row "ann" "TASK_1" upload;
  has = db-Has;
  human = refl;
  unresolved = refl;
}

item-own : (r : QueueRow) → row_at 1 db ≡ some r → r.user_id ≡ "ann"
unfolding row_at select_first
item-own r e = ap (λ (q : QueueRow). q.user_id) (sym (some-injective _ _ e))

Reviewed-IsCounted_example :
    IsNumbered (approve true 5 (decision "APPROVED_MATCH") db).1
    × IsCounted "ann" "TASK_1" (approve true 5 (decision "APPROVED_MATCH") db).1
Reviewed-IsCounted_example =
    Reviewed-IsCounted "ann" "TASK_1" db db-IsNumbered db-IsCounted
      (next 5 (decision "APPROVED_MATCH") here item-own)

approved : (approve true 5 (decision "APPROVED_MATCH") db).0 ≡ current fixed
unfolding approve approve_via_checkpoint apply_checkpoint_decision load_review_context select_first
    get_task is_task new_row replace_task status_for_action delete_where
approved = refl

abbrev again : List (ℕ × Decision)
again = (9, decision "REJECTED") ∷ (11, decision "APPROVED_MATCH") ∷ []

decided_once_example :
    approve_all again (approve true 5 (decision "APPROVED_MATCH") db).1
    ≡ (current fixed ∷ current fixed ∷ [], (approve true 5 (decision "APPROVED_MATCH") db).1)
decided_once_example =
    decided_once 5 (decision "APPROVED_MATCH") db fixed again ((refl, refl), ((refl, refl), tt))
      item-own approved

-- Approved twice without checkpoints, the one item is taken off the counter twice.
below_zero :
    get_task "ann" "TASK_1"
      (approve false 6
        (decision "APPROVED_MATCH")
        (approve false 5 (decision "APPROVED_MATCH") db).1).1.tasks
    ≡ some (record (new_row "ann" "TASK_1" upload) {
      pending_human_rows = negsuc 0;
      unresolved_rows = negsuc 0;
    })
unfolding approve approve_plain load_review_context select_first get_task is_task new_row
    replace_task apply_review_core update_task update_where ◌-ℤ◌ delete_where
below_zero = refl

abbrev entry : LedgerEntry
entry = record {
  user_id = "ann";
  scenario_type = "BANK_CLEARING";
  row = record {
    task_id = "TASK_1";
    flow_id = "F1";
    error_type = "BANK_UNARRIVED";
    exception_branch = some "BC-R003";
    bank_amount = none;
    clear_amount = none;
    discrepancy_amount = cents (pos 0);
    ai_audit_opinion = some "r";
    ai_confidence = some 8800;
    rag_source = some "c1, c2";
    fallback_path = none;
    handle_status = "PENDING_HUMAN";
  };
  handler_username = none;
  handle_remark = none;
  handled_at = none;
}

-- Two items of one task, each with its row in the ledger.
abbrev two_items : Database
two_items = record db {
  queue = item ∷ record item { id = 2; flow_id = "F2" } ∷ [];
  ledger = entry ∷ record entry { row = record (entry.row) { flow_id = "F2" } } ∷ [];
}

abbrev no_serials : Serials
no_serials user task flow = (none, none)

abbrev after_review : Database
after_review = (approve true 5 (decision "APPROVED_MATCH") two_items).1

reviewed : approve true 5 (decision "APPROVED_MATCH") two_items ≡ (current fixed, after_review)
unfolding approve status_for_action select_first get_task replace_task delete_where is_task new_row
reviewed = refl

two_pending : (list_pending no_serials "ann" (some "TASK_1") 1 1 two_items).1 ≡ 2
unfolding list_pending is_entered
two_pending = refl

approve-listed_pages_example :
    listed_pages no_serials "ann" (some "TASK_1") 2 1 after_review
    ≡ keep (is_other 1) (listed_pages no_serials "ann" (some "TASK_1") 2 1 two_items)
unfolding count_where list_pending is_entered
approve-listed_pages_example =
    approve-listed_pages no_serials true 5 (decision "APPROVED_MATCH") two_items after_review fixed
      (some "TASK_1") 2 1 (omega arith) reviewed (omega arith)

-- The second item is left, on the first page.
one_left :
    map (λ (i : PendingItem). i.queue_id) (list_pending no_serials "ann" none 1 1 after_review).0
    ≡ 2 ∷ []
unfolding list_pending approve select_first get_task replace_task delete_where is_task new_row
    update_where status_for_action is_entered
one_left = refl
