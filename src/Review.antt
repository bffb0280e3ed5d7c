-- ===== src/Review.antt =====
-- services/review.py and services/review_graph.py: a human decides an item of the queue. `now` is the
-- database's clock. The graph stops at its first node and is resumed with the action, which leads to
-- `apply_checkpoint_decision`; what it keeps of the stopped run is left out.
pub mod Decisions
pub mod Sequences
pub mod Once
pub mod Pending
pub mod Listing
mod Tests
use bank_reconciliation_agen.Base.{
  ℕ, ◌+◌, ◌-◌, ◌*◌, Bool, true, false, ◌&&◌, String, Option, none, some, List, [], ◌∷◌, ◌==◌,
  str_eq, if◌then◌else◌,
}
use bank_reconciliation_agen.Base.Int.{ℤ, pos, ◌-ℤ◌}
use bank_reconciliation_agen.Base.Table.{select_first, update_where, insert}
use bank_reconciliation_agen.Audit.{branch_profile}
use bank_reconciliation_agen.Tasks.{TaskRow, is_task, get_task, update_task}
use bank_reconciliation_agen.Reconcile.{ItemStatus, pending_human, fixed, held, QueueRow, or_empty}
use bank_reconciliation_agen.Reconcile.Store.{LedgerEntry, HumanReview, Database, is_entered}

-- The answer to a review: `current_status`, or the status code of an HTTPException.
pub data ReviewReply : Type 0 where
  current : ItemStatus → ReviewReply
  not_found forbidden conflict : ReviewReply

-- What a human sends.
pub record Decision : Type 0 where
  pub user_id : String
  pub queue_id : ℕ
  pub action : String
  pub handler_username : String
  pub remark : Option String

-- `_status_for_action`
unfoldable pub status_for_action : String → ItemStatus
status_for_action action = if str_eq action "APPROVED_MATCH" then fixed else held

-- The same status as a text of the ledger's column `handle_status`.
unfoldable pub handle_status_for : String → String
handle_status_for action = if str_eq action "APPROVED_MATCH" then "FIXED" else "HELD"

-- `_ai_suggestion`
unfoldable pub ai_suggestion : Option String → String
ai_suggestion branch = elim (branch_profile (or_empty branch)) [
  | none ↦ "PENDING_HUMAN"
  | some profile ↦ profile.ai_suggestion
]

-- `_is_terminal_queue_status`
abbrev pub is_terminal : ItemStatus → Bool
is_terminal pending_human = false
is_terminal _ = true

-- `_load_review_context` finds no row, or a task that is not the user's, or the two rows.
pub data Context : Type 0 where
  missing : Context
  denied : Context
  loaded : QueueRow → Option LedgerEntry → Context

-- The ledger's row of an item of the queue.
unfoldable pub is_entry : String → QueueRow → LedgerEntry → Bool
is_entry user r e = is_entered user r.task_id e && str_eq e.row.flow_id r.flow_id

-- `_load_review_context` with `auth_hook`
unfoldable pub load_review_context : String → ℕ → Database → Context
load_review_context user queue_id db =
    elim (select_first (λ (r : QueueRow). r.id == queue_id) db.queue) [
      | none ↦ missing
      | some r ↦ elim (get_task user r.task_id db.tasks) [
        | none ↦ denied
        | some _ ↦ loaded r (select_first (is_entry user r) db.ledger)
      ]
    ]

unfoldable pub review_of : Decision → QueueRow → Option LedgerEntry → HumanReview
review_of d r ledger_row = record {
  user_id = d.user_id;
  scenario_type = r.scenario_type;
  queue_id = d.queue_id;
  task_id = r.task_id;
  ai_suggestion = ai_suggestion r.exception_branch;
  ai_confidence = elim ledger_row [ none ↦ none | some e ↦ e.row.ai_confidence ];
  ai_reason = elim ledger_row [ none ↦ none | some e ↦ e.row.ai_audit_opinion ];
  ai_fallback_level = 0;
  action = d.action;
  handler_username = d.handler_username;
  remark = d.remark;
}

-- `_apply_review_core`
unfoldable pub apply_review_core :
    ℕ → Decision → QueueRow → Option LedgerEntry → Database → Database
unfolding review_of is_entry
apply_review_core now d r ledger_row db = record db {
  reviews = insert (review_of d r ledger_row ∷ []) db.reviews;
  ledger =
      update_where (is_entry d.user_id r)
        (λ (e : LedgerEntry). record e {
          row = record (e.row) { handle_status = handle_status_for d.action };
          handler_username = some d.handler_username;
          handle_remark = d.remark;
          handled_at = some now;
        })
        db.ledger;
  queue =
      update_where (λ (q : QueueRow). q.id == d.queue_id && str_eq q.user_id d.user_id)
        (λ (q : QueueRow). record q { status = status_for_action d.action }) db.queue;
  tasks =
      (update_task d.user_id r.task_id (λ q. true)
        (λ q. record q {
          pending_human_rows = q.pending_human_rows -ℤ pos 1;
          unresolved_rows = q.unresolved_rows -ℤ pos 1;
        })
        db.tasks).1;
}

-- `_approve_plain`
unfoldable pub approve_plain : ℕ → Decision → Database → ReviewReply × Database
unfolding apply_review_core load_review_context
approve_plain now d db = elim (load_review_context d.user_id d.queue_id db) [
  | missing ↦ (not_found, db)
  | denied ↦ (forbidden, db)
  | loaded r ledger_row ↦
      (current (status_for_action d.action), apply_review_core now d r ledger_row db)
]

-- `apply_checkpoint_decision`, of the task that the graph was started for.
unfoldable pub apply_checkpoint_decision : ℕ → String → Decision → Database → ReviewReply × Database
unfolding apply_review_core load_review_context
apply_checkpoint_decision now task d db = elim (load_review_context d.user_id d.queue_id db) [
  | missing ↦ (not_found, db)
  | denied ↦ (forbidden, db)
  | loaded r ledger_row ↦
      if str_eq r.task_id task
      then if is_terminal r.status
        then (current r.status, db)
        else (current (status_for_action d.action), apply_review_core now d r ledger_row db)
      else (conflict, db)
]

-- `_approve_via_checkpoint`
unfoldable pub approve_via_checkpoint : ℕ → Decision → Database → ReviewReply × Database
unfolding apply_checkpoint_decision load_review_context
approve_via_checkpoint now d db = elim (load_review_context d.user_id d.queue_id db) [
  | missing ↦ (not_found, db)
  | denied ↦ (forbidden, db)
  | loaded r ledger_row ↦
      if is_terminal r.status
      then (current r.status, db)
      else apply_checkpoint_decision now r.task_id d db
]

-- `approve`, with the setting `checkpoint_enabled`
unfoldable pub approve : Bool → ℕ → Decision → Database → ReviewReply × Database
unfolding approve_via_checkpoint approve_plain
approve checkpoint_enabled now d db =
    if checkpoint_enabled then approve_via_checkpoint now d db else approve_plain now d db
