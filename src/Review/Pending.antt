-- ===== src/Review/Pending.antt =====
-- services/review.py: `list_pending`. The queue's rows have the order of their ids, as they do while the
-- database's clock does not go back; the serial numbers of the two transactions of an item are arguments.
use bank_reconciliation_agen.Base.{
  ℕ, ◌≡◌, refl, Bool, true, false, not, ◌&&◌, String, Option, none, some, List, [], ◌∷◌, ◌++◌, ◌==◌,
  str_eq, keep, length, if◌then◌else◌, Bool-cases, inl, inr, arith,
}
use bank_reconciliation_agen.Base.Table.{update_where}
use bank_reconciliation_agen.Base.Pages.{page_of}
use bank_reconciliation_agen.Amount.{Money}
use bank_reconciliation_agen.Reconcile.{QueueRow, pending_human, ItemStatus}
use bank_reconciliation_agen.Reconcile.Sources.{rag_sources}
use bank_reconciliation_agen.Reconcile.Store.{Database, LedgerEntry, is_entered}
use bank_reconciliation_agen.Review.{
  Decision, is_entry, ai_suggestion, status_for_action, handle_status_for,
}

pub record PendingItem : Type 0 where
  pub queue_id : ℕ
  pub error_type : String
  pub exception_branch : Option String
  pub risk_level : String
  pub ai_suggestion : String
  pub ai_confidence : Option ℕ
  pub ai_reason : Option String
  pub rag_sources : List String
  pub task_id : String
  pub flow_id : String
  pub bank_serial_no : Option String
  pub clearing_serial_no : Option String
  pub bank_amount : Option Money
  pub clear_amount : Option Money
  pub discrepancy_amount : Money

-- The serial numbers that the outer joins find for the user, the task and the flow.
abbrev pub Serials : Type 0
Serials = String → String → String → Option String × Option String

abbrev pub awaits_human : ItemStatus → Bool
awaits_human pending_human = true
awaits_human s = false

abbrev pub is_chosen : Option String → String → Bool
is_chosen none task = true
is_chosen (some t) task = if str_eq t "" then true else str_eq task t

-- The filters of `list_pending`.
unfoldable pub is_listed : String → Option String → QueueRow → Bool
is_listed user task r = str_eq r.user_id user && awaits_human r.status && is_chosen task r.task_id

-- `_to_pending_item` of a joined row.
unfoldable pub to_pending_item : Serials → QueueRow → LedgerEntry → PendingItem
to_pending_item serials r e = record {
  queue_id = r.id;
  error_type = r.error_type;
  exception_branch = r.exception_branch;
  risk_level = r.risk_level;
  ai_suggestion = ai_suggestion r.exception_branch;
  ai_confidence = e.row.ai_confidence;
  ai_reason = e.row.ai_audit_opinion;
  rag_sources = rag_sources e.row.rag_source;
  task_id = r.task_id;
  flow_id = r.flow_id;
  bank_serial_no = (serials r.user_id r.task_id r.flow_id).0;
  clearing_serial_no = (serials r.user_id r.task_id r.flow_id).1;
  bank_amount = e.row.bank_amount;
  clear_amount = e.row.clear_amount;
  discrepancy_amount = e.row.discrepancy_amount;
}

-- The join of a row of the queue with the ledger.
unfoldable pub joined : Serials → QueueRow → List LedgerEntry → List PendingItem
unfolding is_entry to_pending_item
joined serials r [] = []
joined serials r (e ∷ ledger) =
    let rest = joined serials r ledger in
    if is_entry r.user_id r e then to_pending_item serials r e ∷ rest else rest

-- The rows of the statement, before `offset` and `limit`.
unfoldable pub pending_items :
    Serials → String → Option String → List LedgerEntry → List QueueRow → List PendingItem
unfolding is_listed joined
pending_items serials user task ledger [] = []
pending_items serials user task ledger (r ∷ queue) =
    (if is_listed user task r then joined serials r ledger else [])
    ++ pending_items serials user task ledger queue

-- `list_pending`: the items of the page, and the total.
unfoldable pub list_pending :
    Serials → String → Option String → ℕ → ℕ → Database → List PendingItem × ℕ
unfolding pending_items page_of
list_pending serials user task page page_size db =
    let items = pending_items serials user task db.ledger db.queue in
    (page_of page page_size items, length items)

-- The items of other rows of the queue.
abbrev pub is_other : ℕ → PendingItem → Bool
is_other queue_id i = not (i.queue_id == queue_id)

pub keep-append {ℓ} :
    {A : Type ℓ} (p : A → Bool) (xs ys : List A) → keep p (xs ++ ys) ≡ keep p xs ++ keep p ys
keep-append p [] ys = refl
keep-append p (x ∷ xs) ys = elim (Bool-cases (p x)) [
  | inl y ↦ rw (y, keep-append p xs ys) refl
  | inr n ↦ rw (n, keep-append p xs ys) refl
]

module _ (serials : Serials) (queue_id : ℕ) where
  pub keep-joined_other :
      (r : QueueRow) (ledger : List LedgerEntry)
      → (r.id == queue_id) ≡ false
      → keep (is_other queue_id) (joined serials r ledger) ≡ joined serials r ledger
  unfolding joined to_pending_item
  keep-joined_other r [] n = refl
  keep-joined_other r (e ∷ ledger) n = elim (Bool-cases (is_entry r.user_id r e)) [
    | inl y ↦ rw (y, n, keep-joined_other r ledger n) refl
    | inr m ↦ rw m (keep-joined_other r ledger n)
  ]

  keep-joined_same :
      (r : QueueRow) (ledger : List LedgerEntry)
      → (r.id == queue_id) ≡ true
      → keep (is_other queue_id) (joined serials r ledger) ≡ []
  unfolding joined to_pending_item
  keep-joined_same r [] y = refl
  keep-joined_same r (e ∷ ledger) y = elim (Bool-cases (is_entry r.user_id r e)) [
    | inl z ↦ rw (z, y) (keep-joined_same r ledger y)
    | inr m ↦ rw m (keep-joined_same r ledger y)
  ]

-- What a review writes into the ledger.
abbrev pub handled : ℕ → Decision → LedgerEntry → LedgerEntry
handled now d e = record e {
  row = record (e.row) { handle_status = handle_status_for d.action };
  handler_username = some d.handler_username;
  handle_remark = d.remark;
  handled_at = some now;
}

joined-handled :
    (serials : Serials) (now : ℕ) (d : Decision) (p : LedgerEntry → Bool) (r : QueueRow)
    (ledger : List LedgerEntry)
    → joined serials r (update_where p (handled now d) ledger) ≡ joined serials r ledger
unfolding joined is_entry is_entered to_pending_item update_where
joined-handled serials now d p r [] = refl
joined-handled serials now d p r (e ∷ ledger) = elim (Bool-cases (p e)) [
  | inl y ↦ rw (y, joined-handled serials now d p r ledger) refl
  | inr n ↦ rw (n, joined-handled serials now d p r ledger) refl
]

-- What it writes into the queue.
abbrev pub decided_row : Decision → QueueRow → QueueRow
decided_row d q = record q { status = status_for_action d.action }

decided_is_not_listed :
    (user : String) (task : Option String) (d : Decision) (r : QueueRow)
    → is_listed user task (decided_row d r) ≡ false
unfolding is_listed status_for_action
decided_is_not_listed user task d r = ground arith

abbrev pub is_row : Decision → QueueRow → Bool
is_row d q = q.id == d.queue_id && str_eq q.user_id d.user_id

listed_is_other :
    (d : Decision) (task : Option String) (r : QueueRow)
    → is_row d r ≡ false
    → is_listed d.user_id task r ≡ true
    → (r.id == d.queue_id) ≡ false
unfolding is_listed
listed_is_other d task r n y = ground arith

row_is_same : (d : Decision) (r : QueueRow) → is_row d r ≡ true → (r.id == d.queue_id) ≡ true
row_is_same d r y = ground arith

pub pending_items-decided :
    (serials : Serials) (now : ℕ) (d : Decision) (task : Option String) (p : LedgerEntry → Bool)
    (ledger : List LedgerEntry) (queue : List QueueRow)
    → pending_items serials d.user_id task
        (update_where p (handled now d) ledger)
        (update_where (is_row d) (decided_row d) queue)
      ≡ keep (is_other d.queue_id) (pending_items serials d.user_id task ledger queue)
unfolding pending_items update_where
pending_items-decided serials now d task p ledger [] = refl
pending_items-decided serials now d task p ledger (r ∷ queue) = elim (Bool-cases (is_row d r)) [
  | inl y ↦ elim (Bool-cases (is_listed d.user_id task r)) [
    | inl z ↦
        rw
          (
            y,
            decided_is_not_listed d.user_id task d r,
            z,
            keep-append (is_other d.queue_id) (joined serials r ledger)
                (pending_items serials d.user_id task ledger queue),
            keep-joined_same serials d.queue_id r ledger (row_is_same d r y),
          )
          (pending_items-decided serials now d task p ledger queue)
    | inr m ↦
        rw (y, decided_is_not_listed d.user_id task d r, m)
          (pending_items-decided serials now d task p ledger queue)
  ]
  | inr n ↦ elim (Bool-cases (is_listed d.user_id task r)) [
    | inl z ↦
        rw
          (
            n,
            z,
            keep-append (is_other d.queue_id) (joined serials r ledger)
                (pending_items serials d.user_id task ledger queue),
            keep-joined_other serials d.queue_id r ledger (listed_is_other d task r n z),
            joined-handled serials now d p r ledger,
            pending_items-decided serials now d task p ledger queue,
          )
          refl
    | inr m ↦ rw (n, m) (pending_items-decided serials now d task p ledger queue)
  ]
]
