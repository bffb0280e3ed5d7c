-- ===== src/Review/Sequences.antt =====
-- Reviews one after the other.
use bank_reconciliation_agen.Base.{
  ℕ, ◌≡◌, refl, Bool, true, false, ◌&&◌, inl, inr, String, Option, none, some, arith, str_eq,
  eq_iff, Bool-cases, Option-cases,
}
use bank_reconciliation_agen.Base.Table.{select_first}
use bank_reconciliation_agen.Tasks.{TaskRow, get_task}
use bank_reconciliation_agen.Reconcile.{
  ItemStatus, auto_fixed, pending_ai, pending_human, fixed, held, QueueRow,
}
use bank_reconciliation_agen.Reconcile.Store.{Database, LedgerEntry}
use bank_reconciliation_agen.Reconcile.Counts.{IsCounted, IsNumbered}
use bank_reconciliation_agen.Review.{
  ReviewReply, current, not_found, forbidden, Decision, status_for_action, is_terminal, Context,
  missing, denied, loaded, load_review_context, is_entry, apply_review_core,
  apply_checkpoint_decision, approve_via_checkpoint, approve,
}
use bank_reconciliation_agen.Review.Decisions.{
  row_at, apply-IsNumbered, apply-IsCounted_own, apply-IsCounted_other,
}

open_status : (s : ItemStatus) → is_terminal s ≡ false → s ≡ pending_human
open_status auto_fixed e = cc
open_status pending_ai e = cc
open_status pending_human e = refl
open_status fixed e = cc
open_status held e = cc

-- What `_load_review_context` finds.
data Found (d : Decision) (db : Database) : Context → Type 0 where
  nothing : row_at d.queue_id db ≡ none → Found d db missing
  foreign :
      (r : QueueRow)
      → row_at d.queue_id db ≡ some r
      → get_task d.user_id r.task_id db.tasks ≡ none
      → Found d db denied
  item :
      (r : QueueRow) (t : TaskRow)
      → row_at d.queue_id db ≡ some r
      → get_task d.user_id r.task_id db.tasks ≡ some t
      → Found d db (loaded r (select_first (is_entry d.user_id r) db.ledger))

load_review_context-Found :
    (d : Decision) (db : Database) → Found d db (load_review_context d.user_id d.queue_id db)
unfolding load_review_context row_at
load_review_context-Found d db = elim (Option-cases (row_at d.queue_id db)) [
  | inl e ↦ rw (load_review_context, e) (nothing e)
  | inr (r, e) ↦ elim (Option-cases (get_task d.user_id r.task_id db.tasks)) [
    | inl n ↦ rw (load_review_context, e, n) (foreign r e n)
    | inr (t, n) ↦ rw (load_review_context, e, n) (item r t e n)
  ]
]

abbrev pub is_current : ReviewReply → Bool
is_current (current s) = true
is_current _ = false

-- A review with checkpoints by what the number finds: the row with its status.
pub data IsReviewed (now : ℕ) (d : Decision) (db : Database) : ReviewReply × Database → Type 0 where
  refused : (reply : ReviewReply) → is_current reply ≡ false → IsReviewed now d db (reply, db)
  already :
      (r : QueueRow) (t : TaskRow)
      → row_at d.queue_id db ≡ some r
      → get_task d.user_id r.task_id db.tasks ≡ some t
      → is_terminal r.status ≡ true
      → IsReviewed now d db (current r.status, db)
  decided :
      (r : QueueRow) (t : TaskRow) (l : Option LedgerEntry)
      → row_at d.queue_id db ≡ some r
      → get_task d.user_id r.task_id db.tasks ≡ some t
      → r.status ≡ pending_human
      → IsReviewed now d db (current (status_for_action d.action), apply_review_core now d r l db)

checkpoint-waiting :
    (now : ℕ) (d : Decision) (db : Database) (r : QueueRow) (l : Option LedgerEntry)
    → load_review_context d.user_id d.queue_id db ≡ loaded r l
    → is_terminal r.status ≡ false
    → apply_checkpoint_decision now r.task_id d db
      ≡ (current (status_for_action d.action), apply_review_core now d r l db)
unfolding apply_checkpoint_decision
checkpoint-waiting now d db r l e n =
    rw (apply_checkpoint_decision, e, (eq_iff r.task_id r.task_id).1 refl, n) refl

pub approve-IsReviewed :
    (now : ℕ) (d : Decision) (db : Database) → IsReviewed now d db (approve true now d db)
unfolding approve approve_via_checkpoint apply_checkpoint_decision
approve-IsReviewed now d db =
    by_context (load_review_context d.user_id d.queue_id db) (load_review_context-Found d db) refl
  where
    by_context :
        (c : Context)
        → Found d db c
        → load_review_context d.user_id d.queue_id db ≡ c
        → IsReviewed now d db (approve true now d db)
    by_context missing f e = rw (approve_via_checkpoint, e) (refused not_found refl)
    by_context denied f e = rw (approve_via_checkpoint, e) (refused forbidden refl)
    by_context (loaded q l) (item r t found there) e = elim (Bool-cases (is_terminal r.status)) [
      | inl n ↦ rw (approve_via_checkpoint, e, n) (already r t found there n)
      | inr n ↦
          rw (approve_via_checkpoint, e, n, checkpoint-waiting now d db r l e n)
            (decided r t l found there (open_status r.status n))
    ]

-- Reviews by users of rows that are theirs, in any order and number.
pub data Reviewed (db : Database) : Database → Type 0 where
  here : Reviewed db db
  next :
      {e : Database} (now : ℕ) (d : Decision)
      → Reviewed db e
      → ((r : QueueRow) → row_at d.queue_id e ≡ some r → r.user_id ≡ d.user_id)
      → Reviewed db (approve true now d e).1

apply-IsCounted :
    (now : ℕ) (d : Decision) (db : Database) (r : QueueRow) (l : Option LedgerEntry)
    (user task : String)
    → IsNumbered db
    → row_at d.queue_id db ≡ some r
    → r.user_id ≡ d.user_id
    → r.status ≡ pending_human
    → IsCounted user task db
    → IsCounted user task (apply_review_core now d r l db)
apply-IsCounted now d db r l user task numbered found own waiting c =
    elim (Bool-cases (str_eq d.user_id user && str_eq r.task_id task)) [
      | inl e ↦
          let u : d.user_id ≡ user = ground (arith, eq_iff d.user_id user) in
          let t : r.task_id ≡ task = ground (arith, eq_iff r.task_id task) in
          rw (← u, ← t) (apply-IsCounted_own now d db r l numbered found own waiting (rw (u, t) c))
      | inr e ↦ apply-IsCounted_other now d db r l numbered found own waiting user task e c
    ]

approve-IsCounted :
    (now : ℕ) (d : Decision) (db : Database) (user task : String) {o : ReviewReply × Database}
    → IsReviewed now d db o
    → ((r : QueueRow) → row_at d.queue_id db ≡ some r → r.user_id ≡ d.user_id)
    → IsNumbered db
    → IsCounted user task db
    → IsNumbered o.1 × IsCounted user task o.1
approve-IsCounted now d db user task (refused reply e) own numbered c = (numbered, c)
approve-IsCounted now d db user task (already r t found there e) own numbered c = (numbered, c)
approve-IsCounted now d db user task (decided r t l found there waiting) own numbered c = (
  apply-IsNumbered now d db r l numbered found (own r found) waiting,
  apply-IsCounted now d db r l user task numbered found (own r found) waiting c,
)

-- Where the counters of a task agree with its queue and the numbers of the queue are apart, both still
-- hold after any sequence of reviews with checkpoints by users of rows that are theirs, of this task
-- or of others, decided already or not.
pub Reviewed-IsCounted :
    (user task : String) (db : Database) {e : Database}
    → IsNumbered db
    → IsCounted user task db
    → Reviewed db e
    → IsNumbered e × IsCounted user task e
Reviewed-IsCounted user task db numbered c here = (numbered, c)
Reviewed-IsCounted user task db numbered c (next {e} now d before own) =
    let (n, k) = Reviewed-IsCounted user task db numbered c before in
    approve-IsCounted now d e user task (approve-IsReviewed now d e) own n k
