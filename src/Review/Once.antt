-- ===== src/Review/Once.antt =====
-- Further reviews of an item, with checkpoints.
use bank_reconciliation_agen.Base.{
  List, [], ◌∷◌, map, All, ℕ, ◌≡◌, refl, ◌∙◌, ap, true, inl, inr, String, Option, some, ◌==◌, arith,
  str_eq, eq_iff, Option-cases, is_some,
}
use bank_reconciliation_agen.Base.Int.{pos, ◌-ℤ◌}
use bank_reconciliation_agen.Base.Table.{select_first-update}
use bank_reconciliation_agen.Tasks.{TaskRow, is_task, get_task, update_task}
use bank_reconciliation_agen.Reconcile.{ItemStatus, QueueRow}
use bank_reconciliation_agen.Reconcile.Store.{Database, LedgerEntry}
use bank_reconciliation_agen.Review.{
  ReviewReply, current, Decision, status_for_action, is_terminal, load_review_context,
  apply_review_core, approve_via_checkpoint, approve,
}
use bank_reconciliation_agen.Review.Decisions.{row_at}
use bank_reconciliation_agen.Review.Sequences.{
  IsReviewed, refused, already, decided, approve-IsReviewed,
}

-- The row that a decision has been applied to.
row_at-applied :
    (now : ℕ) (d : Decision) (db : Database) (r : QueueRow) (l : Option LedgerEntry)
    → row_at d.queue_id db ≡ some r
    → r.user_id ≡ d.user_id
    → row_at d.queue_id (apply_review_core now d r l db)
      ≡ some (record r { status = status_for_action d.action })
unfolding row_at apply_review_core
row_at-applied now d db r l found own = ground (
  arith,
  found,
  (eq_iff r.user_id d.user_id).1 own,
  select_first-update (λ (q : QueueRow). q.id == d.queue_id)
      (λ (q : QueueRow). str_eq q.user_id d.user_id)
      (λ (q : QueueRow). record q { status = status_for_action d.action }) (λ q. refl) db.queue,
)

get_task-applied :
    (now : ℕ) (d : Decision) (db : Database) (r : QueueRow) (l : Option LedgerEntry) (t : TaskRow)
    → get_task d.user_id r.task_id db.tasks ≡ some t
    → is_some (get_task d.user_id r.task_id (apply_review_core now d r l db).tasks) ≡ true
unfolding get_task apply_review_core update_task is_task
get_task-applied now d db r l t there = ground (
  arith,
  there,
  select_first-update (is_task d.user_id r.task_id) (λ q. true)
      (λ q. record q {
        pending_human_rows = q.pending_human_rows -ℤ pos 1;
        unresolved_rows = q.unresolved_rows -ℤ pos 1;
      })
      (λ q. refl) db.tasks,
)

-- A review of an item that is decided changes nothing, and shows how it was decided.
approve-already :
    (later : ℕ) (d : Decision) (db : Database) (r : QueueRow)
    → row_at d.queue_id db ≡ some r
    → is_some (get_task d.user_id r.task_id db.tasks) ≡ true
    → is_terminal r.status ≡ true
    → approve true later d db ≡ (current r.status, db)
unfolding row_at load_review_context approve
approve-already later d db r found there terminal =
    elim (Option-cases (get_task d.user_id r.task_id db.tasks)) [
      | inl e ↦ absurd (ground arith)
      | inr (t, e) ↦
          rw (approve, approve_via_checkpoint, load_review_context, found, e, terminal) refl
    ]

terminal_for : (action : String) → is_terminal (status_for_action action) ≡ true
unfolding status_for_action
terminal_for action = ground arith

decided_once_by :
    (now later : ℕ) (d again : Decision) (db : Database) (s : ItemStatus)
    {o : ReviewReply × Database}
    → again.user_id ≡ d.user_id
    → again.queue_id ≡ d.queue_id
    → ((r : QueueRow) → row_at d.queue_id db ≡ some r → r.user_id ≡ d.user_id)
    → IsReviewed now d db o
    → o.0 ≡ current s
    → approve true later again o.1 ≡ (current s, o.1)
decided_once_by now later d again db s same_user same_id own (refused reply e) shown =
    absurd (ground arith)
decided_once_by now later d again db s same_user same_id own (already r t found there terminal)
      shown =
    approve-already later again db r (rw same_id found) (rw (same_user, there) refl) terminal
    ∙ ap (λ reply. (reply, db)) shown
decided_once_by now later d again db s same_user same_id own (decided r t l found there waiting)
      shown =
    let after = apply_review_core now d r l db in
    approve-already later again after (record r { status = status_for_action d.action })
      (rw same_id (row_at-applied now d db r l found (own r found)))
      (rw same_user (get_task-applied now d db r l t there)) (terminal_for d.action)
    ∙ ap (λ reply. (reply, after)) shown

-- Reviews one after the other: what each shows, and the tables behind them.
abbrev pub approve_all : List (ℕ × Decision) → Database → List ReviewReply × Database
approve_all [] db = ([], db)
approve_all ((now, d) ∷ reviews) db =
    let (reply, after) = approve true now d db in
    let (replies, last) = approve_all reviews after in (reply ∷ replies, last)

approve_all-same :
    (user : String) (id : ℕ) (s : ItemStatus) (db : Database) (reviews : List (ℕ × Decision))
    → ((later : ℕ) (again : Decision)
        → again.user_id ≡ user
        → again.queue_id ≡ id
        → approve true later again db ≡ (current s, db))
    → All (λ a. (a.1.user_id ≡ user) × (a.1.queue_id ≡ id)) reviews
    → approve_all reviews db ≡ (map (λ a. current s) reviews, db)
approve_all-same user id s db [] one same = refl
approve_all-same user id s db ((now, d) ∷ reviews) one same =
    rw (one now d same.0.0 same.0.1, approve_all-same user id s db reviews one same.1) refl

-- With checkpoints a user's own row is decided once: where a review of it by the user shows a status, all the
-- reviews by the user that follow at once, with whatever actions, show the same status and change nothing.
pub decided_once :
    (now : ℕ) (d : Decision) (db : Database) (s : ItemStatus) (reviews : List (ℕ × Decision))
    → All (λ a. (a.1.user_id ≡ d.user_id) × (a.1.queue_id ≡ d.queue_id)) reviews
    → ((r : QueueRow) → row_at d.queue_id db ≡ some r → r.user_id ≡ d.user_id)
    → (approve true now d db).0 ≡ current s
    → approve_all reviews (approve true now d db).1
      ≡ (map (λ a. current s) reviews, (approve true now d db).1)
decided_once now d db s reviews same own shown =
    approve_all-same d.user_id d.queue_id s (approve true now d db).1 reviews
      (λ later again same_user same_id.
        decided_once_by now later d again db s same_user same_id own (approve-IsReviewed now d db)
          shown)
      same
