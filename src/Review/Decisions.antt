-- ===== src/Review/Decisions.antt =====
-- Reviews with checkpoints: what a decision changes, and that it is taken once.
use bank_reconciliation_agen.Base.{
  ℕ, ◌+◌, ◌≤◌, ◌≡◌, refl, ◌∙◌, ap, Bool, true, false, ◌&&◌, String, Option, some, ◌==◌,
  if◌then◌else◌, arith, str_eq, eq_iff,
}
use bank_reconciliation_agen.Base.Int.{pos, ◌-ℤ◌}
use bank_reconciliation_agen.Base.Table.{
  select_first, count_where, count_where-update, count_where-update_one,
}
use bank_reconciliation_agen.Tasks.{is_task}
use bank_reconciliation_agen.Tasks.Rows.{Has-update_task}
use bank_reconciliation_agen.Tasks.Refinement.{update_task-IsChange}
use bank_reconciliation_agen.Reconcile.{ItemStatus, pending_human, fixed, held, QueueRow}
use bank_reconciliation_agen.Reconcile.Store.{Database, LedgerEntry, is_queued}
use bank_reconciliation_agen.Reconcile.Counts.{
  waits, is_open, human_rows, open_rows, IsCounted, IsNumbered,
}
use bank_reconciliation_agen.Review.{Decision, status_for_action, apply_review_core}

-- The row of the queue that a number finds.
unfoldable pub row_at : ℕ → Database → Option QueueRow
row_at n db = select_first (λ (r : QueueRow). r.id == n) db.queue

numbered-single :
    (db : Database) (n : ℕ) → IsNumbered db → count_where (λ (r : QueueRow). r.id == n) db.queue ≤ 1
numbered-single db n numbered = ground (arith, numbered n)

one_less : (before after : ℕ) → after + 1 ≡ before → (pos before -ℤ pos 1) ≡ pos after
unfolding ◌-ℤ◌
one_less before after e = ground arith

status-off :
    (p : ItemStatus → Bool) (action : String)
    → p fixed ≡ false
    → p held ≡ false
    → p (status_for_action action) ≡ false
unfolding status_for_action
status-off p action off_fixed off_held = ground arith

module _ (now : ℕ) (d : Decision) (db : Database) (r : QueueRow) (l : Option LedgerEntry)
    (numbered : IsNumbered db) (found : row_at d.queue_id db ≡ some r) (own : r.user_id ≡ d.user_id)
    (waiting : r.status ≡ pending_human) where
  pub apply-IsNumbered : IsNumbered (apply_review_core now d r l db)
  unfolding apply_review_core
  apply-IsNumbered n = ground (
    arith,
    numbered n,
    count_where-update (λ (q : QueueRow). q.id == d.queue_id && str_eq q.user_id d.user_id)
        (λ (q : QueueRow). q.id == n)
        (λ (q : QueueRow). record q { status = status_for_action d.action }) (λ q. refl) db.queue,
  )

  -- A count of the rows with a status, of one task, after the decision.
  counted_after :
      (p : ItemStatus → Bool) (user task : String)
      → p pending_human ≡ true
      → p fixed ≡ false
      → p held ≡ false
      → count_where
            (λ (q : QueueRow). is_queued user task q && p q.status)
            (apply_review_core now d r l db).queue
          + (if str_eq d.user_id user && str_eq r.task_id task then 1 else 0)
        ≡ count_where (λ (q : QueueRow). is_queued user task q && p q.status) db.queue
  unfolding apply_review_core row_at is_queued
  counted_after p user task on off_fixed off_held =
      let step =
        count_where-update_one (λ (q : QueueRow). q.id == d.queue_id)
          (λ (q : QueueRow). str_eq q.user_id d.user_id)
          (λ (q : QueueRow). is_queued user task q && p q.status)
          (λ (q : QueueRow). record q { status = status_for_action d.action }) r db.queue
          (numbered-single db d.queue_id numbered) found ((eq_iff r.user_id d.user_id).1 own) in
      let off = status-off p d.action off_fixed off_held in
      let on_r : p r.status ≡ true = rw waiting on in
      let mine : (str_eq r.user_id user && str_eq r.task_id task)
          ≡ (str_eq d.user_id user && str_eq r.task_id task) =
        rw own refl in
      ground (arith, step, off, on_r, mine)

  -- The task of the item.
  pub apply-IsCounted_own :
      IsCounted d.user_id r.task_id db
      → IsCounted d.user_id r.task_id (apply_review_core now d r l db)
  unfolding apply_review_core is_task human_rows open_rows
  apply-IsCounted_own c =
      let humans = counted_after waits d.user_id r.task_id refl refl refl in
      let opens = counted_after is_open d.user_id r.task_id refl refl refl in
      record {
        row = record (c.row) {
          pending_human_rows = c.row.pending_human_rows -ℤ pos 1;
          unresolved_rows = c.row.unresolved_rows -ℤ pos 1;
        };
        has =
            (Has-update_task d.user_id r.task_id db.tasks c.row c.has (λ q. true) _
              (λ other that q. refl) refl).1;
        human = rw c.human (
            one_less _ _
              (ground (arith, humans, eq_iff d.user_id d.user_id, eq_iff r.task_id r.task_id)));
        unresolved = rw c.unresolved (
            one_less _ _
              (ground (arith, opens, eq_iff d.user_id d.user_id, eq_iff r.task_id r.task_id)));
      }

  -- Another task.
  pub apply-IsCounted_other :
      (user task : String)
      → (str_eq d.user_id user && str_eq r.task_id task) ≡ false
      → IsCounted user task db
      → IsCounted user task (apply_review_core now d r l db)
  unfolding apply_review_core is_task human_rows open_rows
  apply-IsCounted_other user task apart c =
      let humans = counted_after waits user task refl refl refl in
      let opens = counted_after is_open user task refl refl refl in
      let change =
        update_task-IsChange d.user_id r.task_id db.tasks c.has.unique (λ q. true)
          (λ q. record q {
            pending_human_rows = q.pending_human_rows -ℤ pos 1;
            unresolved_rows = q.unresolved_rows -ℤ pos 1;
          })
          (λ other that q. refl) in
      record {
        row = c.row;
        has = record {
          unique = change.unique;
          found = change.others user task apart ∙ c.has.found;
        };
        human = c.human ∙ ap pos (ground (arith, humans));
        unresolved = c.unresolved ∙ ap pos (ground (arith, opens));
      }
