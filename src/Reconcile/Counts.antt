-- ===== src/Reconcile/Counts.antt =====
-- The counters of a task against the rows of its queue.
use bank_reconciliation_agen.Base.{
  ℕ, ◌+◌, ◌≤◌, ◌≡◌, refl, Bool, true, false, ◌&&◌, String, List, [], ◌∷◌, ltb, leb, ◌==◌,
  if◌then◌else◌, arith, length, eq_iff,
}
use bank_reconciliation_agen.Base.Int.{pos}
use bank_reconciliation_agen.Base.Table.{
  count_where, delete_where, count_where-append, count_where-deleted_part, count_where-delete,
}
use bank_reconciliation_agen.Tasks.{TaskRow}
use bank_reconciliation_agen.Tasks.Rows.{Has}
use bank_reconciliation_agen.Reconcile.{
  ItemStatus, pending_ai, pending_human, MatchResult, is_fixed, is_for_ai, is_for_human, count,
  QueueRow, queue_row, queue_entries,
}
use bank_reconciliation_agen.Reconcile.Store.{Database, is_queued, replace_queue}

abbrev pub waits : ItemStatus → Bool
waits pending_human = true
waits _ = false

abbrev pub is_open : ItemStatus → Bool
is_open pending_ai = true
is_open pending_human = true
is_open _ = false

-- The rows of a task that wait for a human, and those that are not resolved.
unfoldable pub human_rows : String → String → List QueueRow → ℕ
human_rows user task queue =
    count_where (λ (r : QueueRow). is_queued user task r && waits r.status) queue

unfoldable pub open_rows : String → String → List QueueRow → ℕ
open_rows user task queue =
    count_where (λ (r : QueueRow). is_queued user task r && is_open r.status) queue

-- The task's row counts the rows of its queue.
pub record IsCounted (user task : String) (db : Database) : Type 0 where
  pub row : TaskRow
  pub has : Has user task db.tasks row
  pub human : row.pending_human_rows ≡ pos (human_rows user task db.queue)
  pub unresolved : row.unresolved_rows ≡ pos (open_rows user task db.queue)

-- No two rows of the queue have one `id`, and each is below the next.
abbrev pub IsNumbered : Database → Type 0
IsNumbered db =
    (n : ℕ)
    → count_where (λ (r : QueueRow). r.id == n) db.queue ≤ (if ltb n db.next_id then 1 else 0)

human_rows-entries :
    (id : ℕ) (user task scenario_type : String) (results : List MatchResult)
    → human_rows user task (queue_entries id user task scenario_type results)
      ≡ count is_for_human results
unfolding human_rows queue_entries queue_row count_where count is_queued
human_rows-entries id user task scenario_type [] = refl
human_rows-entries id user task scenario_type (r ∷ results) = ground (
  arith,
  eq_iff user user,
  eq_iff task task,
  human_rows-entries (if is_fixed r then id else id + 1) user task scenario_type results,
)

open_rows-entries :
    (id : ℕ) (user task scenario_type : String) (results : List MatchResult)
    → open_rows user task (queue_entries id user task scenario_type results)
      ≡ count is_for_ai results + count is_for_human results
unfolding open_rows queue_entries queue_row count_where count is_queued
open_rows-entries id user task scenario_type [] = refl
open_rows-entries id user task scenario_type (r ∷ results) = ground (
  arith,
  eq_iff user user,
  eq_iff task task,
  open_rows-entries (if is_fixed r then id else id + 1) user task scenario_type results,
)

numbers-entries :
    (id : ℕ) (user task scenario_type : String) (results : List MatchResult) (n : ℕ)
    → count_where (λ (r : QueueRow). r.id == n) (queue_entries id user task scenario_type results)
      ≤ (if leb id n && ltb n (id + length (queue_entries id user task scenario_type results))
          then 1
          else 0)
unfolding queue_entries queue_row count_where
numbers-entries id user task scenario_type [] n = ground arith
numbers-entries id user task scenario_type (r ∷ results) n =
    ground
      (arith, numbers-entries (if is_fixed r then id else id + 1) user task scenario_type results n)

module _ (user task scenario_type : String) (id : ℕ) (results : List MatchResult)
    (queue : List QueueRow) where
  pub human_rows-replace_queue :
      human_rows user task
        (replace_queue user task (queue_entries id user task scenario_type results) queue)
      ≡ count is_for_human results
  unfolding human_rows replace_queue
  human_rows-replace_queue =
      let p : QueueRow → Bool = λ (r : QueueRow). is_queued user task r && waits r.status in
      omega (
        arith,
        count_where-append p (delete_where (is_queued user task) queue)
            (queue_entries id user task scenario_type results),
        count_where-deleted_part (is_queued user task) p (λ r e. ground arith) queue,
        human_rows-entries id user task scenario_type results,
      )

  pub open_rows-replace_queue :
      open_rows user task
        (replace_queue user task (queue_entries id user task scenario_type results) queue)
      ≡ count is_for_ai results + count is_for_human results
  unfolding open_rows replace_queue
  open_rows-replace_queue =
      let p : QueueRow → Bool = λ (r : QueueRow). is_queued user task r && is_open r.status in
      omega (
        arith,
        count_where-append p (delete_where (is_queued user task) queue)
            (queue_entries id user task scenario_type results),
        count_where-deleted_part (is_queued user task) p (λ r e. ground arith) queue,
        open_rows-entries id user task scenario_type results,
      )

  pub numbers-replace_queue :
      ((n : ℕ) → count_where (λ (r : QueueRow). r.id == n) queue ≤ (if ltb n id then 1 else 0))
      → (n : ℕ)
      → count_where
          (λ (r : QueueRow). r.id == n)
          (replace_queue user task (queue_entries id user task scenario_type results) queue)
        ≤ (if ltb n (id + length (queue_entries id user task scenario_type results)) then 1 else 0)
  unfolding replace_queue
  numbers-replace_queue numbered n =
      let p : QueueRow → Bool = λ (r : QueueRow). r.id == n in
      let entries = queue_entries id user task scenario_type results in
      ground (
        arith,
        numbered n,
        count_where-append p (delete_where (is_queued user task) queue) entries,
        count_where-delete (is_queued user task) p queue,
        numbers-entries id user task scenario_type results n,
      )
