-- ===== src/Review/Listing.antt =====
-- services/review.py: the list of pending items behind a review, page by page.
use bank_reconciliation_agen.Base.{
  ℕ, zero, suc, ◌*◌, ◌≤◌, ◌≡◌, ◌⊎◌, refl, sym, ap, subst, ◌∙◌, Bool, true, false, String, Option,
  some, List, [], ◌∷◌, ◌++◌, ◌==◌, str_eq, keep, length, if◌then◌else◌, Bool-cases, Option-cases,
  some-injective, inl, inr, arith,
}
use bank_reconciliation_agen.Base.Table.{select_first, count_where}
use bank_reconciliation_agen.Base.Pages.{pages_upto, pages_upto-all}
use bank_reconciliation_agen.Tasks.{get_task}
use bank_reconciliation_agen.Reconcile.{QueueRow, ItemStatus}
use bank_reconciliation_agen.Reconcile.Store.{Database, LedgerEntry}
use bank_reconciliation_agen.Review.{
  Decision, current, not_found, forbidden, conflict, Context, missing, denied, loaded, is_terminal,
  is_entry, load_review_context, apply_review_core, apply_checkpoint_decision,
  approve_via_checkpoint, approve_plain, approve,
}
use bank_reconciliation_agen.Review.Pending.{
  PendingItem, Serials, is_listed, is_other, joined, pending_items, list_pending, keep-append,
  keep-joined_other, pending_items-decided,
}

-- What a review that is answered with a status has done: it found the row decided, or wrote the decision.
abbrev HasDone : ℕ → Decision → Database → Database → Type 0
HasDone now d db u =
    ((u ≡ db)
      × ((r : QueueRow) × (select_first (λ (q : QueueRow). q.id == d.queue_id) db.queue ≡ some r)
          × (is_terminal r.status ≡ true)))
    ⊎ ((r : QueueRow) × (entry : Option LedgerEntry) × (u ≡ apply_review_core now d r entry db))

loaded_row :
    (user : String) (queue_id : ℕ) (db : Database) (r : QueueRow) (entry : Option LedgerEntry)
    → load_review_context user queue_id db ≡ loaded r entry
    → select_first (λ (q : QueueRow). q.id == queue_id) db.queue ≡ some r
unfolding load_review_context
loaded_row user queue_id db r entry e =
    elim (Option-cases (select_first (λ (q : QueueRow). q.id == queue_id) db.queue)) [
      | inl n ↦ absurd (let o : missing ≡ loaded r entry = rw (n, load_review_context) at e in cc)
      | inr (q, y) ↦ elim (Option-cases (get_task user q.task_id db.tasks)) [
        | inl n ↦
            absurd (let o : denied ≡ loaded r entry = rw (y, n, load_review_context) at e in cc)
        | inr (t, z) ↦
            let o : loaded q (select_first (is_entry user q) db.ledger) ≡ loaded r entry =
              rw (y, z, load_review_context) at e in
            y ∙ cc o
      ]
    ]

plain-HasDone :
    (now : ℕ) (d : Decision) (db u : Database) (s : ItemStatus) (c : Context)
    → load_review_context d.user_id d.queue_id db ≡ c
    → approve_plain now d db ≡ (current s, u)
    → HasDone now d db u
unfolding approve_plain
plain-HasDone now d db u s missing l e =
    absurd (
      let o : (not_found, db) ≡ (current s, u) = rw (l, approve_plain) at e in cc (ap (λ p. p.0) o))
plain-HasDone now d db u s denied l e =
    absurd (
      let o : (forbidden, db) ≡ (current s, u) = rw (l, approve_plain) at e in cc (ap (λ p. p.0) o))
plain-HasDone now d db u s (loaded r entry) l e =
    inr (r, entry, sym (ap (λ p. p.1) (rw (l, approve_plain) at e)))

decision-HasDone :
    (now : ℕ) (task : String) (d : Decision) (db u : Database) (s : ItemStatus) (c : Context)
    → load_review_context d.user_id d.queue_id db ≡ c
    → apply_checkpoint_decision now task d db ≡ (current s, u)
    → HasDone now d db u
unfolding apply_checkpoint_decision
decision-HasDone now task d db u s missing l e = absurd (
    let o : (not_found, db) ≡ (current s, u) = rw (l, apply_checkpoint_decision) at e in
    cc (ap (λ p. p.0) o))
decision-HasDone now task d db u s denied l e = absurd (
    let o : (forbidden, db) ≡ (current s, u) = rw (l, apply_checkpoint_decision) at e in
    cc (ap (λ p. p.0) o))
decision-HasDone now task d db u s (loaded r entry) l e =
    elim (Bool-cases (str_eq r.task_id task)) [
      | inl z ↦ elim (Bool-cases (is_terminal r.status)) [
        | inl y ↦ inl (
          sym (ap (λ p. p.1) (rw (l, z, y, apply_checkpoint_decision) at e)),
          (r, loaded_row d.user_id d.queue_id db r entry l, y),
        )
        | inr n ↦ inr (r, entry, sym (ap (λ p. p.1) (rw (l, z, n, apply_checkpoint_decision) at e)))
      ]
      | inr m ↦ absurd (
          let o : (conflict, db) ≡ (current s, u) = rw (l, m, apply_checkpoint_decision) at e in
          cc (ap (λ p. p.0) o))
    ]

checkpoint-HasDone :
    (now : ℕ) (d : Decision) (db u : Database) (s : ItemStatus) (c : Context)
    → load_review_context d.user_id d.queue_id db ≡ c
    → approve_via_checkpoint now d db ≡ (current s, u)
    → HasDone now d db u
unfolding approve_via_checkpoint
checkpoint-HasDone now d db u s missing l e = absurd (
    let o : (not_found, db) ≡ (current s, u) = rw (l, approve_via_checkpoint) at e in
    cc (ap (λ p. p.0) o))
checkpoint-HasDone now d db u s denied l e = absurd (
    let o : (forbidden, db) ≡ (current s, u) = rw (l, approve_via_checkpoint) at e in
    cc (ap (λ p. p.0) o))
checkpoint-HasDone now d db u s (loaded r entry) l e = elim (Bool-cases (is_terminal r.status)) [
  | inl y ↦ inl (
    sym (ap (λ p. p.1) (rw (l, y, approve_via_checkpoint) at e)),
    (r, loaded_row d.user_id d.queue_id db r entry l, y),
  )
  | inr n ↦
      decision-HasDone now r.task_id d db u s (loaded r entry) l
        (rw (l, n, approve_via_checkpoint) at e)
]

approve-HasDone :
    (checkpoint_enabled : Bool) (now : ℕ) (d : Decision) (db u : Database) (s : ItemStatus)
    → approve checkpoint_enabled now d db ≡ (current s, u)
    → HasDone now d db u
unfolding approve
approve-HasDone true now d db u s e = checkpoint-HasDone now d db u s _ refl e
approve-HasDone false now d db u s e = plain-HasDone now d db u s _ refl e

module _ (serials : Serials) (user : String) (task : Option String) (ledger : List LedgerEntry)
    (queue_id : ℕ) where
  abbrev with_id : QueueRow → Bool
  with_id q = q.id == queue_id

  keep-listed :
      (r : QueueRow)
      → with_id r ≡ false
      → keep (is_other queue_id) (if is_listed user task r then joined serials r ledger else [])
        ≡ (if is_listed user task r then joined serials r ledger else [])
  keep-listed r n = elim (Bool-cases (is_listed user task r)) [
    | inl y ↦ rw y (keep-joined_other serials queue_id r ledger n)
    | inr m ↦ rw m refl
  ]

  -- A queue_id that no row has.
  keep-absent :
      (queue : List QueueRow)
      → count_where with_id queue ≡ 0
      → keep (is_other queue_id) (pending_items serials user task ledger queue)
        ≡ pending_items serials user task ledger queue
  unfolding pending_items count_where
  keep-absent [] e = refl
  keep-absent (r ∷ queue) e = elim (Bool-cases (with_id r)) [
    | inl y ↦ absurd (let o : suc (count_where with_id queue) ≡ 0 = rw y at e in omega arith)
    | inr n ↦
        keep-append (is_other queue_id) _ (pending_items serials user task ledger queue)
        ∙ rw (keep-listed r n, keep-absent queue (rw n at e)) refl
  ]

  -- A queue_id whose one row is not listed.
  keep-closed :
      (queue : List QueueRow) (r : QueueRow)
      → select_first with_id queue ≡ some r
      → is_listed user task r ≡ false
      → count_where with_id queue ≤ 1
      → keep (is_other queue_id) (pending_items serials user task ledger queue)
        ≡ pending_items serials user task ledger queue
  unfolding pending_items count_where select_first
  keep-closed [] r e c h = refl
  keep-closed (q ∷ queue) r e c h = elim (Bool-cases (with_id q)) [
    | inl y ↦
        let same : q ≡ r = some-injective q r (rw y at e) in
        let shut : is_listed user task q ≡ false = rw same c in
        let less : suc (count_where with_id queue) ≤ 1 = rw y at h in
        rw shut (keep-absent queue (omega arith))
    | inr n ↦
        keep-append (is_other queue_id) _ (pending_items serials user task ledger queue)
        ∙ rw (keep-listed q n, keep-closed queue r (rw n at e) c (rw n at h)) refl
  ]

terminal_is_not_listed :
    (user : String) (task : Option String) (r : QueueRow)
    → is_terminal r.status ≡ true
    → is_listed user task r ≡ false
unfolding is_listed
terminal_is_not_listed user task r e = ground arith

-- The pages 1 to `n` of the list, behind one another.
abbrev pub listed_pages : Serials → String → Option String → ℕ → ℕ → Database → List PendingItem
listed_pages serials user task zero size db = []
listed_pages serials user task (suc n) size db =
    listed_pages serials user task n size db ++ (list_pending serials user task (suc n) size db).0

listed_pages-pages_upto :
    (serials : Serials) (user : String) (task : Option String) (n size : ℕ) (db : Database)
    → listed_pages serials user task n size db
      ≡ pages_upto n size (pending_items serials user task db.ledger db.queue)
unfolding list_pending pages_upto
listed_pages-pages_upto serials user task zero size db = refl
listed_pages-pages_upto serials user task (suc n) size db =
    rw (listed_pages-pages_upto serials user task n size db) refl

length-keep {ℓ} : {A : Type ℓ} (p : A → Bool) (xs : List A) → length (keep p xs) ≤ length xs
length-keep p [] = omega arith
length-keep p (x ∷ xs) = ground (arith, length-keep p xs)

items_behind :
    (serials : Serials) (now : ℕ) (d : Decision) (db u : Database) (task : Option String)
    → count_where (λ (q : QueueRow). q.id == d.queue_id) db.queue ≤ 1
    → HasDone now d db u
    → pending_items serials d.user_id task u.ledger u.queue
      ≡ keep (is_other d.queue_id) (pending_items serials d.user_id task db.ledger db.queue)
unfolding apply_review_core
items_behind serials now d db u task h (inl (same, (r, e, y))) =
    subst
      (λ (v : Database).
        pending_items serials d.user_id task v.ledger v.queue
        ≡ keep (is_other d.queue_id) (pending_items serials d.user_id task db.ledger db.queue))
      (sym same)
      (sym (
        keep-closed serials d.user_id task db.ledger d.queue_id db.queue r e
          (terminal_is_not_listed d.user_id task r y) h))
items_behind serials now d db u task h (inr (r, entry, same)) =
    subst
      (λ (v : Database).
        pending_items serials d.user_id task v.ledger v.queue
        ≡ keep (is_other d.queue_id) (pending_items serials d.user_id task db.ledger db.queue))
      (sym same)
      (pending_items-decided serials now d task (is_entry d.user_id r) db.ledger db.queue)

-- If at most one row of the queue has the id, a review that is answered with a status takes exactly this
-- item off the reviewer's list: the pages behind it are the pages before it without the item, for
-- every filter by task and every page size, once the pages hold the total.
pub approve-listed_pages :
    (serials : Serials) (checkpoint_enabled : Bool) (now : ℕ) (d : Decision) (db u : Database)
    (s : ItemStatus) (task : Option String) (n size : ℕ)
    → count_where (λ (q : QueueRow). q.id == d.queue_id) db.queue ≤ 1
    → approve checkpoint_enabled now d db ≡ (current s, u)
    → (list_pending serials d.user_id task 1 size db).1 ≤ n * size
    → listed_pages serials d.user_id task n size u
      ≡ keep (is_other d.queue_id) (listed_pages serials d.user_id task n size db)
unfolding list_pending
approve-listed_pages serials checkpoint_enabled now d db u s task n size h e total =
    let items = pending_items serials d.user_id task db.ledger db.queue in
    let left =
      items_behind serials now d db u task h (approve-HasDone checkpoint_enabled now d db u s e) in
    rw
      (
        listed_pages-pages_upto serials d.user_id task n size u,
        listed_pages-pages_upto serials d.user_id task n size db,
        pages_upto-all n size items total,
        left,
      )
      (pages_upto-all n size (keep (is_other d.queue_id) items)
        (omega (arith, length-keep (is_other d.queue_id) items, total)))
