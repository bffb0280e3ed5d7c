-- ===== src/Reconcile/Views.antt =====
-- services/reconciliation/service.py: `get_status` and `get_exceptions`. The printing of amounts and the
-- search of the evidence, which may raise, are arguments; confidences are counted in ten-thousandths.
use bank_reconciliation_agen.Base.{
  ℕ, ◌≤◌, ◌≡◌, ◌++◌, refl, ap, Bool, false, String, Option, none, some, List, [], ◌∷◌, map, All,
  str_eq, keep, length, if◌then◌else◌, eq_iff, length-map, arith,
}
use bank_reconciliation_agen.Base.Int.{ℤ}
use bank_reconciliation_agen.Base.Table.{delete_where}
use bank_reconciliation_agen.Base.Pages.{page_of, pages_upto, pages_upto-all}
use bank_reconciliation_agen.Amount.{Money}
use bank_reconciliation_agen.Tasks.{TaskRow, TaskStatus, get_task}
use bank_reconciliation_agen.Reconcile.Batch.{LedgerRow}
use bank_reconciliation_agen.Reconcile.Sources.{rag_sources}
use bank_reconciliation_agen.Reconcile.Store.{LedgerEntry, is_entered, to_entry, replace_ledger}
use bank_reconciliation_agen.Reconcile.Listing.{LedgerQuery, build_filters, list_ledger}

pub record StatusResponse : Type 0 where
  pub task_id : String
  pub status : TaskStatus
  pub auto_fixed_rows : ℕ
  pub pending_ai_rows : ℕ
  pub ai_processed_rows : ℕ
  pub pending_human_rows : ℤ
  pub unresolved_rows : ℤ

-- `get_status`: none is the answer 404.
unfoldable pub get_status : String → String → List TaskRow → Option StatusResponse
unfolding get_task
get_status user task tasks = elim (get_task user task tasks) [
  | none ↦ none
  | some t ↦ some (record {
    task_id = task;
    status = t.status;
    auto_fixed_rows = t.auto_fixed_rows;
    pending_ai_rows = t.pending_ai_rows;
    ai_processed_rows = t.ai_processed_rows;
    pending_human_rows = t.pending_human_rows;
    unresolved_rows = t.unresolved_rows;
  })
]

-- `ReconciliationExceptionItem`, with the fields of its `audit_decision` that are set, each after its name.
pub record ExceptionItem (E : Type 0) : Type 0 where
  pub flow_id : String
  pub status : String
  pub error_type : String
  pub exception_branch : Option String
  pub bank_amount : Option String
  pub clear_amount : Option String
  pub amount_diff : String
  pub rag_evidence : List E
  pub decision : String
  pub risk_level : String
  pub reason : String
  pub confidence : ℕ

-- What `get_exceptions` ends with.
pub data ExceptionList (E : Type 0) : Type 0 where
  task_not_found : ExceptionList E
  raised : ExceptionList E
  exceptions : String → ℕ → List (ExceptionItem E) → ExceptionList E

-- The query of the first 10000 rows of a task.
abbrev pub task_query : String → LedgerQuery
task_query task = record {
  task_id = some task;
  error_type = none;
  handle_status = none;
  page = 1;
  page_size = 10000;
}

module _ {E : Type 0} (format : Money → String)
    (get_by_chunk_ids : List String → String → Option (List E)) where
  -- `evidence_from_rag_source`
  unfoldable pub evidence_from_rag_source : Option String → String → Option (List E)
  unfolding rag_sources
  evidence_from_rag_source none scenario_type = some []
  evidence_from_rag_source (some s) scenario_type =
      if str_eq s "" then some [] else get_by_chunk_ids (rag_sources (some s)) scenario_type

  -- The item of a row, with its evidence.
  abbrev pub exception_item : LedgerRow → List E → ExceptionItem E
  exception_item row evidence = record {
    flow_id = row.flow_id;
    status = "PENDING_HUMAN";
    error_type = row.error_type;
    exception_branch = row.exception_branch;
    bank_amount = elim row.bank_amount [ none ↦ none | some a ↦ some (format a) ];
    clear_amount = elim row.clear_amount [ none ↦ none | some a ↦ some (format a) ];
    amount_diff = format row.discrepancy_amount;
    rag_evidence = evidence;
    decision = row.handle_status;
    risk_level = "MEDIUM";
    reason = elim row.ai_audit_opinion [ none ↦ "" | some s ↦ s ];
    confidence = elim row.ai_confidence [ none ↦ 0 | some c ↦ c ];
  }

  abbrev pub cons_exception :
      LedgerRow
      → Option (List E)
      → Option (List (ExceptionItem E))
      → Option (List (ExceptionItem E))
  cons_exception row none items = none
  cons_exception row (some evidence) none = none
  cons_exception row (some evidence) (some items) = some (exception_item row evidence ∷ items)

  -- The items of the rows, or none where the evidence of a row raises.
  unfoldable pub exception_items : String → List LedgerRow → Option (List (ExceptionItem E))
  unfolding evidence_from_rag_source
  exception_items scenario_type [] = some []
  exception_items scenario_type (row ∷ rows) =
      cons_exception row (evidence_from_rag_source row.rag_source scenario_type)
        (exception_items scenario_type rows)

  abbrev pub listed : String → Option (List (ExceptionItem E)) → ExceptionList E
  listed task none = raised
  listed task (some items) = exceptions task (length items) items

  abbrev pub exceptions_of : String → String → List LedgerEntry → Option TaskRow → ExceptionList E
  exceptions_of user task ledger none = task_not_found
  exceptions_of user task ledger (some t) = listed task (
      exception_items t.scenario_type
        (map (λ (e : LedgerEntry). e.row) (list_ledger user (task_query task) ledger).0))

  -- `get_exceptions`
  unfoldable pub get_exceptions :
      String → String → List TaskRow → List LedgerEntry → ExceptionList E
  unfolding get_task
  get_exceptions user task tasks ledger = exceptions_of user task ledger (get_task user task tasks)

take-all_rows : {A : Type 0} (n : ℕ) (xs : List A) → length xs ≤ n → page_of 1 n xs ≡ xs
unfolding page_of pages_upto
take-all_rows n xs h = pages_upto-all 1 n xs (omega arith)

build_filters-task :
    (user task : String) (e : LedgerEntry)
    → str_eq task "" ≡ false
    → build_filters user (task_query task) e ≡ is_entered user task e
unfolding build_filters is_entered
build_filters-task user task e filled = rw filled (ground arith)

keep-deleted :
    (user task : String) (ledger : List LedgerEntry)
    → str_eq task "" ≡ false
    → keep (build_filters user (task_query task)) (delete_where (is_entered user task) ledger) ≡ []
unfolding delete_where
keep-deleted user task [] filled = refl
keep-deleted user task (e ∷ ledger) filled =
    ground (arith, build_filters-task user task e filled, keep-deleted user task ledger filled)

keep-inserted :
    (user task scenario_type : String) (rows : List LedgerRow)
    → str_eq task "" ≡ false
    → All (λ r. r.task_id ≡ task) rows
    → keep (build_filters user (task_query task)) (map (to_entry user scenario_type) rows)
      ≡ map (to_entry user scenario_type) rows
unfolding to_entry is_entered
keep-inserted user task scenario_type [] filled t = refl
keep-inserted user task scenario_type (r ∷ rows) filled t =
    let e = build_filters-task user task (to_entry user scenario_type r) filled in
    let same_user = (eq_iff user user).1 refl in
    let same_task = (eq_iff task task).1 refl in
    rw (e, t.0, same_user, same_task, keep-inserted user task scenario_type rows filled t.1) refl

keep-append :
    {A : Type 0} (p : A → Bool) (xs ys : List A) → keep p (xs ++ ys) ≡ keep p xs ++ keep p ys
keep-append p [] ys = refl
keep-append p (x ∷ xs) ys = ground (arith, keep-append p xs ys)

keep-replaced :
    (user task scenario_type : String) (rows : List LedgerRow) (ledger : List LedgerEntry)
    → str_eq task "" ≡ false
    → All (λ r. r.task_id ≡ task) rows
    → keep
        (build_filters user (task_query task))
        (replace_ledger user task scenario_type rows ledger)
      ≡ map (to_entry user scenario_type) rows
unfolding replace_ledger
keep-replaced user task scenario_type rows ledger filled own =
    rw
      (
        keep-append (build_filters user (task_query task))
            (delete_where (is_entered user task) ledger) (map (to_entry user scenario_type) rows),
        keep-deleted user task ledger filled,
        keep-inserted user task scenario_type rows filled own,
      )
      refl

map-row :
    (user scenario_type : String) (rows : List LedgerRow)
    → map (λ (e : LedgerEntry). e.row) (map (to_entry user scenario_type) rows) ≡ rows
unfolding to_entry
map-row user scenario_type [] = refl
map-row user scenario_type (r ∷ rows) = ap (λ rs. r ∷ rs) (map-row user scenario_type rows)

-- What a batch has written is what is listed: behind the replacement of the ledger's rows of a task that the
-- user has, by at most 10000 rows of this task, `get_exceptions` lists them all, in their order, with the
-- evidence of the task's scenario, or raises as the search of the evidence of one of them does.
pub get_exceptions-replace_ledger :
    {E : Type 0} (format : Money → String) (find : List String → String → Option (List E))
    (user task scenario_type : String) (t : TaskRow) (tasks : List TaskRow) (rows : List LedgerRow)
    (ledger : List LedgerEntry)
    → get_task user task tasks ≡ some t
    → str_eq task "" ≡ false
    → All (λ r. r.task_id ≡ task) rows
    → length rows ≤ 10000
    → get_exceptions format find user task tasks
        (replace_ledger user task scenario_type rows ledger)
      ≡ listed format find task (exception_items format find t.scenario_type rows)
unfolding get_exceptions list_ledger
get_exceptions-replace_ledger format find user task scenario_type t tasks rows ledger found filled
      own few =
    let kept = keep-replaced user task scenario_type rows ledger filled own in
    let new = map (to_entry user scenario_type) rows in
    let short : length new ≤ 10000 = rw (length-map (to_entry user scenario_type) rows) few in
    rw (found, kept, take-all_rows 10000 new short, map-row user scenario_type rows) refl
