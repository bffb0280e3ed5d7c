-- ===== src/Reconcile/Listing.antt =====
-- services/ledger.py: `LedgerService.list`. Its rows have the order of their ids, and no row shows what the
-- database rounds.
use bank_reconciliation_agen.Base.{
  ℕ, ◌≡◌, ◌≤◌, ◌*◌, ◌++◌, zero, suc, refl, Bool, true, ◌&&◌, String, Option, none, some, List, [],
  str_eq, keep, length, if◌then◌else◌,
}
use bank_reconciliation_agen.Base.Pages.{page_of, pages_upto, pages_upto-all}
use bank_reconciliation_agen.Reconcile.Store.{LedgerEntry}

-- `LedgerQuery`; its dates are not read.
pub record LedgerQuery : Type 0 where
  pub task_id : Option String
  pub error_type : Option String
  pub handle_status : Option String
  pub page : ℕ
  pub page_size : ℕ

-- A filter of a text that is given and not empty.
abbrev pub is_like : Option String → String → Bool
is_like none text = true
is_like (some wanted) text = if str_eq wanted "" then true else str_eq text wanted

-- `_build_filters`
unfoldable pub build_filters : String → LedgerQuery → LedgerEntry → Bool
build_filters user q e =
    str_eq e.user_id user
    && is_like q.task_id e.row.task_id
    && is_like q.error_type e.row.error_type
    && is_like q.handle_status e.row.handle_status

-- `list`: the rows of the page, and the total.
unfoldable pub list_ledger : String → LedgerQuery → List LedgerEntry → List LedgerEntry × ℕ
unfolding build_filters page_of
list_ledger user q ledger =
    let rows = keep (build_filters user q) ledger in (page_of q.page q.page_size rows, length rows)

-- The pages 1 to `n`, behind one another.
abbrev pub ledger_pages : String → LedgerQuery → ℕ → List LedgerEntry → List LedgerEntry
ledger_pages user q zero ledger = []
ledger_pages user q (suc n) ledger =
    ledger_pages user q n ledger ++ (list_ledger user (record q { page = suc n }) ledger).0

ledger_pages-pages_upto :
    (user : String) (q : LedgerQuery) (n : ℕ) (ledger : List LedgerEntry)
    → ledger_pages user q n ledger ≡ pages_upto n q.page_size (keep (build_filters user q) ledger)
unfolding list_ledger pages_upto
ledger_pages-pages_upto user q zero ledger = refl
ledger_pages-pages_upto user q (suc n) ledger = rw (ledger_pages-pages_upto user q n ledger) refl

-- The pages that hold the total are the rows of the user that the query asks for, each once and in order.
pub ledger_pages-all :
    (user : String) (q : LedgerQuery) (n : ℕ) (ledger : List LedgerEntry)
    → (list_ledger user q ledger).1 ≤ n * q.page_size
    → ledger_pages user q n ledger ≡ keep (build_filters user q) ledger
unfolding list_ledger
ledger_pages-all user q n ledger h =
    rw (ledger_pages-pages_upto user q n ledger)
      (pages_upto-all n q.page_size (keep (build_filters user q) ledger) h)
