-- ===== src/Reconcile.antt =====
-- services/reconciliation/input.py and the rows of `_write_queue_entries` in
-- services/reconciliation/service.py: what the router's results become.
pub mod Batch
pub mod Coverage
pub mod Store
pub mod Listing
pub mod Views
pub mod Counts
pub mod Sources
mod Tests
use bank_reconciliation_agen.Base.{
  ℕ, ◌+◌, Bool, true, false, String, Option, none, some, List, [], ◌∷◌, map, str_eq, if◌then◌else◌,
}
use bank_reconciliation_agen.Amount.{Money}
use bank_reconciliation_agen.Rules.{Action, auto_fix, exception}
use bank_reconciliation_agen.Router.{classify}
use bank_reconciliation_agen.Router.Rows.{Row, Calendar}
use bank_reconciliation_agen.Router.Candidate.{T1Candidate}
use bank_reconciliation_agen.Router.Fuzzy.{BranchResult, FuzzyCandidate, has_error}

-- The values of the column `status` of an item, in a result and in the queue.
pub data ItemStatus : Type 0 where
  auto_fixed pending_ai pending_human fixed held : ItemStatus

-- `ReconciliationMatchResult`
pub record MatchResult : Type 0 where
  pub flow_id : String
  pub status : ItemStatus
  pub error_type : Option String
  pub exception_branch : Option String
  pub bank_amount : Option Money
  pub clear_amount : Option Money
  pub amount_diff : Option Money
  pub t1_candidate : Option T1Candidate
  pub fuzzy_candidate : Option FuzzyCandidate

-- The `status` of `to_match_result`.
unfoldable pub status_of : BranchResult → ItemStatus
unfolding has_error
status_of r =
    if has_error "FUZZY_MATCH_CANDIDATE" r
    then pending_ai
    else elim r.action [ auto_fix ↦ auto_fixed | exception ↦ pending_human ]

-- `to_match_result`
unfoldable pub to_match_result : BranchResult → MatchResult
to_match_result r = record {
  flow_id = r.flow_id;
  status = status_of r;
  error_type = r.error_type;
  exception_branch = r.exception_branch;
  bank_amount = r.bank_amount;
  clear_amount = r.clear_amount;
  amount_diff = r.amount_diff;
  t1_candidate = r.t1_candidate;
  fuzzy_candidate = r.fuzzy_candidate;
}

-- `build_match_results`; none is the error of a `cutoff_window` setting that is no window.
unfoldable pub build_match_results :
    Calendar → String → String → List Row → List Row → Option (List MatchResult)
build_match_results calendar scenario_type setting bank_rows clear_rows =
    elim (classify calendar scenario_type setting bank_rows clear_rows) [
      | none ↦ none
      | some results ↦ some (map to_match_result results)
    ]

-- `result.status == "AUTO_FIXED"`, and the same of the other two.
abbrev pub is_fixed : MatchResult → Bool
is_fixed r = elim r.status [ auto_fixed ↦ true | _ ↦ false ]

abbrev pub is_for_ai : MatchResult → Bool
is_for_ai r = elim r.status [ pending_ai ↦ true | _ ↦ false ]

abbrev pub is_for_human : MatchResult → Bool
is_for_human r = elim r.status [ pending_human ↦ true | _ ↦ false ]

-- `sum(test(result) for result in results)`
unfoldable pub count : (MatchResult → Bool) → List MatchResult → ℕ
count test [] = 0
count test (r ∷ results) = (if test r then 1 else 0) + count test results

-- `ReconciliationMatchSummary`
pub record MatchSummary : Type 0 where
  pub auto_fixed_rows : ℕ
  pub pending_ai_rows : ℕ
  pub pending_human_rows : ℕ

-- `summarize_match_results`
unfoldable pub summarize_match_results : List MatchResult → MatchSummary
summarize_match_results results = record {
  auto_fixed_rows = count is_fixed results;
  pending_ai_rows = count is_for_ai results;
  pending_human_rows = count is_for_human results;
}

-- A row of `t_reconciliation_queue`, as the code sets it. The database gives the `id`; the numbers of
-- the two transactions are always null.
pub record QueueRow : Type 0 where
  pub id : ℕ
  pub user_id : String
  pub task_id : String
  pub scenario_type : String
  pub flow_id : String
  pub error_type : String
  pub exception_branch : Option String
  pub status : ItemStatus
  pub risk_level : String
  pub retry_count : ℕ

abbrev pub or_empty : Option String → String
or_empty none = ""
or_empty (some s) = s

-- The dict that `_write_queue_entries` makes of a result, with the user and the scenario that
-- `QueueService.replace_task_rows` adds, and the `id` that the database gives it.
unfoldable pub queue_row : ℕ → String → String → String → MatchResult → QueueRow
queue_row id user task scenario_type r = record {
  id = id;
  user_id = user;
  task_id = task;
  scenario_type = scenario_type;
  flow_id = r.flow_id;
  error_type = or_empty r.error_type;
  exception_branch = r.exception_branch;
  status = r.status;
  risk_level = "MEDIUM";
  retry_count = 0;
}

-- `_write_queue_entries`: `id` is the first of the numbers that the database gives.
unfoldable pub queue_entries : ℕ → String → String → String → List MatchResult → List QueueRow
queue_entries id user task scenario_type [] = []
queue_entries id user task scenario_type (r ∷ results) =
    let rest = queue_entries (if is_fixed r then id else id + 1) user task scenario_type results in
    if is_fixed r then rest else queue_row id user task scenario_type r ∷ rest
