-- ===== src/Router.antt =====
-- services/exception_router.py: `ExceptionRouter.classify`. Its helpers are the modules below.
pub mod Rows
pub mod Candidate
pub mod Clock
pub mod Duplicates
pub mod Facts
pub mod Fuzzy
pub mod Outcomes
pub mod Core
pub mod Safety
pub mod Pairs
mod Tests
use bank_reconciliation_agen.Base.{
  Bool, ◌&&◌, ◌||◌, String, Option, none, some, List, [], ◌∷◌, ◌++◌, str_eq, if◌then◌else◌, is_some,
  all,
}
use bank_reconciliation_agen.Base.Dict.{Dict, get, keys, mem, sorted_set}
use bank_reconciliation_agen.Amount.{Money, money_sub, fits_context}
use bank_reconciliation_agen.Rules.{RuleMatch, evaluate}
use bank_reconciliation_agen.Rules.Files.{rules_for}
use Rows.{Row, Calendar, rows_by_flow_id, amount_from_row, bank_party_column, clear_party_column}
use Candidate.{T1Candidate, find_t1_candidate}
use Clock.{in_cutoff_window}
use Duplicates.{duplicate_flow_ids}
use Facts.{facts_of}
use Fuzzy.{BranchResult, apply_fuzzy_match}

-- `_amount_diff`
unfoldable pub amount_diff : Option Money → Option Money → Option Money
unfolding money_sub
amount_diff (some a) (some b) = some (money_sub a b)
amount_diff _ _ = none

-- `facts["in_cutoff_window"]`: `some none` in the enterprise scenario, `none` for a ValueError.
unfoldable pub cutoff_fact : String → String → Option Row → Option (Option Bool)
cutoff_fact scenario_type setting clear =
    if str_eq scenario_type "BANK_CLEARING"
    then elim (in_cutoff_window setting clear) [ none ↦ none | some b ↦ some (some b) ]
    else some none

is_branch : String → Option String → Bool
is_branch name branch = elim branch [ none ↦ Bool.false | some b ↦ str_eq b name ]

-- `bank_duplicates` and `clear_duplicates`, which are only searched together.
unfoldable pub all_duplicates : String → List Row → List Row → List String
unfolding duplicate_flow_ids bank_party_column clear_party_column
all_duplicates scenario_type bank_rows clear_rows =
    duplicate_flow_ids (bank_party_column scenario_type) bank_rows
    ++ duplicate_flow_ids (clear_party_column scenario_type) clear_rows

unfoldable pub push : Option BranchResult → Option (List BranchResult) → Option (List BranchResult)
push (some r) (some results) = some (r ∷ results)
push _ _ = none

module _ (calendar : Calendar) (scenario_type setting : String) where
  -- The block that sets `t1_candidate`.
  unfoldable pub t1_for : RuleMatch → Option Row → List Row → Option T1Candidate
  unfolding find_t1_candidate is_branch
  t1_for m none bank_rows = none
  t1_for m (some clear) bank_rows =
      if str_eq scenario_type "BANK_CLEARING" && is_branch "BC-R003" m.exception_branch
      then find_t1_candidate calendar clear bank_rows
      else none

  result_for : List Row → String → Option Row → Option Row → RuleMatch → BranchResult
  result_for bank_rows flow_id bank clear m = record {
    flow_id = flow_id;
    action = m.action;
    error_type = m.error_type;
    exception_branch = m.exception_branch;
    bank_amount = amount_from_row bank;
    clear_amount = amount_from_row clear;
    amount_diff = amount_diff (amount_from_row bank) (amount_from_row clear);
    t1_candidate = t1_for m clear bank_rows;
    fuzzy_candidate = none;
  }

  -- One round of the loop of `classify`.
  unfoldable pub classify_one :
      List Row → String → Option Row → Option Row → Bool → Option BranchResult
  unfolding cutoff_fact result_for
  classify_one bank_rows flow_id bank clear duplicate =
      elim (cutoff_fact scenario_type setting clear) [
        | none ↦ none
        | some in_cutoff ↦ some (
            result_for bank_rows flow_id bank clear
              (evaluate (rules_for scenario_type) (facts_of bank clear duplicate in_cutoff)))
      ]

  unfoldable pub classify_all :
      List Row → Dict Row → Dict Row → List String → List String → Option (List BranchResult)
  unfolding classify_one push get mem
  classify_all bank_rows banks clears duplicates [] = some []
  classify_all bank_rows banks clears duplicates (flow_id ∷ ids) =
      push
        (classify_one bank_rows flow_id (get flow_id banks) (get flow_id clears)
          (mem flow_id duplicates))
        (classify_all bank_rows banks clears duplicates ids)

  -- `classify`; `none` is the ValueError of a `cutoff_window` setting that is no window, or the
  -- InvalidOperation of `_to_decimal`, which the search of duplicates calls on the amount of every row first.
  unfoldable pub classify : List Row → List Row → Option (List BranchResult)
  unfolding classify_all apply_fuzzy_match rows_by_flow_id all_duplicates sorted_set keys
      fits_context
  classify bank_rows clear_rows =
      let banks = rows_by_flow_id bank_rows in
      let clears = rows_by_flow_id clear_rows in
      let outcome : Option (List BranchResult) =
        elim (classify_all bank_rows banks clears
          (all_duplicates scenario_type bank_rows clear_rows)
          (sorted_set (keys banks ++ keys clears))) [
            | none ↦ none
            | some results ↦ some (apply_fuzzy_match calendar scenario_type banks clears results)
          ] in
      if all (λ (row : Row). fits_context row.amount) (bank_rows ++ clear_rows)
      then outcome
      else none
