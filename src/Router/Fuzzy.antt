-- ===== src/Router/Fuzzy.antt =====
-- `_apply_fuzzy_match`: single-sided results of the two sides that are each other's only candidate.
use bank_reconciliation_agen.Base.{
  ℕ, Bool, true, false, not, ◌&&◌, ◌||◌, String, Option, none, some, List, [], ◌∷◌, ◌==◌, str_eq,
  if◌then◌else◌, keep,
}
use bank_reconciliation_agen.Base.Text.{contains}
use bank_reconciliation_agen.Base.Dict.{Dict, get, mem}
use bank_reconciliation_agen.Amount.{Money, to_decimal, money_eq}
use bank_reconciliation_agen.Rules.{Action}
use bank_reconciliation_agen.Router.Rows.{
  Row, Calendar, normalize_summary, trade_date, bank_party_column, clear_party_column,
}
use bank_reconciliation_agen.Router.Candidate.{T1Candidate}

-- The dict of `_fuzzy_candidate`, before its amount and date are printed.
pub record FuzzyCandidate : Type 0 where
  pub flow_id : String
  pub amount : Money
  pub trade_date : Option ℕ
  pub counterparty : String

-- `BranchResult`
pub record BranchResult : Type 0 where
  pub flow_id : String
  pub action : Action
  pub error_type : Option String
  pub exception_branch : Option String
  pub bank_amount : Option Money
  pub clear_amount : Option Money
  pub amount_diff : Option Money
  pub t1_candidate : Option T1Candidate
  pub fuzzy_candidate : Option FuzzyCandidate

-- `error_type == name`
unfoldable pub has_error : String → BranchResult → Bool
has_error name r = elim r.error_type [ none ↦ false | some e ↦ str_eq e name ]

-- The flow_ids of the results with one error type, in the order of the results.
unfoldable pub ids_with_error : String → List BranchResult → List String
unfolding has_error
ids_with_error name [] = []
ids_with_error name (r ∷ results) =
    let rest = ids_with_error name results in if has_error name r then r.flow_id ∷ rest else rest

-- `==` of two values that may be None.
unfoldable pub same_option : Option ℕ → Option ℕ → Bool
same_option none none = true
same_option (some a) (some b) = a == b
same_option _ _ = false

-- The only element of a list.
unfoldable pub single : List String → Option String
single (x ∷ []) = some x
single _ = none

-- `results_by_flow_id[id] = results_by_flow_id[id]._replace(...)`, where the ids are distinct.
unfoldable pub replace_result : String → FuzzyCandidate → List BranchResult → List BranchResult
replace_result id c [] = []
replace_result id c (r ∷ results) =
    let rest = replace_result id c results in
    (if str_eq r.flow_id id
      then record r {
        error_type = some "FUZZY_MATCH_CANDIDATE";
        exception_branch = some "BE-R007";
        fuzzy_candidate = some c;
      }
      else r)
    ∷ rest

module _ (calendar : Calendar) (scenario_type : String) where
  -- `_is_fuzzy_match`
  unfoldable pub is_fuzzy_match : Row → Row → Bool
  unfolding normalize_summary bank_party_column clear_party_column money_eq to_decimal same_option
      trade_date contains
  is_fuzzy_match bank clear =
      let bank_party = normalize_summary (bank.cell (bank_party_column scenario_type)) in
      let clear_party = normalize_summary (clear.cell (clear_party_column scenario_type)) in
      money_eq (to_decimal bank.amount) (to_decimal clear.amount)
      && same_option (trade_date calendar bank) (trade_date calendar clear)
      && not (str_eq bank_party "")
      && not (str_eq clear_party "")
      && (contains bank_party clear_party || contains clear_party bank_party)

  -- `_fuzzy_candidate`
  unfoldable pub fuzzy_candidate_of : String → Row → FuzzyCandidate
  unfolding to_decimal trade_date normalize_summary
  fuzzy_candidate_of party_column row = record {
    flow_id = row.flow_id;
    amount = to_decimal row.amount;
    trade_date = trade_date calendar row;
    counterparty = normalize_summary (row.cell party_column);
  }

  unfoldable pub match_rows : Option Row → Option Row → Bool
  unfolding is_fuzzy_match
  match_rows (some bank) (some clear) = is_fuzzy_match bank clear
  match_rows _ _ = false

  unfoldable pub replace_both :
      String → String → Option Row → Option Row → List BranchResult → List BranchResult
  unfolding replace_result fuzzy_candidate_of bank_party_column clear_party_column
  replace_both bank_id clear_id (some bank) (some clear) results =
      replace_result clear_id (fuzzy_candidate_of (bank_party_column scenario_type) bank) (
        replace_result bank_id (fuzzy_candidate_of (clear_party_column scenario_type) clear)
          results)
  replace_both bank_id clear_id _ _ results = results

  module _ (banks clears : Dict Row) where
    -- The test of `_is_fuzzy_match` on two flow_ids. A single-sided result has its row, so the reads
    -- of the two dicts find one.
    unfoldable pub matched : String → String → Bool
    unfolding match_rows get
    matched bank_id clear_id = match_rows (get bank_id banks) (get clear_id clears)

    -- `candidates_by_bank[bank_id]`
    unfoldable pub candidates_by_bank : List String → String → List String
    unfolding matched
    candidates_by_bank clear_only bank_id = keep (λ clear_id. matched bank_id clear_id) clear_only

    -- `candidates_by_clear[clear_id]`
    unfoldable pub candidates_by_clear : List String → List String → String → List String
    unfolding candidates_by_bank mem
    candidates_by_clear bank_only clear_only clear_id =
        keep (λ bank_id. mem clear_id (candidates_by_bank clear_only bank_id)) bank_only

    -- The partner of a bank flow_id: its only candidate, if it is that one's only candidate.
    unfoldable pub partner : List String → List String → String → Option String
    partner bank_only clear_only bank_id = elim (single (candidates_by_bank clear_only bank_id)) [
      | none ↦ none
      | some clear_id ↦ elim (single (candidates_by_clear bank_only clear_only clear_id)) [
        | none ↦ none
        | some _ ↦ some clear_id
      ]
    ]

    -- One round of the loop over `candidates_by_bank.items()`.
    unfoldable pub pair_one :
        List String → List String → String → List BranchResult → List BranchResult
    pair_one bank_only clear_only bank_id results = elim (partner bank_only clear_only bank_id) [
      | none ↦ results
      | some clear_id ↦
          replace_both bank_id clear_id (get bank_id banks) (get clear_id clears) results
    ]

    unfoldable pub pair_all :
        List String → List String → List String → List BranchResult → List BranchResult
    pair_all bank_only clear_only [] results = results
    pair_all bank_only clear_only (bank_id ∷ ids) results =
        pair_all bank_only clear_only ids (pair_one bank_only clear_only bank_id results)

    -- `_apply_fuzzy_match`
    unfoldable pub apply_fuzzy_match : List BranchResult → List BranchResult
    apply_fuzzy_match results =
        let bank_only = ids_with_error "BOOK_UNRECORDED" results in
        let clear_only = ids_with_error "BANK_UNARRIVED" results in
        if str_eq scenario_type "BANK_ENTERPRISE"
        then pair_all bank_only clear_only bank_only results
        else results
