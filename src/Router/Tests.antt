-- ===== src/Router/Tests.antt =====
-- The router on concrete rows, and its theorems at concrete inputs.
use bank_reconciliation_agen.Base.{
  ℕ, ◌≡◌, ◌↔◌, ◌||◌, refl, if◌then◌else◌, true, false, some, none, String, List, [], ◌∷◌, All,
  str_eq,
}
use bank_reconciliation_agen.Base.Int.{pos}
use bank_reconciliation_agen.Base.Dict.{get, mem, put}
use bank_reconciliation_agen.Base.TextOrder.{IsAscending}
use bank_reconciliation_agen.Base.Text.{strip}
use bank_reconciliation_agen.Router.Duplicates.{add_to_group}
use bank_reconciliation_agen.Amount.{cents}
use bank_reconciliation_agen.Rules.{auto_fix, exception, evaluate}
use bank_reconciliation_agen.Rules.Files.{rules_for}
use bank_reconciliation_agen.Router.{classify, all_duplicates}
use bank_reconciliation_agen.Router.Rows.{
  to_optional_string, Cell, empty, words, day, Row, Calendar, rows_by_flow_id,
}
use bank_reconciliation_agen.Router.Clock.{
  split_once, both, parse_clock_time, clock, parse_int, in_cutoff_window, parse_cutoff_window,
  parse_trade_time,
}
use bank_reconciliation_agen.Router.Clock.Window.{OnArc, in_cutoff_window-OnArc}
use bank_reconciliation_agen.Router.Facts.{facts_of}
use bank_reconciliation_agen.Router.Fuzzy.{
  pair_all, pair_one, partner, single, candidates_by_bank, candidates_by_clear, replace_both,
  BranchResult, FuzzyCandidate, ids_with_error, apply_fuzzy_match,
}
use bank_reconciliation_agen.Router.Core.{flow_ids, ids_of, classify_covers}
use bank_reconciliation_agen.Router.Safety.{IsReconciled, auto_fix-IsReconciled}
use bank_reconciliation_agen.Router.Pairs.{IsPaired, candidates_mutual}

abbrev calendar : Calendar
calendar = record { iso_datetime = λ s. none; iso_date = λ s. none }

abbrev cells : String → String → ℕ → String → Cell
cells party summary date column = elim (str_eq column "trade_date") [
  | true ↦ day date "2026-01-05"
  | false ↦ elim (str_eq column "summary") [ true ↦ words summary | false ↦ words party ]
]

abbrev row_of : String → ℕ → ℕ → Row
row_of id amount date = record {
  flow_id = id;
  amount = some (record { coefficient = pos amount; places = 2 });
  cell = cells "ACME" "invoice" date;
}

abbrev bank_rows : List Row
bank_rows = row_of "F1" 1000 5 ∷ row_of "F2" 2500 6 ∷ []

abbrev clear_rows : List Row
clear_rows = row_of "F1" 1000 5 ∷ row_of "F3" 2500 6 ∷ []

abbrev results : List BranchResult
results = elim (classify calendar "BANK_ENTERPRISE" "22:00-02:00" bank_rows clear_rows) [
  | none ↦ []
  | some rs ↦ rs
]

classified : classify calendar "BANK_ENTERPRISE" "22:00-02:00" bank_rows clear_rows ≡ some results
unfolding classify put pair_all ids_with_error evaluate rules_for facts_of add_to_group strip
    pair_one partner single candidates_by_bank candidates_by_clear replace_both
classified = refl

classified_ids : flow_ids results ≡ "F1" ∷ "F2" ∷ "F3" ∷ []
unfolding flow_ids classify put pair_all ids_with_error evaluate rules_for facts_of add_to_group
    strip pair_one partner single candidates_by_bank candidates_by_clear replace_both
classified_ids = refl

classify_covers_example :
    IsAscending (flow_ids results)
    × ((x : String)
        → mem x (flow_ids results) ≡ (mem x (ids_of bank_rows) || mem x (ids_of clear_rows)))
classify_covers_example =
    classify_covers calendar "BANK_ENTERPRISE" "22:00-02:00" bank_rows clear_rows classified

auto_fix-IsReconciled_example :
    All
      (λ r.
        r.action ≡ auto_fix
        → IsReconciled false
            (get r.flow_id (rows_by_flow_id bank_rows))
            (get r.flow_id (rows_by_flow_id clear_rows))
            (mem r.flow_id (all_duplicates "BANK_ENTERPRISE" bank_rows clear_rows)))
      results
auto_fix-IsReconciled_example =
    auto_fix-IsReconciled calendar "BANK_ENTERPRISE" "22:00-02:00" bank_rows clear_rows classified

-- A clearing row of half past eleven at night.
abbrev late_row : Row
late_row = record {
  flow_id = "F4";
  amount = none;
  cell = λ column. if str_eq column "trade_time" then words "23:30" else empty;
}

window_parsed : parse_cutoff_window "22:00-02:00" ≡ some (1320, 120)
unfolding parse_cutoff_window split_once both parse_clock_time strip clock parse_int
window_parsed = refl

time_parsed : parse_trade_time (words "23:30") ≡ some 1410
unfolding parse_trade_time to_optional_string parse_clock_time strip split_once clock parse_int
time_parsed = refl

in_cutoff_window-OnArc_example :
    (in_cutoff_window "22:00-02:00" (some late_row) ≡ some true) ↔ OnArc 1320 120 1410
in_cutoff_window-OnArc_example =
    in_cutoff_window-OnArc "22:00-02:00" late_row 1320 120 1410 window_parsed time_parsed

abbrev single_results : List BranchResult
single_results =
    record {
      flow_id = "F2";
      action = exception;
      error_type = some "BOOK_UNRECORDED";
      exception_branch = some "BE-R006";
      bank_amount = some (cents (pos 2500));
      clear_amount = none;
      amount_diff = none;
      t1_candidate = none;
      fuzzy_candidate = none;
    }
    ∷ record {
      flow_id = "F3";
      action = exception;
      error_type = some "BANK_UNARRIVED";
      exception_branch = some "BE-R005";
      bank_amount = none;
      clear_amount = some (cents (pos 2500));
      amount_diff = none;
      t1_candidate = none;
      fuzzy_candidate = none;
    }
    ∷ []

candidates_mutual_example :
    All
      (λ r.
        (c : FuzzyCandidate)
        → r.fuzzy_candidate ≡ some c
        → (str_eq "BANK_ENTERPRISE" "BANK_ENTERPRISE" ≡ true)
          × IsPaired calendar "BANK_ENTERPRISE"
              (("F2", row_of "F2" 2500 6) ∷ [])
              (("F3", row_of "F3" 2500 6) ∷ [])
              (ids_with_error "BOOK_UNRECORDED" single_results)
              (ids_with_error "BANK_UNARRIVED" single_results)
              r
              c)
      (apply_fuzzy_match calendar "BANK_ENTERPRISE"
        (("F2", row_of "F2" 2500 6) ∷ [])
        (("F3", row_of "F3" 2500 6) ∷ [])
        single_results)
candidates_mutual_example =
    candidates_mutual calendar "BANK_ENTERPRISE" (("F2", row_of "F2" 2500 6) ∷ [])
      (("F3", row_of "F3" 2500 6) ∷ []) single_results (refl, (refl, tt))
