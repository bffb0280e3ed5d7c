-- ===== src/Router/Outcomes.antt =====
-- What one flow_id comes to: the two rule files against a decision table.
use bank_reconciliation_agen.Base.{
  ◌≡◌, refl, Bool, true, false, not, ◌||◌, String, Option, none, some, arith, str_eq, if◌then◌else◌,
}
use bank_reconciliation_agen.Amount.{money_eq, to_decimal}
use bank_reconciliation_agen.Rules.{RuleMatch, auto_fix, exception, evaluate}
use bank_reconciliation_agen.Rules.Files.{bank_enterprise, bank_clearing}
use bank_reconciliation_agen.Router.Rows.{Row, normalize_summary}
use bank_reconciliation_agen.Router.Facts.{facts_of, contains_reversal_keyword}

abbrev pub excepted : String → String → RuleMatch
excepted error_type branch = record {
  rule_id = branch;
  action = exception;
  error_type = some error_type;
  exception_branch = some branch;
}

abbrev pub fixed : String → RuleMatch
fixed id = record { rule_id = id; action = auto_fix; error_type = none; exception_branch = none }

abbrev pub unclassified : RuleMatch
unclassified = record {
  rule_id = "NONE";
  action = exception;
  error_type = some "UNCLASSIFIED";
  exception_branch = none;
}

-- Summaries differ, or one of them speaks of a reversal.
abbrev pub narratives_differ : Row → Row → Bool
narratives_differ bank clear =
    not
      (str_eq (normalize_summary (bank.cell "summary")) (normalize_summary (clear.cell "summary")))
    || contains_reversal_keyword (normalize_summary (bank.cell "summary"))
    || contains_reversal_keyword (normalize_summary (clear.cell "summary"))

abbrev pub enterprise_table : Option Row → Option Row → Bool → RuleMatch
enterprise_table bank clear true = excepted "DUPLICATE_BOOKING" "BE-R008"
enterprise_table none none false = unclassified
enterprise_table none (some clear) false = excepted "BANK_UNARRIVED" "BE-R005"
enterprise_table (some bank) none false = excepted "BOOK_UNRECORDED" "BE-R006"
enterprise_table (some bank) (some clear) false =
    if not (money_eq (to_decimal bank.amount) (to_decimal clear.amount))
    then excepted "AMOUNT_MISMATCH" "BE-R002"
    else if narratives_differ bank clear
    then excepted "NARRATIVE_NAME_MISMATCH" "BE-R004"
    else fixed "BE-R001"

abbrev pub clearing_table : Option Row → Option Row → Bool → RuleMatch
clearing_table none none in_cutoff = unclassified
clearing_table none (some clear) true = excepted "CUTOFF_CROSS_DAY" "BC-R003"
clearing_table none (some clear) false = excepted "CLEARING_SINGLE_SIDE" "BC-R001"
clearing_table (some bank) none in_cutoff = unclassified
clearing_table (some bank) (some clear) in_cutoff =
    if money_eq (to_decimal bank.amount) (to_decimal clear.amount)
    then fixed "BC-R000"
    else unclassified

-- The rules of bank_enterprise.yaml on the facts of an item give the outcome that the table lists.
pub enterprise_outcome :
    (bank clear : Option Row) (duplicate : Bool)
    → evaluate bank_enterprise (facts_of bank clear duplicate none)
      ≡ enterprise_table bank clear duplicate
unfolding evaluate facts_of
enterprise_outcome none none true = refl
enterprise_outcome none none false = refl
enterprise_outcome none (some clear) true = refl
enterprise_outcome none (some clear) false = refl
enterprise_outcome (some bank) none true = refl
enterprise_outcome (some bank) none false = refl
enterprise_outcome (some bank) (some clear) true = refl
enterprise_outcome (some bank) (some clear) false = ground arith

-- The rules of bank_clearing.yaml on the facts of an item give the outcome that the table lists, with
-- or without a suspected duplicate.
pub clearing_outcome :
    (bank clear : Option Row) (duplicate in_cutoff : Bool)
    → evaluate bank_clearing (facts_of bank clear duplicate (some in_cutoff))
      ≡ clearing_table bank clear in_cutoff
unfolding evaluate facts_of
clearing_outcome none none duplicate in_cutoff = ground arith
clearing_outcome none (some clear) duplicate in_cutoff = ground arith
clearing_outcome (some bank) none duplicate in_cutoff = ground arith
clearing_outcome (some bank) (some clear) duplicate in_cutoff = ground arith
