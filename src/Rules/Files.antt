-- ===== src/Rules/Files.antt =====
-- The rules of rules/bank_enterprise.yaml and rules/bank_clearing.yaml, in the files' order, and the
-- choice of the file by scenario. The entry `fuzzy_match` of the first file is read by no code.
use bank_reconciliation_agen.Base.{
  true, false, String, some, none, List, [], ◌∷◌, str_eq, if◌then◌else◌,
}
use bank_reconciliation_agen.Rules.{Rule, text, boolean, eq, auto_fix, exception}

abbrev pub bank_enterprise : List Rule
bank_enterprise =
    record {
      id = "BE-R008";
      priority = 1;
      conditions =
          record { field = "duplicate_suspected"; operator = eq; value = boolean true } ∷ [];
      action = exception;
      error_type = some "DUPLICATE_BOOKING";
      exception_branch = some "BE-R008";
    }
    ∷ record {
      id = "BE-R005";
      priority = 2;
      conditions = record { field = "present_side"; operator = eq; value = text "A" } ∷ [];
      action = exception;
      error_type = some "BANK_UNARRIVED";
      exception_branch = some "BE-R005";
    }
    ∷ record {
      id = "BE-R006";
      priority = 3;
      conditions = record { field = "present_side"; operator = eq; value = text "B" } ∷ [];
      action = exception;
      error_type = some "BOOK_UNRECORDED";
      exception_branch = some "BE-R006";
    }
    ∷ record {
      id = "BE-R002";
      priority = 4;
      conditions =
          record { field = "flow_matched"; operator = eq; value = boolean true }
          ∷ record { field = "amount_equal"; operator = eq; value = boolean false }
          ∷ [];
      action = exception;
      error_type = some "AMOUNT_MISMATCH";
      exception_branch = some "BE-R002";
    }
    ∷ record {
      id = "BE-R004";
      priority = 5;
      conditions =
          record { field = "flow_matched"; operator = eq; value = boolean true }
          ∷ record { field = "amount_equal"; operator = eq; value = boolean true }
          ∷ record { field = "narrative_or_name_mismatch"; operator = eq; value = boolean true }
          ∷ [];
      action = exception;
      error_type = some "NARRATIVE_NAME_MISMATCH";
      exception_branch = some "BE-R004";
    }
    ∷ record {
      id = "BE-R001";
      priority = 6;
      conditions =
          record { field = "flow_matched"; operator = eq; value = boolean true }
          ∷ record { field = "amount_equal"; operator = eq; value = boolean true }
          ∷ record { field = "narrative_or_name_mismatch"; operator = eq; value = boolean false }
          ∷ [];
      action = auto_fix;
      error_type = none;
      exception_branch = none;
    }
    ∷ []

abbrev pub bank_clearing : List Rule
bank_clearing =
    record {
      id = "BC-R003";
      priority = 1;
      conditions =
          record { field = "present_side"; operator = eq; value = text "A" }
          ∷ record { field = "in_cutoff_window"; operator = eq; value = boolean true }
          ∷ [];
      action = exception;
      error_type = some "CUTOFF_CROSS_DAY";
      exception_branch = some "BC-R003";
    }
    ∷ record {
      id = "BC-R001";
      priority = 2;
      conditions = record { field = "present_side"; operator = eq; value = text "A" } ∷ [];
      action = exception;
      error_type = some "CLEARING_SINGLE_SIDE";
      exception_branch = some "BC-R001";
    }
    ∷ record {
      id = "BC-R000";
      priority = 3;
      conditions =
          record { field = "flow_matched"; operator = eq; value = boolean true }
          ∷ record { field = "amount_equal"; operator = eq; value = boolean true }
          ∷ [];
      action = auto_fix;
      error_type = none;
      exception_branch = none;
    }
    ∷ []

-- `rule_engine_for`
unfoldable pub rules_for : String → List Rule
rules_for scenario_type =
    if str_eq scenario_type "BANK_CLEARING" then bank_clearing else bank_enterprise
