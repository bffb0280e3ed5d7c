-- ===== src/Tools/Tests.antt =====
-- A tool that fails once and then answers.
use bank_reconciliation_agen.Base.{
  ℕ, ◌≡◌, refl, true, false, some, none, [], ◌∷◌, ◌==◌, if◌then◌else◌,
}
use bank_reconciliation_agen.Base.Dict.{Dict, get}
use bank_reconciliation_agen.Tools.{
  ToolDefinition, returned, transient_error, execute, executed, run_attempts, after, answer,
  authorized, validate_output, failed_record, succeeded, transient_read_error,
}

abbrev second_time : ToolDefinition ℕ ℕ ℕ ℕ ℕ
second_time = record {
  name = "search_rules";
  input_schema = λ n. some n;
  output_schema = λ n. some n;
  has_no_items = λ n. false;
  adapter = λ attempt n ctx. if attempt == 1 then transient_error else returned (some 7);
  scenario_predicate = λ ctx. true;
  policy = record { max_attempts = 2 };
}

abbrev registry : Dict (ToolDefinition ℕ ℕ ℕ ℕ ℕ)
registry = ("search_rules", second_time) ∷ []

recovered :
    execute registry (λ ctx. true) "search_rules" 3 (some 0)
    ≡ executed (record {
      tool_name = "search_rules";
      status = succeeded;
      result = some 7;
      error_type = none;
      fallback_reason = none;
      retryable = false;
      attempt = 2;
      retry_recovered = true;
      attempts =
          failed_record 1 transient_read_error true
          ∷ record { attempt = 2; status = succeeded; error_type = none; retryable = false }
          ∷ [];
    })
unfolding execute get authorized run_attempts after answer validate_output failed_record
recovered = refl
