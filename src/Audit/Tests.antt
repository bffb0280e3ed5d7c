-- ===== src/Audit/Tests.antt =====
-- The audit agent on a concrete request, and its theorems at concrete inputs.
use bank_reconciliation_agen.Base.{◌≡◌, ◌≢◌, refl, true, false, some, none, [], ◌∷◌, arith}
use bank_reconciliation_agen.Audit.{auto_fixed, pending_human, AuditRequest, validated, is_empty}
use bank_reconciliation_agen.Audit.Model.{
  completed, LlmAuditDecision, IsConfident, decide_with_llm, answered, accepted, from_llm,
  apply_audit_safety_policy, override, task_of,
}
use bank_reconciliation_agen.Audit.Policy.{decide_with_llm-evidence, duplicate_never_fixed}

-- A suspected duplicate, with one rule found.
abbrev duplicate : AuditRequest
duplicate = record {
  flow_id = "F1";
  error_type = "DUPLICATE_BOOKING";
  exception_branch = some "BE-R008";
  amount_diff = none;
  evidence = record { chunk_id = "R1"; score = 9000 } ∷ [];
  match_candidate = false;
}

-- The model would fix it.
abbrev eager : LlmAuditDecision
eager = record {
  decision = auto_fixed;
  risk_level = "LOW";
  reason = "same row twice";
  ai_suggestion = "APPROVED_MATCH";
  confidence = 9900;
}

eager_fits : IsConfident eager
eager_fits = omega arith

eager_overridden :
    (decide_with_llm duplicate (completed eager eager_fits)).raw_decision ≡ some auto_fixed
unfolding decide_with_llm answered from_llm validated accepted apply_audit_safety_policy override
    task_of
eager_overridden = refl

is_audit : task_of duplicate ≡ "audit"
unfolding task_of
is_audit = refl

decide_with_llm-evidence_example :
    (validated (decide_with_llm duplicate (completed eager eager_fits))
      ≡ some (decide_with_llm duplicate (completed eager eager_fits)))
    × (is_empty duplicate.evidence ≡ true
        → ((decide_with_llm duplicate (completed eager eager_fits)).decision ≡ pending_human)
          × ((decide_with_llm duplicate (completed eager eager_fits)).confidence ≡ 0))
decide_with_llm-evidence_example = decide_with_llm-evidence duplicate (completed eager eager_fits)

duplicate_never_fixed_example :
    ((decide_with_llm duplicate (completed eager eager_fits)).decision ≢ auto_fixed)
    × ((l : LlmAuditDecision) (fits : IsConfident l)
        → is_empty duplicate.evidence ≡ false
        → completed eager eager_fits ≡ completed l fits
        → (decide_with_llm duplicate (completed eager eager_fits)).risk_level ≡ "HIGH")
duplicate_never_fixed_example =
    duplicate_never_fixed duplicate (completed eager eager_fits) is_audit refl
