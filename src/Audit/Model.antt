-- ===== src/Audit/Model.antt =====
-- agents/audit_agent.py: the decision of the model, and the safety policy on it.
use Prim.Native.String.{◌++◌ as ◌+++◌}
use bank_reconciliation_agen.Base.{
  ℕ, ◌≤◌, Bool, true, not, ◌&&◌, String, Option, none, some, [], str_eq, if◌then◌else◌,
}
use bank_reconciliation_agen.Audit.{
  Decision, pending_human, decision_text, is_auto_fixed, AuditDecision, is_empty, validated,
  AuditRequest, human, decide, fallback_decision,
}

-- `LLMAuditDecision`
pub record LlmAuditDecision : Type 0 where
  pub decision : Decision
  pub risk_level : String
  pub reason : String
  pub ai_suggestion : String
  pub confidence : ℕ

-- `Field(ge=0.0, le=1.0)` of its confidence, which `complete_structured` has the schema check.
abbrev pub IsConfident : LlmAuditDecision → Type 0
IsConfident l = l.confidence ≤ 10000

-- What `complete_structured` gives: a value of the schema, or a StructuredLLMError.
pub data Completion : Type 0 where
  completed : (l : LlmAuditDecision) → IsConfident l → Completion
  structured_error : Completion

abbrev pub is_duplicate_branch : String → Option String → Bool
is_duplicate_branch error_type branch = elim branch [
  | none ↦ str_eq error_type "DUPLICATE_BOOKING"
  | some b ↦ if str_eq b "BE-R008" then true else str_eq error_type "DUPLICATE_BOOKING"
]

-- `exception_branch or error_type`
abbrev pub named : String → Option String → String
named error_type none = error_type
named error_type (some b) = if str_eq b "" then error_type else b

unfoldable pub override : String → AuditDecision → AuditDecision
override name d =
    let raw = decision_text d.decision in
    record d {
      decision = if is_auto_fixed d.decision then pending_human else d.decision;
      risk_level = "HIGH";
      next_action = "PENDING_HUMAN";
      ai_suggestion = "PENDING_HUMAN";
      safety_policy_applied = true;
      raw_decision = some d.decision;
      raw_risk_level = some d.risk_level;
      safety_policy_reason = some (
          "安全策略介入："
          +++ (name
              +++ (" 分支禁止自动平账，原始模型输出 decision="
                  +++ (raw
                      +++ (" risk_level=" +++ (d.risk_level +++ "，已改写为 PENDING_HUMAN / HIGH"))))));
      reason =
          "[安全策略介入] "
          +++ (name
              +++ (" 高风险分支必须人工复核，系统已覆盖模型原始输出（decision="
                  +++ (raw
                      +++ (", risk_level=" +++ (d.risk_level +++ "），已改写为 PENDING_HUMAN / HIGH")))));
    }

-- `apply_audit_safety_policy`
unfoldable pub apply_audit_safety_policy :
    String → String → Option String → AuditDecision → AuditDecision
apply_audit_safety_policy task error_type branch d =
    if not (str_eq task "audit")
    then d
    else if not (is_duplicate_branch error_type branch)
    then d
    else if not (is_auto_fixed d.decision) && str_eq d.risk_level "HIGH"
    then d
    else override (named error_type branch) d

-- `user_payload["task"]`
unfoldable pub task_of : AuditRequest → String
task_of q =
    if str_eq q.error_type "FUZZY_MATCH_CANDIDATE" && q.match_candidate
    then "confirm_match"
    else "audit"

unfoldable pub from_llm : AuditRequest → LlmAuditDecision → AuditDecision
from_llm q l = record (human q.flow_id l.reason q.evidence) {
  decision = l.decision;
  risk_level = l.risk_level;
  ai_suggestion = l.ai_suggestion;
  confidence = l.confidence;
  next_action = decision_text l.decision;
}

unfoldable pub accepted : AuditRequest → Option AuditDecision → AuditDecision
accepted q none = fallback_decision q
accepted q (some d) = apply_audit_safety_policy (task_of q) q.error_type q.exception_branch d

unfoldable pub answered : AuditRequest → Completion → AuditDecision
answered q structured_error = fallback_decision q
answered q (completed l fits) = accepted q (validated (from_llm q l))

-- `AuditAgent.decide_with_llm`, where the model answers with `completion`.
unfoldable pub decide_with_llm : AuditRequest → Completion → AuditDecision
decide_with_llm q completion =
    if is_empty q.evidence then decide (record q { evidence = [] }) else answered q completion
