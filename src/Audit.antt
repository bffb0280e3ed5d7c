-- ===== src/Audit.antt =====
-- agents/audit_agent.py: the audit decision, the branch profiles and the rule decision. Scores and confidences are counted in ten-thousandths.
pub mod Model
pub mod Hooks
pub mod Policy
mod Tests
use Prim.Native.String.{◌++◌ as ◌+++◌}
use bank_reconciliation_agen.Base.{
  ◌≡◌, refl, ◌⊎◌, inl, inr, ℕ, ◌+◌, ◌*◌, Bool, true, false, not, ◌&&◌, String, Option, none, some,
  List, [], ◌∷◌, leb, ltb, str_eq, if◌then◌else◌, min, max, is_some,
}
use bank_reconciliation_agen.Amount.{half_even}

-- `Literal["AUTO_FIXED", "PENDING_HUMAN", "UNRESOLVED"]`
pub data Decision : Type 0 where
  auto_fixed pending_human unresolved : Decision

abbrev pub decision_text : Decision → String
decision_text auto_fixed = "AUTO_FIXED"
decision_text pending_human = "PENDING_HUMAN"
decision_text unresolved = "UNRESOLVED"

pub Decision-cases : (d : Decision) → (d ≡ auto_fixed) ⊎ ((d ≡ pending_human) ⊎ (d ≡ unresolved))
Decision-cases auto_fixed = inl refl
Decision-cases pending_human = inr (inl refl)
Decision-cases unresolved = inr (inr refl)

abbrev pub is_auto_fixed : Decision → Bool
is_auto_fixed auto_fixed = true
is_auto_fixed pending_human = false
is_auto_fixed unresolved = false

abbrev pub is_pending_human : Decision → Bool
is_pending_human auto_fixed = false
is_pending_human pending_human = true
is_pending_human unresolved = false

-- The fields of `RagSearchItem` that decisions read.
pub record RagSearchItem : Type 0 where
  pub chunk_id : String
  pub score : ℕ

-- `AuditDecision`
pub record AuditDecision : Type 0 where
  pub flow_id : String
  pub decision : Decision
  pub risk_level : String
  pub reason : String
  pub ai_suggestion : String
  pub evidence : List RagSearchItem
  pub confidence : ℕ
  pub fallback_applied : Bool
  pub fallback_level : ℕ
  pub next_action : String
  pub safety_policy_applied : Bool
  pub raw_decision : Option Decision
  pub raw_risk_level : Option String
  pub safety_policy_reason : Option String

abbrev pub is_empty {ℓ} : {A : Type ℓ} → List A → Bool
is_empty [] = true
is_empty (_ ∷ _) = false

-- `Field(ge=0.0, le=1.0)` and `_c2_evidence_required_unless_human`: `none` for the ValidationError.
unfoldable pub validated : AuditDecision → Option AuditDecision
validated d =
    if ltb 10000 d.confidence
    then none
    else if not (is_pending_human d.decision) && is_empty d.evidence
    then none
    else some d

-- `BranchProfile`; a template is its text before and after the amount difference, if it shows it.
pub record BranchProfile : Type 0 where
  pub risk_level : String
  pub ai_suggestion : String
  pub reason : Option String → String

abbrev pub shown : Option String → String
shown none = "None"
shown (some s) = s

-- `BRANCH_PROFILE.get(branch)`
unfoldable pub branch_profile : String → Option BranchProfile
branch_profile branch =
    if str_eq branch "BE-R002"
    then some (record {
      risk_level = "MEDIUM";
      ai_suggestion = "PENDING_HUMAN";
      reason = λ diff. "银行端与企业端金额不一致：差异 " +++ (shown diff +++ "，已检索到金额差异处理依据，建议人工复核。");
    })
    else if str_eq branch "BE-R004"
    then some (record {
      risk_level = "LOW";
      ai_suggestion = "APPROVED_MATCH";
      reason = λ _. "金额与入账一致，但摘要/客户名不一致（疑似冲正/同一笔），已检索到核对依据，建议确认平账。";
    })
    else if str_eq branch "BE-R005"
    then some (record {
      risk_level = "MEDIUM";
      ai_suggestion = "PENDING_HUMAN";
      reason = λ _. "企业已记账、银行未到账（单边），已检索到查询查复依据，建议追溯后续到账。";
    })
    else if str_eq branch "BE-R006"
    then some (record {
      risk_level = "MEDIUM";
      ai_suggestion = "PENDING_HUMAN";
      reason = λ _. "银行已到账、企业未入账（单边），已检索到补登依据，建议核实补登。";
    })
    else if str_eq branch "BE-R008"
    then some (record {
      risk_level = "HIGH";
      ai_suggestion = "FORCE_HOLD";
      reason = λ _. "同主体同金额疑似一端重复记账，已检索到排查依据，建议挂账核实。";
    })
    else none

-- What a call of the agent is given.
pub record AuditRequest : Type 0 where
  pub flow_id : String
  pub error_type : String
  pub exception_branch : Option String
  pub amount_diff : Option String
  pub evidence : List RagSearchItem
  pub match_candidate : Bool

-- `max(item.score for item in evidence)`
unfoldable pub best_of : ℕ → List RagSearchItem → ℕ
best_of best [] = best
best_of best (item ∷ items) = best_of (max best item.score) items

-- `_confidence_from_evidence`: two places, a tie to the even one.
unfoldable pub confidence_from_evidence : List RagSearchItem → ℕ
confidence_from_evidence evidence =
    let best = best_of 0 evidence in
    if leb best 10000
    then min 8500 (100 * half_even (24000 + best) 400)
    else min 8500 (100 * half_even (600000 + best) 10000)

abbrev pub or_empty : Option String → String
or_empty none = ""
or_empty (some s) = s

abbrev pub human : String → String → List RagSearchItem → AuditDecision
human flow_id reason evidence = record {
  flow_id = flow_id;
  decision = pending_human;
  risk_level = "HIGH";
  reason = reason;
  ai_suggestion = "PENDING_HUMAN";
  evidence = evidence;
  confidence = 0;
  fallback_applied = false;
  fallback_level = 0;
  next_action = "PENDING_HUMAN";
  safety_policy_applied = false;
  raw_decision = none;
  raw_risk_level = none;
  safety_policy_reason = none;
}

unfoldable pub profiled : AuditRequest → Option BranchProfile → AuditDecision
profiled q none =
    record (human q.flow_id ("已检索到 " +++ (q.error_type +++ " 的规则依据，建议人工复核。")) q.evidence) {
      risk_level = "MEDIUM";
      confidence = confidence_from_evidence q.evidence;
    }
profiled q (some p) = record (human q.flow_id (p.reason q.amount_diff) q.evidence) {
  risk_level = p.risk_level;
  ai_suggestion = p.ai_suggestion;
  confidence = confidence_from_evidence q.evidence;
  next_action = p.ai_suggestion;
}

-- `AuditAgent.decide`
unfoldable pub decide : AuditRequest → AuditDecision
decide q =
    if is_empty q.evidence
    then human q.flow_id ("未检索到" +++ (q.error_type +++ "规则依据，不能自动判定，转人工。")) []
    else profiled q (branch_profile (or_empty q.exception_branch))

-- `_fallback_decision`
unfoldable pub fallback_decision : AuditRequest → AuditDecision
fallback_decision q = record (decide q) {
  fallback_applied = true;
  fallback_level = 1;
  next_action = "PENDING_HUMAN";
}
