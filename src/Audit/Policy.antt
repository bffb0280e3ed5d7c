-- ===== src/Audit/Policy.antt =====
-- What an audit decision can be, whatever the model answers.
use bank_reconciliation_agen.Base.{
  ◌≤◌, ◌≡◌, ◌≢◌, refl, ◌∙◌, ap, true, false, not, ◌&&◌, eq_iff, String, Option, none, some, List,
  [], arith, str_eq, Bool-cases, inl, inr,
}
use bank_reconciliation_agen.Audit.{
  auto_fixed, pending_human, BranchProfile, or_empty, RagSearchItem, AuditDecision, AuditRequest,
  validated, profiled, branch_profile, confidence_from_evidence, decide, fallback_decision,
  is_empty, is_auto_fixed,
}
use bank_reconciliation_agen.Audit.Model.{
  override, Completion, LlmAuditDecision, IsConfident, completed, structured_error, answered,
  decide_with_llm, task_of, accepted, from_llm, is_duplicate_branch, apply_audit_safety_policy,
}

confidence_from_evidence-le : (items : List RagSearchItem) → confidence_from_evidence items ≤ 8500
unfolding confidence_from_evidence
confidence_from_evidence-le items = ground arith

profiled-human :
    (q : AuditRequest) (p : Option BranchProfile)
    → ((profiled q p).decision ≡ pending_human)
      × ((profiled q p).evidence ≡ q.evidence)
      × ((profiled q p).confidence ≤ 8500)
unfolding profiled
profiled-human q none = (refl, refl, confidence_from_evidence-le q.evidence)
profiled-human q (some p) = (refl, refl, confidence_from_evidence-le q.evidence)

-- The rule decision is for a human whatever the branch and the evidence, keeps the evidence that it
-- was given, and is at most 0.85 sure.
pub decide-human :
    (q : AuditRequest)
    → ((decide q).decision ≡ pending_human)
      × ((decide q).evidence ≡ q.evidence)
      × ((decide q).confidence ≤ 8500)
unfolding decide
decide-human q = ground (arith, profiled-human q (branch_profile (or_empty q.exception_branch)))

validated-human :
    (d : AuditDecision) → d.confidence ≤ 10000 → d.decision ≡ pending_human → validated d ≡ some d
unfolding validated
validated-human d c e = ground arith

validated-evidence :
    (d : AuditDecision) → d.confidence ≤ 10000 → is_empty d.evidence ≡ false → validated d ≡ some d
unfolding validated
validated-evidence d c e = ground arith

fallback_decision-human : (q : AuditRequest) → (fallback_decision q).decision ≡ pending_human
unfolding fallback_decision
fallback_decision-human q = (decide-human q).0

policy-evidence :
    (task error_type : String) (b : Option String) (d : AuditDecision)
    → (apply_audit_safety_policy task error_type b d).evidence ≡ d.evidence
unfolding apply_audit_safety_policy override
policy-evidence task error_type b d = ground arith

policy-confidence :
    (task error_type : String) (b : Option String) (d : AuditDecision)
    → (apply_audit_safety_policy task error_type b d).confidence ≡ d.confidence
unfolding apply_audit_safety_policy override
policy-confidence task error_type b d = ground arith

from_llm-validated :
    (q : AuditRequest) (l : LlmAuditDecision)
    → IsConfident l
    → is_empty q.evidence ≡ false
    → validated (from_llm q l) ≡ some (from_llm q l)
unfolding from_llm
from_llm-validated q l c e = validated-evidence (from_llm q l) c e

answered-validated :
    (q : AuditRequest) (c : Completion)
    → is_empty q.evidence ≡ false
    → validated (answered q c) ≡ some (answered q c)
unfolding answered accepted
answered-validated q structured_error e =
    validated-human (fallback_decision q)
      (unfold fallback_decision in omega (arith, (decide-human q).2)) (fallback_decision-human q)
answered-validated q (completed l c) e =
    rw (from_llm-validated q l c e, accepted)
      (validated-evidence
        (apply_audit_safety_policy (task_of q) q.error_type q.exception_branch (from_llm q l))
        (rw (policy-confidence (task_of q) q.error_type q.exception_branch (from_llm q l))
          (unfold from_llm in c))
        (ap is_empty (policy-evidence (task_of q) q.error_type q.exception_branch (from_llm q l))
          ∙ (unfold from_llm in e)))

-- Whatever the model answers, the decision validates: its confidence is at most 1, and a decision other
-- than PENDING_HUMAN carries evidence. With no evidence it is PENDING_HUMAN with confidence 0.
pub decide_with_llm-evidence :
    (q : AuditRequest) (c : Completion)
    → (validated (decide_with_llm q c) ≡ some (decide_with_llm q c))
      × (is_empty q.evidence ≡ true
          → ((decide_with_llm q c).decision ≡ pending_human)
            × ((decide_with_llm q c).confidence ≡ 0))
unfolding decide_with_llm
decide_with_llm-evidence q c = elim (Bool-cases (is_empty q.evidence)) [
  | inl e ↦ rw e (
    validated-human (decide (record q { evidence = [] }))
        (omega (arith, (decide-human (record q { evidence = [] })).2))
        (decide-human (record q { evidence = [] })).0,
    λ _. ((decide-human (record q { evidence = [] })).0, unfold decide in refl),
  )
  | inr e ↦ rw e (answered-validated q c e, λ f. cc)
]

policy-duplicate :
    (error_type : String) (b : Option String) (d : AuditDecision)
    → is_duplicate_branch error_type b ≡ true
    → let d' = apply_audit_safety_policy "audit" error_type b d in
      (d'.decision ≢ auto_fixed) × (d'.risk_level ≡ "HIGH")
unfolding apply_audit_safety_policy override
policy-duplicate error_type b d dup =
    rw dup (elim (Bool-cases (not (is_auto_fixed d.decision) && str_eq d.risk_level "HIGH")) [
      | inl kept ↦ rw kept (λ f. ground arith, ground (arith, eq_iff d.risk_level "HIGH"))
      | inr changed ↦ rw changed (λ f. ground arith, refl)
    ])

answered-duplicate :
    (q : AuditRequest) (c : Completion)
    → is_empty q.evidence ≡ false
    → task_of q ≡ "audit"
    → is_duplicate_branch q.error_type q.exception_branch ≡ true
    → ((answered q c).decision ≢ auto_fixed)
      × ((l : LlmAuditDecision) (fits : IsConfident l)
          → c ≡ completed l fits
          → (answered q c).risk_level ≡ "HIGH")
unfolding answered accepted
answered-duplicate q structured_error e t dup =
    (λ f. cc (fallback_decision-human q), λ l fits is_l. cc)
answered-duplicate q (completed l c) e t dup =
    let safe = policy-duplicate q.error_type q.exception_branch (from_llm q l) dup in
    rw (from_llm-validated q l c e, accepted) (rw t (safe.0, λ l' _ _. safe.1))

-- On a suspected duplicate, which is the branch BE-R008 or the error type DUPLICATE_BOOKING, an agent
-- whose task is `audit` does not fix automatically, whatever the model answers; and where there is
-- evidence and the model answers in the schema, the decision is of HIGH risk.
pub duplicate_never_fixed :
    (q : AuditRequest) (c : Completion)
    → task_of q ≡ "audit"
    → is_duplicate_branch q.error_type q.exception_branch ≡ true
    → ((decide_with_llm q c).decision ≢ auto_fixed)
      × ((l : LlmAuditDecision) (fits : IsConfident l)
          → is_empty q.evidence ≡ false
          → c ≡ completed l fits
          → (decide_with_llm q c).risk_level ≡ "HIGH")
unfolding decide_with_llm
duplicate_never_fixed q c t dup = elim (Bool-cases (is_empty q.evidence)) [
  | inl e ↦ rw e (λ f. cc (decide-human (record q { evidence = [] })).0, λ l fits f. cc)
  | inr e ↦
      let safe = answered-duplicate q c e t dup in
      rw e (safe.0, λ l fits _ is_l. safe.1 l fits is_l)
]
