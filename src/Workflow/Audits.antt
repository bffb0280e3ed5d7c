-- ===== src/Workflow/Audits.antt =====
-- services/workflow/runner.py and decision.py: the audit of an exception by rule, by the model and by
-- its escalation, and the hooks after it.
use Prim.Native.String.{◌++◌ as ◌+++◌}
use bank_reconciliation_agen.Base.{
  ℕ, Bool, true, false, not, ◌&&◌, String, Option, none, some, List, [], ◌∷◌, str_eq, if◌then◌else◌,
}
use bank_reconciliation_agen.Amount.{Money}
use bank_reconciliation_agen.Audit.{
  AuditDecision, AuditRequest, RagSearchItem, human, decide, best_of,
}
use bank_reconciliation_agen.Audit.Hooks.{
  confidence_is_low, l1_requires_l2, mark_fallback, constraint_hook, guarded,
}
use bank_reconciliation_agen.Workflow.States.{
  State, unless, succeeded, emptied, failed, raised_read, traced, trace_error, Stage, l1, l2, l3,
  World, Run, finished, raised, Mode, llm, deterministic, is_text, or_empty, schema_failed,
  finish_with, fail_closed,
}

unfoldable pub best_score : List RagSearchItem → Option ℕ
unfolding best_of
best_score [] = none
best_score (x ∷ xs) = some (best_of x.score xs)

-- `apply_post_hooks`; `raised` is the InvalidOperation of the constraint hook.
unfoldable pub apply_post_hooks : AuditDecision → State → Run
unfolding best_score
apply_post_hooks d s = elim (constraint_hook s.amount_diff (best_score s.rag_context) d) [
  | none ↦ raised
  | some violated ↦ finished (record s {
    audit_decision = some (guarded violated d);
    confidence = some (guarded violated d).confidence;
    fallback_level = (guarded violated d).fallback_level;
    next_action = (guarded violated d).next_action;
  })
]

-- The last lines of `run_item`.
unfoldable pub conclude : String → AuditDecision → State → Run
conclude path d s = apply_post_hooks d (record s { fallback_path = some path })

unfoldable pub schema_decision : String → AuditDecision
schema_decision flow_id = record (human flow_id "SchemaHook 校验失败，转人工。" []) {
  fallback_applied = true;
  fallback_level = 1;
}

unfoldable pub judged : Option AuditDecision → State → AuditDecision × State
unfolding schema_decision
judged none s =
    (schema_decision s.flow_id, record s { error_message = some "schema validation failed" })
judged (some d) s = (d, record s { error_message = none })

module _ (w : World) where
  -- `audit_decision_once`
  unfoldable pub audit_once : Stage → AuditRequest → State → AuditDecision × State
  audit_once stage q s = judged (w.audit stage q) s

  -- `use_rule_first`
  unfoldable pub rule_first : AuditRequest → State → Bool
  rule_first q s =
      str_eq s.scenario_type "BANK_ENTERPRISE" && not (is_text "BE-R007" q.exception_branch)

  -- `audit_decision_for_state`
  unfoldable pub audit_for_state : Stage → AuditRequest → State → AuditDecision × Mode × State
  audit_for_state stage q s =
      if rule_first q s
      then (decide q, deterministic, record s { error_message = none })
      else (let (d, s') = audit_once stage q s in (d, llm, s'))

  -- Whether the audit of a state lets an exception through; the rule decision does not.
  unfoldable pub audit_escapes : Stage → AuditRequest → State → Bool
  audit_escapes stage q s = if rule_first q s then false else w.audit_raises stage q

  unfoldable pub shown : Option Money → Option String
  shown none = none
  shown (some m) = some (w.show m)

  unfoldable pub request : State → AuditRequest
  request s = record {
    flow_id = s.flow_id;
    error_type = or_empty s.error_type;
    exception_branch = s.exception_branch;
    amount_diff = shown s.amount_diff;
    evidence = s.rag_context;
    match_candidate = false;
  }

  -- From the third call of the audit agent on.
  unfoldable pub third : ℕ → State → Run
  third trace_confidence s = unless (w.audit_raises l3 (request s)) (
      let (d, s') = audit_once l3 (request s) s in
      if schema_failed s'
      then finished (finish_with "L1->L2->L3->HUMAN" d s')
      else (let d' : AuditDecision = mark_fallback 3 false d in
          if confidence_is_low trace_confidence
          then conclude "L1->L2->L3->HUMAN"
              (mark_fallback 3 true (record d' { reason = d'.reason +++ "；L3 追溯置信度不足，转人工。" })) s'
          else conclude "L1->L2->L3" d' s'))

  -- From the second call of the trace agent on.
  unfoldable pub traced_again : State → Run
  traced_again s = unless w.second_trace_raises (elim w.second_trace [
    | trace_error reason ↦ finished (fail_closed reason s)
    | traced confidence ↦ third confidence s
  ])

  -- From the second call of the audit agent on.
  unfoldable pub second : State → Run
  second s = unless (w.audit_raises l2 (request s)) (
      let (d, s') = audit_once l2 (request s) s in
      if schema_failed s'
      then finished (finish_with "L1->L2->HUMAN" d s')
      else (let d' : AuditDecision = mark_fallback 2 false d in
          if confidence_is_low d'.confidence then traced_again s' else conclude "L1->L2" d' s'))

  unfoldable pub no_cases : AuditDecision → State → Run
  no_cases d s = finished (finish_with "L1->L2->HUMAN" (mark_fallback 2 true d) s)

  -- The branch `l1_requires_l2`.
  unfoldable pub escalate : AuditDecision → State → Run
  escalate d s = elim w.cases [
    | succeeded n ↦ second s
    | emptied ↦ no_cases d s
    | failed reason ↦ no_cases d s
    | raised_read ↦ raised
  ]

  unfoldable pub settle : AuditDecision → Mode → State → Run
  settle d deterministic s = conclude "RULE" d s
  settle d llm s =
      if schema_failed s
      then conclude "HUMAN" d s
      else if l1_requires_l2 d
      then escalate d s
      else conclude "L1" d s

  -- The audit of a result that is no fuzzy candidate.
  unfoldable pub run_audit : State → Run
  run_audit s =
      unless (audit_escapes l1 (request s) s)
        (let (d, mode, s') = audit_for_state l1 (request s) s in settle d mode s')
