-- ===== src/Workflow/Closed.antt =====
-- What the workflow leaves to a human, and when it returns.
use bank_reconciliation_agen.Base.{
  ◌≡◌, ◌≢◌, refl, true, false, Option, none, some, List, String, [], ◌∷◌, arith, eq_iff, Bool-cases,
  Option-cases, inl, inr,
}
use bank_reconciliation_agen.Audit.{
  pending_human, AuditDecision, AuditRequest, decide, RagSearchItem,
}
use bank_reconciliation_agen.Audit.Policy.{decide-human}
use bank_reconciliation_agen.Audit.Hooks.{guarded, mark_fallback, constraint_hook, decision_hook}
use bank_reconciliation_agen.Workflow.States.{
  State, World, Stage, deterministic, succeeded, ToolReply-cases, TraceReply-cases, fail_closed,
  tool_fail_closed, finish_with, is_text,
}
use bank_reconciliation_agen.Workflow.Audits.{
  best_score, conclude, audit_for_state, rule_first, settle, run_audit, apply_post_hooks, request,
  audit_escapes,
}
use bank_reconciliation_agen.Workflow.{search_step, needs_trace, trace_step, run_item}
use bank_reconciliation_agen.Workflow.Guard.{On, On-unless}

-- The item is left to a human.
abbrev pub IsHeld : State → Type 0
IsHeld s = s.next_action ≡ "PENDING_HUMAN"

pub held_not_fixed : ◌≢◌ {A = String} "PENDING_HUMAN" "AUTO_FIXED"
held_not_fixed e = ground (arith, eq_iff "PENDING_HUMAN" "AUTO_FIXED")

guarded-held :
    (violated : List String) (d : AuditDecision)
    → d.decision ≡ pending_human
    → (guarded violated d).next_action ≡ "PENDING_HUMAN"
unfolding guarded mark_fallback decision_hook
guarded-held [] d e = rw e
guarded-held (v ∷ vs) d e = refl

pub apply_post_hooks-IsHeld :
    (d : AuditDecision) (s : State) → d.decision ≡ pending_human → On IsHeld (apply_post_hooks d s)
unfolding apply_post_hooks
apply_post_hooks-IsHeld d s e =
    elim (Option-cases (constraint_hook s.amount_diff (best_score s.rag_context) d)) [
      | inl f ↦ rw (f, On) tt
      | inr (violated, f) ↦ rw (f, On) (guarded-held violated d e)
    ]

pub conclude-IsHeld :
    (path : String) (d : AuditDecision) (s : State)
    → d.decision ≡ pending_human
    → On IsHeld (conclude path d s)
unfolding conclude
conclude-IsHeld path d s e = apply_post_hooks-IsHeld d (record s { fallback_path = some path }) e

fail_closed-IsHeld : (reason : Option String) (s : State) → IsHeld (fail_closed reason s)
unfolding fail_closed finish_with
fail_closed-IsHeld reason s = refl

pub tool_fail_closed-IsHeld :
    (reason : Option String) (s : State) → IsHeld (tool_fail_closed reason s)
unfolding tool_fail_closed finish_with
tool_fail_closed-IsHeld reason s = refl

module _ (w : World) where
  -- Before the rules are searched a run can only be held or raise.
  trace_step-On {ℓ} :
      (P : State → Type ℓ) (s : State)
      → ((s' : State) → IsHeld s' → P s')
      → On P (search_step w s)
      → On P (trace_step w s)
  unfolding trace_step
  trace_step-On P s held h = elim (Bool-cases (needs_trace s)) [
    | inl e ↦ rw e (
        On-unless P w.first_trace_raises _ (elim (TraceReply-cases w.first_trace) [
          | inl (confidence, g) ↦ rw (g, On) h
          | inr (reason, g) ↦ rw (g, On) (held _ (fail_closed-IsHeld reason s))
        ]))
    | inr e ↦ rw e h
  ]

  pub run_item-On {ℓ} :
      (P : State → Type ℓ) (s : State)
      → ((s' : State) → IsHeld s' → P s')
      → On P (search_step w s)
      → On P (run_item w s)
  unfolding run_item
  run_item-On P s held h =
      let traced_on = trace_step-On P s held h in
      elim (Bool-cases (is_text "BC-R003" s.exception_branch)) [
        | inl f ↦ rw f (elim (ToolReply-cases w.t1) [
          | inl (u, e) ↦ rw (e, On) traced_on
          | inr (inl e) ↦ rw (e, On) traced_on
          | inr (inr (inl (reason, e))) ↦
              rw (e, On) (held _ (tool_fail_closed-IsHeld (some reason) s))
          | inr (inr (inr e)) ↦ rw (e, On) tt
        ])
        | inr f ↦ rw f traced_on
      ]

  search_step-no_rules :
      (s : State)
      → ((items : List RagSearchItem) → w.rules ≢ succeeded items)
      → On IsHeld (search_step w s)
  unfolding search_step
  search_step-no_rules s no_rules = elim (ToolReply-cases w.rules) [
    | inl (items, e) ↦ absurd (no_rules items e)
    | inr (inl e) ↦ rw (e, On) (tool_fail_closed-IsHeld none s)
    | inr (inr (inl (reason, e))) ↦ rw (e, On) (tool_fail_closed-IsHeld (some reason) s)
    | inr (inr (inr e)) ↦ rw (e, On) tt
  ]

  -- Unless the search of the rules succeeds, a run that returns leaves the item to a human.
  pub run_item-no_rules :
      (s : State)
      → ((items : List RagSearchItem) → w.rules ≢ succeeded items)
      → On IsHeld (run_item w s)
  run_item-no_rules s no_rules = run_item-On IsHeld s (λ _ h. h) (search_step-no_rules s no_rules)

  pub audit_for_state-rule :
      (stage : Stage) (q : AuditRequest) (s : State)
      → rule_first w q s ≡ true
      → audit_for_state w stage q s ≡ (decide q, deterministic, record s { error_message = none })
  unfolding audit_for_state
  audit_for_state-rule stage q s e = rw e

  pub rule_first-enterprise :
      (q : AuditRequest) (s : State)
      → s.scenario_type ≡ "BANK_ENTERPRISE"
      → is_text "BE-R007" q.exception_branch ≡ false
      → rule_first w q s ≡ true
  unfolding rule_first
  rule_first-enterprise q s enterprise branch = rw (enterprise, branch) refl

  run_audit-enterprise :
      (s : State)
      → s.scenario_type ≡ "BANK_ENTERPRISE"
      → is_text "BE-R007" s.exception_branch ≡ false
      → On IsHeld (run_audit w s)
  unfolding run_audit settle request
  run_audit-enterprise s enterprise branch =
      rw
        (audit_for_state-rule Stage.l1 (request w s) s
          (rule_first-enterprise (request w s) s enterprise branch))
        (On-unless IsHeld (audit_escapes w Stage.l1 (request w s) s) _
          (conclude-IsHeld _ _ _ (decide-human (request w s)).0))

  -- In the bank-enterprise scenario a run that returns leaves every item to a human whose error type
  -- is not FUZZY_MATCH_CANDIDATE and whose branch is not BE-R007.
  pub run_item-enterprise :
      (s : State)
      → s.scenario_type ≡ "BANK_ENTERPRISE"
      → is_text "FUZZY_MATCH_CANDIDATE" s.error_type ≡ false
      → is_text "BE-R007" s.exception_branch ≡ false
      → On IsHeld (run_item w s)
  unfolding search_step
  run_item-enterprise s enterprise error branch =
      run_item-On IsHeld s (λ _ h. h)
        (elim (ToolReply-cases w.rules) [
          | inl (items, e) ↦
              rw (e, On)
                (rw error
                  (run_audit-enterprise (record s { rag_context = items }) enterprise branch))
          | inr (inl e) ↦ rw (e, On) (tool_fail_closed-IsHeld none s)
          | inr (inr (inl (reason, e))) ↦ rw (e, On) (tool_fail_closed-IsHeld (some reason) s)
          | inr (inr (inr e)) ↦ rw (e, On) tt
        ])
