-- ===== src/Workflow/Matches.antt =====
-- What a fuzzy match of the bank-enterprise scenario is fixed by.
use bank_reconciliation_agen.Base.{
  ◌≡◌, refl, sym, subst, ◌∙◌, true, Option, none, some, String, Bool-cases, Option-cases, inl, inr,
  ◌||◌,
}
use bank_reconciliation_agen.Amount.{Money}
use bank_reconciliation_agen.Audit.{Decision-cases, AuditDecision, AuditRequest, is_empty}
use bank_reconciliation_agen.Audit.Policy.{decide-human}
use bank_reconciliation_agen.Audit.Hooks.{confidence_is_low}
use bank_reconciliation_agen.Workflow.States.{
  State, World, Stage, Run, finished, raised, ToolReply-cases, tool_fail_closed, is_text,
}
use bank_reconciliation_agen.Workflow.Audits.{
  judged, conclude, audit_once, audit_for_state, rule_first, request, audit_escapes,
}
use bank_reconciliation_agen.Workflow.Fuzzy.{
  mismatched, left_single, decided, run_fuzzy, or_amount, same_amounts, amended, fuzzy_request,
  to_human,
}
use bank_reconciliation_agen.Workflow.{search_step, run_item}
use bank_reconciliation_agen.Workflow.Guard.{On, On-unless}
use bank_reconciliation_agen.Workflow.Closed.{
  IsHeld, held_not_fixed, conclude-IsHeld, tool_fail_closed-IsHeld, run_item-On,
  audit_for_state-rule, rule_first-enterprise,
}

module _ (w : World) where
  mismatched-enterprise :
      (current candidate : Option Money) (s : State)
      → s.scenario_type ≡ "BANK_ENTERPRISE"
      → On IsHeld (mismatched w current candidate s)
  unfolding mismatched amended request
  mismatched-enterprise current candidate s enterprise =
      let s1 = amended current candidate s in
      rw
        (audit_for_state-rule w Stage.l2 (request w s1) s1
          (rule_first-enterprise w (request w s1) s1 enterprise refl))
        (On-unless IsHeld (audit_escapes w Stage.l2 (request w s1) s1) _
          (conclude-IsHeld _ _ _ (decide-human (request w s1)).0))

  -- Where an item is reported AUTO_FIXED its amount is the candidate's.
  abbrev FixedIfSame : State → State → Type 0
  FixedIfSame s s' =
      s'.next_action ≡ "AUTO_FIXED"
      → same_amounts (or_amount s.bank_amount s.clear_amount) s.candidate_amount ≡ true

  held-FixedIfSame : (s s' : State) → IsHeld s' → FixedIfSame s s'
  held-FixedIfSame s s' held fixed = absurd (held_not_fixed (sym held ∙ fixed))

  On-held : (s : State) (r : Run) → On IsHeld r → On (FixedIfSame s) r
  On-held s (finished s') held = held-FixedIfSame s s' held
  On-held s raised held = tt

  On-same :
      (s : State) (r : Run)
      → same_amounts (or_amount s.bank_amount s.clear_amount) s.candidate_amount ≡ true
      → On (FixedIfSame s) r
  On-same s (finished s') same = λ _. same
  On-same s raised same = tt

  decided-enterprise :
      (d : AuditDecision) (s : State)
      → s.scenario_type ≡ "BANK_ENTERPRISE"
      → On (FixedIfSame s) (decided w d s)
  unfolding decided left_single to_human
  decided-enterprise d s enterprise = elim (Decision-cases d.decision) [
    | inl e ↦
        rw (e, On)
          (elim (Bool-cases
            (same_amounts (or_amount s.bank_amount s.clear_amount) s.candidate_amount)) [
              | inl f ↦ rw f (On-same s (conclude "L1" d s) f)
              | inr f ↦ rw f (
                  On-held s
                    (mismatched w (or_amount s.bank_amount s.clear_amount) s.candidate_amount s)
                    (mismatched-enterprise _ _ s enterprise))
            ])
    | inr (inl e) ↦ rw (e, On) (On-held s (conclude "L1" d s) (conclude-IsHeld _ d s e))
    | inr (inr e) ↦ rw (e, On) (On-held s _ (conclude-IsHeld _ _ _ refl))
  ]

  pub audit_for_state-keeps :
      (stage : Stage) (q : AuditRequest) (s : State)
      → (message : Option String) × ((audit_for_state w stage q s).2
          ≡ record s { error_message = message })
  unfolding audit_for_state audit_once judged
  audit_for_state-keeps stage q s = elim (Bool-cases (rule_first w q s)) [
    | inl e ↦ (none, rw e refl)
    | inr e ↦ elim (Option-cases (w.audit stage q)) [
      | inl f ↦ (some "schema validation failed", rw (e, f) refl)
      | inr (d, f) ↦ (none, rw (e, f) refl)
    ]
  ]

  run_fuzzy-enterprise :
      (s : State) → s.scenario_type ≡ "BANK_ENTERPRISE" → On (FixedIfSame s) (run_fuzzy w s)
  unfolding run_fuzzy to_human
  run_fuzzy-enterprise s enterprise =
      let (d, mode, s') = audit_for_state w Stage.l1 (fuzzy_request w s) s in
      let kept = audit_for_state-keeps Stage.l1 (fuzzy_request w s) s in
      On-unless (FixedIfSame s) (audit_escapes w Stage.l1 (fuzzy_request w s) s) _
        (elim (Bool-cases (is_empty s'.rag_context || confidence_is_low d.confidence)) [
          | inl e ↦ rw e (On-held s _ (conclude-IsHeld _ _ _ refl))
          | inr e ↦ rw e (
              subst (λ x. On (FixedIfSame s) (decided w d x)) (sym kept.1)
                (decided-enterprise d (record s { error_message = kept.0 }) enterprise))
        ])

  -- In the bank-enterprise scenario an item of the error type FUZZY_MATCH_CANDIDATE is reported
  -- AUTO_FIXED only where its amount, which is the bank's unless that is absent or zero, and else the
  -- clearing side's, equals the amount of the candidate, or both are absent.
  pub run_item-same_amounts :
      (s : State)
      → s.scenario_type ≡ "BANK_ENTERPRISE"
      → is_text "FUZZY_MATCH_CANDIDATE" s.error_type ≡ true
      → On
          (λ s'.
            s'.next_action ≡ "AUTO_FIXED"
            → same_amounts (or_amount s.bank_amount s.clear_amount) s.candidate_amount ≡ true)
          (run_item w s)
  unfolding search_step
  run_item-same_amounts s enterprise error =
      run_item-On w (FixedIfSame s) s (held-FixedIfSame s) (elim (ToolReply-cases w.rules) [
        | inl (items, e) ↦
            rw (e, On)
              (rw error (run_fuzzy-enterprise (record s { rag_context = items }) enterprise))
        | inr (inl e) ↦
            rw (e, On)
              (held-FixedIfSame s (tool_fail_closed none s) (tool_fail_closed-IsHeld none s))
        | inr (inr (inl (reason, e))) ↦
            rw (e, On)
              (held-FixedIfSame s (tool_fail_closed (some reason) s)
                (tool_fail_closed-IsHeld (some reason) s))
        | inr (inr (inr e)) ↦ rw (e, On) tt
      ])
