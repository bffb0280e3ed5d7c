-- ===== src/Workflow/Runs.antt =====
-- Every run of `run_item` ends with a guarded decision, or raises.
use bank_reconciliation_agen.Base.{
  ℕ, ◌≡◌, refl, true, false, Option, none, some, String, Bool-cases, inl, inr, ◌||◌,
}
use bank_reconciliation_agen.Amount.{Money}
use bank_reconciliation_agen.Audit.{Decision-cases, pending_human, AuditDecision, is_empty}
use bank_reconciliation_agen.Audit.Hooks.{mark_fallback, confidence_is_low, l1_requires_l2}
use bank_reconciliation_agen.Workflow.States.{
  ToolReply-cases, TraceReply-cases, State, World, Stage, Mode, llm, deterministic, finish_with,
  fail_closed, tool_fail_closed, schema_failed, is_text,
}
use bank_reconciliation_agen.Workflow.Audits.{
  conclude, judged, schema_decision, audit_once, audit_for_state, settle, escalate, second, third,
  no_cases, run_audit, request, audit_escapes, traced_again,
}
use bank_reconciliation_agen.Workflow.Fuzzy.{
  mismatched, left_single, decided, run_fuzzy, or_amount, same_amounts, fuzzy_request,
}
use bank_reconciliation_agen.Workflow.{search_step, needs_trace, trace_step, run_item}
use bank_reconciliation_agen.Workflow.Guard.{
  On, On-unless, IsGuarded, held, apply_post_hooks-IsGuarded,
}

conclude-IsGuarded :
    (path : String) (d : AuditDecision) (s : State) → On IsGuarded (conclude path d s)
unfolding conclude
conclude-IsGuarded path d s = apply_post_hooks-IsGuarded d (record s { fallback_path = some path })

finish_with-IsGuarded :
    (path : String) (d : AuditDecision) (s : State)
    → d.decision ≡ pending_human
    → d.next_action ≡ "PENDING_HUMAN"
    → IsGuarded (finish_with path d s)
unfolding finish_with
finish_with-IsGuarded path d s human action = held d _ refl human action refl refl

fail_closed-IsGuarded : (reason : Option String) (s : State) → IsGuarded (fail_closed reason s)
unfolding fail_closed finish_with
fail_closed-IsGuarded reason s = held _ _ refl refl refl refl refl

tool_fail_closed-IsGuarded :
    (reason : Option String) (s : State) → IsGuarded (tool_fail_closed reason s)
unfolding tool_fail_closed finish_with
tool_fail_closed-IsGuarded reason s = held _ _ refl refl refl refl refl

judged-held :
    (o : Option AuditDecision) (s : State)
    → schema_failed (judged o s).1 ≡ true
    → ((judged o s).0.decision ≡ pending_human) × ((judged o s).0.next_action ≡ "PENDING_HUMAN")
unfolding judged schema_decision
judged-held none s e = (refl, refl)
judged-held (some d) s e = cc

module _ (w : World) where
  third-IsGuarded : (confidence : ℕ) (s : State) → On IsGuarded (third w confidence s)
  unfolding third audit_once
  third-IsGuarded confidence s =
      let o = w.audit Stage.l3 (request w s) in
      On-unless IsGuarded (w.audit_raises Stage.l3 (request w s)) _
        (elim (Bool-cases (schema_failed (judged o s).1)) [
          | inl e ↦ rw e (finish_with-IsGuarded _ _ _ (judged-held o s e).0 (judged-held o s e).1)
          | inr e ↦ rw e (elim (Bool-cases (confidence_is_low confidence)) [
            | inl f ↦ rw f (conclude-IsGuarded _ _ _)
            | inr f ↦ rw f (conclude-IsGuarded _ _ _)
          ])
        ])

  traced_again-IsGuarded : (s : State) → On IsGuarded (traced_again w s)
  unfolding traced_again
  traced_again-IsGuarded s =
      On-unless IsGuarded w.second_trace_raises _ (elim (TraceReply-cases w.second_trace) [
        | inl (confidence, g) ↦ rw (g, On) (third-IsGuarded confidence s)
        | inr (reason, g) ↦ rw (g, On) (fail_closed-IsGuarded reason s)
      ])

  second-IsGuarded : (s : State) → On IsGuarded (second w s)
  unfolding second audit_once
  second-IsGuarded s =
      let o = w.audit Stage.l2 (request w s) in
      On-unless IsGuarded (w.audit_raises Stage.l2 (request w s)) _
        (elim (Bool-cases (schema_failed (judged o s).1)) [
          | inl e ↦ rw e (finish_with-IsGuarded _ _ _ (judged-held o s e).0 (judged-held o s e).1)
          | inr e ↦
              rw e
                (elim (Bool-cases
                  (confidence_is_low (mark_fallback 2 false (judged o s).0).confidence)) [
                    | inl f ↦ rw f (traced_again-IsGuarded (judged o s).1)
                    | inr f ↦ rw f (conclude-IsGuarded _ _ _)
                  ])
        ])

  escalate-IsGuarded : (d : AuditDecision) (s : State) → On IsGuarded (escalate w d s)
  unfolding escalate no_cases mark_fallback
  escalate-IsGuarded d s = elim (ToolReply-cases w.cases) [
    | inl (n, e) ↦ rw (e, On) (second-IsGuarded s)
    | inr (inl e) ↦ rw (e, On) (finish_with-IsGuarded _ _ _ refl refl)
    | inr (inr (inl (reason, e))) ↦ rw (e, On) (finish_with-IsGuarded _ _ _ refl refl)
    | inr (inr (inr e)) ↦ rw (e, On) tt
  ]

  settle-IsGuarded :
      (d : AuditDecision) (mode : Mode) (s : State) → On IsGuarded (settle w d mode s)
  unfolding settle
  settle-IsGuarded d deterministic s = conclude-IsGuarded _ _ _
  settle-IsGuarded d llm s = elim (Bool-cases (schema_failed s)) [
    | inl e ↦ rw e (conclude-IsGuarded _ _ _)
    | inr e ↦ rw e (elim (Bool-cases (l1_requires_l2 d)) [
      | inl f ↦ rw f (escalate-IsGuarded d s)
      | inr f ↦ rw f (conclude-IsGuarded _ _ _)
    ])
  ]

  run_audit-IsGuarded : (s : State) → On IsGuarded (run_audit w s)
  unfolding run_audit
  run_audit-IsGuarded s =
      let (d, mode, s') = audit_for_state w Stage.l1 (request w s) s in
      On-unless IsGuarded (audit_escapes w Stage.l1 (request w s) s) _ (settle-IsGuarded d mode s')

  mismatched-IsGuarded :
      (current candidate : Option Money) (s : State)
      → On IsGuarded (mismatched w current candidate s)
  unfolding mismatched
  mismatched-IsGuarded current candidate s =
      On-unless IsGuarded (audit_escapes w Stage.l2 _ _) _ (conclude-IsGuarded _ _ _)

  decided-IsGuarded : (d : AuditDecision) (s : State) → On IsGuarded (decided w d s)
  unfolding decided left_single
  decided-IsGuarded d s = elim (Decision-cases d.decision) [
    | inl e ↦
        rw (e, On)
          (elim (Bool-cases
            (same_amounts (or_amount s.bank_amount s.clear_amount) s.candidate_amount)) [
              | inl f ↦ rw f (conclude-IsGuarded _ _ _)
              | inr f ↦ rw f (mismatched-IsGuarded _ _ s)
            ])
    | inr (inl e) ↦ rw (e, On) (conclude-IsGuarded _ _ _)
    | inr (inr e) ↦ rw (e, On) (conclude-IsGuarded _ _ _)
  ]

  run_fuzzy-IsGuarded : (s : State) → On IsGuarded (run_fuzzy w s)
  unfolding run_fuzzy
  run_fuzzy-IsGuarded s =
      let (d, mode, s') = audit_for_state w Stage.l1 (fuzzy_request w s) s in
      On-unless IsGuarded (audit_escapes w Stage.l1 (fuzzy_request w s) s) _
        (elim (Bool-cases (is_empty s'.rag_context || confidence_is_low d.confidence)) [
          | inl e ↦ rw e (conclude-IsGuarded _ _ _)
          | inr e ↦ rw e (decided-IsGuarded d s')
        ])

  search_step-IsGuarded : (s : State) → On IsGuarded (search_step w s)
  unfolding search_step
  search_step-IsGuarded s = elim (ToolReply-cases w.rules) [
    | inl (items, e) ↦
        rw (e, On)
          (elim (Bool-cases (is_text "FUZZY_MATCH_CANDIDATE" s.error_type)) [
            | inl f ↦ rw f (run_fuzzy-IsGuarded _)
            | inr f ↦ rw f (run_audit-IsGuarded _)
          ])
    | inr (inl e) ↦ rw (e, On) (tool_fail_closed-IsGuarded none s)
    | inr (inr (inl (reason, e))) ↦ rw (e, On) (tool_fail_closed-IsGuarded (some reason) s)
    | inr (inr (inr e)) ↦ rw (e, On) tt
  ]

  trace_step-IsGuarded : (s : State) → On IsGuarded (trace_step w s)
  unfolding trace_step
  trace_step-IsGuarded s = elim (Bool-cases (needs_trace s)) [
    | inl e ↦ rw e (
        On-unless IsGuarded w.first_trace_raises _ (elim (TraceReply-cases w.first_trace) [
          | inl (confidence, g) ↦ rw (g, On) (search_step-IsGuarded s)
          | inr (reason, g) ↦ rw (g, On) (fail_closed-IsGuarded reason s)
        ]))
    | inr e ↦ rw e (search_step-IsGuarded s)
  ]

  -- Whatever the tools and the agents answer or raise, a run of the workflow that returns leaves a decision
  -- which is the one that it reports; and it is AUTO_FIXED only with a confidence of at least 0.85,
  -- an item of evidence of score at least 0.5, and an amount difference that is not NaN and, where
  -- there is one and the risk is LOW, no more than 10000.00.
  pub run_item-IsGuarded : (s : State) → On IsGuarded (run_item w s)
  unfolding run_item
  run_item-IsGuarded s = elim (Bool-cases (is_text "BC-R003" s.exception_branch)) [
    | inl f ↦ rw f (elim (ToolReply-cases w.t1) [
      | inl (u, e) ↦ rw (e, On) (trace_step-IsGuarded s)
      | inr (inl e) ↦ rw (e, On) (trace_step-IsGuarded s)
      | inr (inr (inl (reason, e))) ↦ rw (e, On) (tool_fail_closed-IsGuarded (some reason) s)
      | inr (inr (inr e)) ↦ rw (e, On) tt
    ])
    | inr f ↦ rw f (trace_step-IsGuarded s)
  ]
