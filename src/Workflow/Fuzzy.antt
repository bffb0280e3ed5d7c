-- ===== src/Workflow/Fuzzy.antt =====
-- services/workflow/runner.py: `_run_fuzzy_candidate_confirmation`.
use bank_reconciliation_agen.Base.{
  Bool, true, false, ◌||◌, Option, none, some, if◌then◌else◌, is_none,
}
use bank_reconciliation_agen.Base.Int.{pos, magnitude, eq_ℤ}
use bank_reconciliation_agen.Amount.{Money, nan, cents, money_eq, money_sub}
use bank_reconciliation_agen.Audit.{
  auto_fixed, pending_human, unresolved, AuditDecision, AuditRequest, is_empty,
}
use bank_reconciliation_agen.Audit.Hooks.{confidence_is_low}
use bank_reconciliation_agen.Workflow.States.{unless, State, l1, l2, World, Run, llm, deterministic}
use bank_reconciliation_agen.Workflow.Audits.{conclude, audit_for_state, audit_escapes, request}

-- `_to_decimal(bank) or _to_decimal(clear)`: a zero is passed over.
abbrev pub or_amount : Option Money → Option Money → Option Money
or_amount none b = b
or_amount (some nan) b = some nan
or_amount (some (cents a)) b = if eq_ℤ a (pos 0) then b else some (cents a)

abbrev pub same_amounts : Option Money → Option Money → Bool
same_amounts none none = true
same_amounts (some a) (some b) = money_eq a b
same_amounts _ _ = false

abbrev pub difference : Option Money → Option Money → Option Money
difference (some (cents a)) (some (cents b)) = elim (money_sub (cents a) (cents b)) [
  | nan ↦ some nan
  | cents d ↦ some (cents (pos (magnitude d)))
]
difference (some _) (some _) = some nan
difference _ _ = none

-- What the branch of a confirmed match with differing amounts writes into the state.
unfoldable pub amended : Option Money → Option Money → State → State
amended current candidate s = record s {
  error_type = some "AMOUNT_MISMATCH";
  exception_branch = some "BE-R002";
  bank_amount = current;
  clear_amount = candidate;
  amount_diff = difference current candidate;
}

unfoldable pub to_human : AuditDecision → AuditDecision
to_human d = record d {
  decision = pending_human;
  ai_suggestion = "PENDING_HUMAN";
  next_action = "PENDING_HUMAN";
}

-- The branch of a match that the agent leaves unresolved.
unfoldable pub left_single : AuditDecision → State → Run
left_single d s = conclude "L1" (to_human d) (
    if is_none s.bank_amount
    then record s { error_type = some "BANK_UNARRIVED"; exception_branch = some "BE-R005" }
    else record s { error_type = some "BOOK_UNRECORDED"; exception_branch = some "BE-R006" })

module _ (w : World) where
  -- The branch of a confirmed match whose amounts differ.
  unfoldable pub mismatched : Option Money → Option Money → State → Run
  mismatched current candidate s =
      let s1 = amended current candidate s in
      unless (audit_escapes w l2 (request w s1) s1) (
        let (d, mode, s2) = audit_for_state w l2 (request w s1) s1 in
        conclude (elim mode [ deterministic ↦ "RULE" | llm ↦ "L1" ]) d s2)

  unfoldable pub decided : AuditDecision → State → Run
  decided d s = elim d.decision [
    | auto_fixed ↦
        let current = or_amount s.bank_amount s.clear_amount in
        if same_amounts current s.candidate_amount
        then conclude "L1" d s
        else mismatched current s.candidate_amount s
    | pending_human ↦ conclude "L1" d s
    | unresolved ↦ left_single d s
  ]

  -- The call of the agent that confirms the candidate.
  unfoldable pub fuzzy_request : State → AuditRequest
  fuzzy_request s = record (request w s) {
    error_type = "FUZZY_MATCH_CANDIDATE";
    exception_branch = some "BE-R007";
    match_candidate = true;
  }

  -- `_run_fuzzy_candidate_confirmation`
  unfoldable pub run_fuzzy : State → Run
  run_fuzzy s = unless (audit_escapes w l1 (fuzzy_request s) s) (
      let (d, mode, s') = audit_for_state w l1 (fuzzy_request s) s in
      if is_empty s'.rag_context || confidence_is_low d.confidence
      then conclude "HUMAN" (record (to_human d) { fallback_level = 0 }) s'
      else decided d s')
