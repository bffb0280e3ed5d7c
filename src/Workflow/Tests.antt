-- ===== src/Workflow/Tests.antt =====
-- Runs of the workflow on concrete items, and its theorems at concrete inputs.
use bank_reconciliation_agen.Base.{false, ◌≡◌, refl, true, some, none, String, [], ◌∷◌}
use bank_reconciliation_agen.Base.Int.{pos}
use bank_reconciliation_agen.Amount.{cents, money_eq}
use bank_reconciliation_agen.Audit.{auto_fixed, AuditDecision, RagSearchItem, human}
use bank_reconciliation_agen.Audit.Hooks.{confidence_is_low, constraint_hook, guarded}
use bank_reconciliation_agen.Workflow.States.{
  unless, State, World, Run, finished, raised, succeeded, emptied, failed, traced, trace_error,
}
use bank_reconciliation_agen.Workflow.Audits.{
  audit_escapes, apply_post_hooks, audit_for_state, audit_once, judged, rule_first, conclude,
}
use bank_reconciliation_agen.Workflow.Fuzzy.{
  same_amounts, or_amount, run_fuzzy, decided, fuzzy_request,
}
use bank_reconciliation_agen.Workflow.{run_item, trace_step, search_step, needs_trace}
use bank_reconciliation_agen.Workflow.Guard.{On, IsGuarded}
use bank_reconciliation_agen.Workflow.Runs.{run_item-IsGuarded}
use bank_reconciliation_agen.Workflow.Closed.{IsHeld, run_item-no_rules}
use bank_reconciliation_agen.Workflow.Matches.{run_item-same_amounts}

abbrev rule : RagSearchItem
rule = record { chunk_id = "R1"; score = 9000 }

-- The model is sure of a fix.
abbrev sure : AuditDecision
sure = record (human "F1" "same transfer" (rule ∷ [])) {
  decision = auto_fixed;
  risk_level = "LOW";
  ai_suggestion = "APPROVED_MATCH";
  confidence = 9500;
  next_action = "AUTO_FIXED";
}

abbrev world : World
world = record {
  t1 = emptied;
  rules = succeeded (rule ∷ []);
  cases = emptied;
  first_trace_raises = false;
  second_trace_raises = false;
  audit_raises = λ stage q. false;
  first_trace = traced 9000;
  second_trace = trace_error none;
  audit = λ stage q. some sure;
  show = λ m. "";
}

abbrev world_without_rules : World
world_without_rules = record world { rules = failed "RAG_CIRCUIT_OPEN" }

-- A fuzzy match of equal amounts.
abbrev fuzzy : State
fuzzy = record {
  flow_id = "F1";
  scenario_type = "BANK_ENTERPRISE";
  error_type = some "FUZZY_MATCH_CANDIDATE";
  exception_branch = some "BE-R007";
  bank_amount = some (cents (pos 2500));
  clear_amount = none;
  amount_diff = none;
  candidate_amount = some (cents (pos 2500));
  rag_context = [];
  audit_decision = none;
  confidence = none;
  fallback_level = 0;
  fallback_path = none;
  next_action = "";
  error_message = none;
}

-- An item whose amounts differ.
abbrev unequal : State
unequal = record fuzzy {
  error_type = some "AMOUNT_MISMATCH";
  exception_branch = some "BE-R002";
  amount_diff = some (cents (pos 100));
}

action_of : Run → String
action_of (finished s) = s.next_action
action_of raised = "raised"

fuzzy_fixed : action_of (run_item world fuzzy) ≡ "AUTO_FIXED"
unfolding run_item trace_step search_step needs_trace run_fuzzy decided action_of audit_for_state
    rule_first fuzzy_request audit_once judged confidence_is_low money_eq conclude apply_post_hooks
    constraint_hook guarded unless audit_escapes
fuzzy_fixed = refl

run_item-IsGuarded_example : On IsGuarded (run_item world fuzzy)
run_item-IsGuarded_example = run_item-IsGuarded world fuzzy

run_item-no_rules_example : On IsHeld (run_item world_without_rules fuzzy)
run_item-no_rules_example = run_item-no_rules world_without_rules fuzzy (λ items e. cc)

run_item-same_amounts_example :
    On
      (λ s'.
        s'.next_action ≡ "AUTO_FIXED"
        → same_amounts (or_amount fuzzy.bank_amount fuzzy.clear_amount) fuzzy.candidate_amount
          ≡ true)
      (run_item world fuzzy)
run_item-same_amounts_example = run_item-same_amounts world fuzzy refl refl
