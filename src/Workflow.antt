-- ===== src/Workflow.antt =====
-- services/workflow/runner.py, decision.py and tools.py: `run_item`, the workflow of one exception.
-- Tools, agents and the trace agent answer through a `World`; log rows, stream rows and trace spans
-- are effects that no branch reads, and are left out, and so is the extraction of reversal hints,
-- which only fills a field for display.
pub mod States
pub mod Audits
pub mod Fuzzy
pub mod Guard
pub mod Runs
pub mod Closed
pub mod Matches
pub mod Raises
pub mod Returns
mod Tests
use bank_reconciliation_agen.Base.{
  ℕ, Bool, true, false, not, ◌&&◌, ◌||◌, String, Option, none, some, List, [], ◌∷◌, str_eq,
  if◌then◌else◌, is_none,
}
use bank_reconciliation_agen.Base.Int.{pos, magnitude, eq_ℤ}
use bank_reconciliation_agen.Amount.{Money, nan, cents, money_eq, money_sub}
use bank_reconciliation_agen.Audit.{
  Decision, auto_fixed, pending_human, unresolved, AuditDecision, AuditRequest, RagSearchItem,
  human, decide, best_of, is_empty, is_auto_fixed,
}
use bank_reconciliation_agen.Audit.Hooks.{
  confidence_is_low, l1_requires_l2, mark_fallback, constraint_hook, guarded,
}
use bank_reconciliation_agen.Workflow.States.{
  unless, State, ToolReply, succeeded, emptied, failed, raised_read, TraceReply, traced,
  trace_error, Stage, l1, l2, l3, World, Run, finished, raised, Mode, llm, deterministic, is_text,
  or_empty, schema_failed, finish_with, tool_fail_closed, fail_closed,
}
use bank_reconciliation_agen.Workflow.Audits.{
  apply_post_hooks, conclude, audit_for_state, request, run_audit,
}
use bank_reconciliation_agen.Workflow.Fuzzy.{run_fuzzy}

-- `exception_branch in TRACE_BRANCHES and not (...)`
unfoldable pub needs_trace : State → Bool
needs_trace s =
    is_text "BC-R003" s.exception_branch
    || ((is_text "BE-R005" s.exception_branch || is_text "BE-R006" s.exception_branch)
        && not (str_eq s.scenario_type "BANK_ENTERPRISE"))

module _ (w : World) where
  -- From the call of `search_rules` on.
  unfoldable pub search_step : State → Run
  search_step s = elim w.rules [
    | raised_read ↦ raised
    | failed reason ↦ finished (tool_fail_closed (some reason) s)
    | emptied ↦ finished (tool_fail_closed none s)
    | succeeded items ↦
        let s' : State = record s { rag_context = items } in
        if is_text "FUZZY_MATCH_CANDIDATE" s'.error_type then run_fuzzy w s' else run_audit w s'
  ]

  unfoldable pub trace_step : State → Run
  trace_step s =
      if needs_trace s
      then unless w.first_trace_raises (elim w.first_trace [
        | trace_error reason ↦ finished (fail_closed reason s)
        | traced confidence ↦ search_step s
      ])
      else search_step s

  -- `run_item`
  unfoldable pub run_item : State → Run
  run_item s =
      if is_text "BC-R003" s.exception_branch
      then elim w.t1 [
        | raised_read ↦ raised
        | failed reason ↦ finished (tool_fail_closed (some reason) s)
        | emptied ↦ trace_step s
        | succeeded u ↦ trace_step s
      ]
      else trace_step s
