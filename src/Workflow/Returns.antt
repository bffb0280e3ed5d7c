-- ===== src/Workflow/Returns.antt =====
-- When a run of the workflow returns.
use bank_reconciliation_agen.Base.{◌≡◌, ◌≢◌, false, some}
use bank_reconciliation_agen.Amount.{nan}
use bank_reconciliation_agen.Audit.{AuditRequest}
use bank_reconciliation_agen.Workflow.States.{State, World, Stage, raised_read}

-- No amount of the item is NaN.
pub record IsNumeric (s : State) : Type 0 where
  pub of_diff : s.amount_diff ≢ some nan
  pub of_bank : s.bank_amount ≢ some nan
  pub of_clear : s.clear_amount ≢ some nan
  pub of_candidate : s.candidate_amount ≢ some nan

-- The calls that can let an exception through do not.
pub record IsCalm (w : World) : Type 0 where
  pub t1_read : w.t1 ≢ raised_read
  pub rules_read : w.rules ≢ raised_read
  pub cases_read : w.cases ≢ raised_read
  pub first_traces : w.first_trace_raises ≡ false
  pub second_traces : w.second_trace_raises ≡ false
  pub audits : (stage : Stage) (q : AuditRequest) → w.audit_raises stage q ≡ false
