-- ===== src/Reconcile/Batch.antt =====
-- services/reconciliation/flow.py, batch.py and types.py: the ledger rows and the counts of a batch,
-- for a call that streams to no client. The rows of the two logs, the trace and the ledger's
-- `ai_cleaned_json` are left out. The run of one item is an argument, as it is in the
-- code: what it ended with in this batch. Runs share the breaker, the cache and the limits, so that another
-- schedule may have other answers.
pub mod Writes
pub mod Order
use Prim.Native.String.{◌++◌ as ◌+++◌}
use bank_reconciliation_agen.Base.{
  ℕ, ◌+◌, ◌*◌, Bool, true, false, not, ◌||◌, String, Option, none, some, List, [], ◌∷◌, map, leb,
  ◌==◌, if◌then◌else◌, keep, length, str_eq,
}
use bank_reconciliation_agen.Base.Int.{ℤ, pos, magnitude}
use bank_reconciliation_agen.Base.Text.{contains}
use bank_reconciliation_agen.Amount.{Decimal, Money, nan, cents}
use bank_reconciliation_agen.Audit.{
  RagSearchItem, AuditDecision, pending_human, decision_text, validated,
}
use bank_reconciliation_agen.Reconcile.{MatchResult, is_fixed, or_empty}

-- The token counts of a row of `agent_logs`.
pub record LogRow : Type 0 where
  pub prompt_tokens : ℕ
  pub completion_tokens : ℕ
  pub cached : Bool

-- What `build_flow_bundle` reads of the state that a run leaves. `is_readable` says whether the items and the
-- response of the search validate, `RagSearchItem` and `RagSearchResponse`.
pub record Answer : Type 0 where
  pub is_readable : Bool
  pub rag_context : List RagSearchItem
  pub audit_decision : Option AuditDecision
  pub fallback_path : Option String
  pub agent_logs : List LogRow

-- How a run ends: with a state, one of AGENT_PROCESSING_ERRORS by its name, or another exception.
pub data WorkflowReply : Type 0 where
  answered : Answer → WorkflowReply
  agent_error : String → WorkflowReply
  other_error : WorkflowReply

-- The decision of `agent_error_workflow_state`.
abbrev pub error_decision : MatchResult → String → AuditDecision
error_decision r error_name = record {
  flow_id = r.flow_id;
  decision = pending_human;
  risk_level = "HIGH";
  reason = "AI 处理异常，自动转人工：" +++ error_name;
  ai_suggestion = "PENDING_HUMAN";
  evidence = [];
  confidence = 0;
  fallback_applied = true;
  fallback_level = 1;
  next_action = "PENDING_HUMAN";
  safety_policy_applied = false;
  raw_decision = none;
  raw_risk_level = none;
  safety_policy_reason = none;
}

-- `agent_error_workflow_state`
unfoldable pub agent_error_workflow_state : MatchResult → String → Answer
agent_error_workflow_state r error_name = record {
  is_readable = true;
  rag_context = [];
  audit_decision = some (error_decision r error_name);
  fallback_path = some "AI_ERROR->HUMAN";
  agent_logs = record { prompt_tokens = 0; completion_tokens = 0; cached = false } ∷ [];
}

-- `abs(amount)`
unfoldable pub abs_money : Money → Money
abs_money nan = nan
abs_money (cents z) = cents (pos (magnitude z))

-- `ledger_discrepancy_amount`
unfoldable pub ledger_discrepancy_amount : MatchResult → Money
unfolding abs_money
ledger_discrepancy_amount r = elim r.amount_diff [
  | some d ↦ abs_money d
  | none ↦ elim r.bank_amount [
    | some b ↦ b
    | none ↦ elim r.clear_amount [ some c ↦ c | none ↦ cents (pos 0) ]
  ]
]

-- `", ".join(item.chunk_id for item in items) or None`
unfoldable pub join_ids : List RagSearchItem → String
join_ids [] = ""
join_ids (i ∷ []) = i.chunk_id
join_ids (i ∷ j ∷ items) = i.chunk_id +++ (", " +++ join_ids (j ∷ items))

unfoldable pub or_none : String → Option String
or_none s = if str_eq s "" then none else some s

-- `LedgerRow` without the fields that only the database sets.
pub record LedgerRow : Type 0 where
  pub task_id : String
  pub flow_id : String
  pub error_type : String
  pub exception_branch : Option String
  pub bank_amount : Option Money
  pub clear_amount : Option Money
  pub discrepancy_amount : Money
  pub ai_audit_opinion : Option String
  pub ai_confidence : Option ℕ
  pub rag_source : Option String
  pub fallback_path : Option String
  pub handle_status : String

-- `ReconciliationFlowBundle`
pub record FlowBundle : Type 0 where
  pub ledger_row : LedgerRow
  pub prompt_tokens : ℕ
  pub completion_tokens : ℕ
  pub saved_prompt_tokens : ℕ
  pub saved_completion_tokens : ℕ
  pub fallback_l2_rows : ℕ
  pub fallback_l3_rows : ℕ
  pub stream_seq : ℕ

-- `sum(field(row) for row in rows)`
unfoldable pub sum {ℓ} : {A : Type ℓ} → (A → ℕ) → List A → ℕ
sum field [] = 0
sum field (row ∷ rows) = field row + sum field rows

-- `int(bool(path and level in path))`
unfoldable pub on_path : String → Option String → ℕ
on_path level none = 0
on_path level (some path) = if contains level path then 1 else 0

unfoldable pub ledger_row_of : String → MatchResult → Answer → AuditDecision → LedgerRow
unfolding ledger_discrepancy_amount join_ids or_none
ledger_row_of task r a d = record {
  task_id = task;
  flow_id = r.flow_id;
  error_type = or_empty r.error_type;
  exception_branch = r.exception_branch;
  bank_amount = r.bank_amount;
  clear_amount = r.clear_amount;
  discrepancy_amount = ledger_discrepancy_amount r;
  ai_audit_opinion = some d.reason;
  ai_confidence = some d.confidence;
  rag_source = or_none (join_ids a.rag_context);
  fallback_path = a.fallback_path;
  handle_status = decision_text d.decision;
}

abbrev pub is_nan : Money → Bool
is_nan nan = true
is_nan (cents z) = false

abbrev pub or_nan : Option Money → Bool
or_nan none = false
or_nan (some m) = is_nan m

-- The validation of `LedgerRow`: a `Decimal` field refuses NaN.
unfoldable pub row_fits : LedgerRow → Bool
row_fits row =
    not (or_nan row.bank_amount || or_nan row.clear_amount || is_nan row.discrepancy_amount)

unfoldable pub bundle_of : String → ℕ → MatchResult → Answer → AuditDecision → FlowBundle
unfolding sum on_path
bundle_of task stream_seq r a d =
    let consumed = keep (λ (l : LogRow). not l.cached) a.agent_logs in
    let saved = keep (λ (l : LogRow). l.cached) a.agent_logs in
    record {
      ledger_row = ledger_row_of task r a d;
      prompt_tokens = sum (λ (l : LogRow). l.prompt_tokens) consumed;
      completion_tokens = sum (λ (l : LogRow). l.completion_tokens) consumed;
      saved_prompt_tokens = sum (λ (l : LogRow). l.prompt_tokens) saved;
      saved_completion_tokens = sum (λ (l : LogRow). l.completion_tokens) saved;
      fallback_l2_rows = on_path "L2" a.fallback_path;
      fallback_l3_rows = on_path "L3" a.fallback_path;
      stream_seq = stream_seq;
    }

-- The state that the bundle is made of; none is an exception that leaves `build_flow_bundle`.
unfoldable pub answer_of : MatchResult → WorkflowReply → Option Answer
unfolding agent_error_workflow_state
answer_of r (answered a) = some a
answer_of r (agent_error error_name) = some (agent_error_workflow_state r error_name)
answer_of r other_error = none

-- The bundle of a decision that has validated, if the ledger's row does too.
unfoldable pub fitting_bundle :
    String → ℕ → MatchResult → Answer → AuditDecision → Option FlowBundle
unfolding bundle_of ledger_row_of row_fits
fitting_bundle task stream_seq_start r a d =
    if row_fits (ledger_row_of task r a d)
    then some (bundle_of task stream_seq_start r a d)
    else none

-- `build_flow_bundle` without an emitter: the evidence and the decision have to validate once more.
unfoldable pub build_flow_bundle :
    (MatchResult → WorkflowReply) → String → ℕ → MatchResult → Option FlowBundle
unfolding answer_of fitting_bundle
build_flow_bundle run_workflow task stream_seq_start r = elim (answer_of r (run_workflow r)) [
  | none ↦ none
  | some a ↦
      if a.is_readable
      then elim a.audit_decision [
        | none ↦ none
        | some d ↦ elim (validated d) [
          | none ↦ none
          | some valid ↦ fitting_bundle task stream_seq_start r a valid
        ]
      ]
      else none
]
