-- ===== src/Workflow/States.antt =====
-- services/workflow/decision.py and tools.py: the state of one exception, what the tools and the
-- agents answer, and the early returns that leave it to a human.
use bank_reconciliation_agen.Base.{
  ◌≡◌, refl, ◌⊎◌, inl, inr, ℕ, Bool, true, false, String, Option, none, some, List, [], str_eq,
  if◌then◌else◌,
}
use bank_reconciliation_agen.Amount.{Money}
use bank_reconciliation_agen.Audit.{AuditDecision, AuditRequest, RagSearchItem, human}

-- The fields of `ReconciliationState` that the workflow decides by. Amounts are the decimals of the
-- texts in `math_result` and `fuzzy_candidate`.
pub record State : Type 0 where
  pub flow_id : String
  pub scenario_type : String
  pub error_type : Option String
  pub exception_branch : Option String
  pub bank_amount : Option Money
  pub clear_amount : Option Money
  pub amount_diff : Option Money
  pub candidate_amount : Option Money
  pub rag_context : List RagSearchItem
  pub audit_decision : Option AuditDecision
  pub confidence : Option ℕ
  pub fallback_level : ℕ
  pub fallback_path : Option String
  pub next_action : String
  pub error_message : Option String

-- A tool's result by its status, or an exception that the executor lets through.
pub data ToolReply {ℓ} (A : Type ℓ) : Type ℓ where
  succeeded : A → ToolReply A
  emptied : ToolReply A
  failed : String → ToolReply A
  raised_read : ToolReply A

-- The trace agent's confidence, or a TraceAgentError with the reason that its usage gives.
pub data TraceReply : Type 0 where
  traced : ℕ → TraceReply
  trace_error : Option String → TraceReply

pub ToolReply-cases {ℓ} :
    {A : Type ℓ} (r : ToolReply A)
    → ((a : A) × (r ≡ succeeded a))
      ⊎ ((r ≡ emptied) ⊎ (((reason : String) × (r ≡ failed reason)) ⊎ (r ≡ raised_read)))
ToolReply-cases (succeeded a) = inl (a, refl)
ToolReply-cases emptied = inr (inl refl)
ToolReply-cases (failed reason) = inr (inr (inl (reason, refl)))
ToolReply-cases raised_read = inr (inr (inr refl))

pub TraceReply-cases :
    (r : TraceReply)
    → ((confidence : ℕ) × (r ≡ traced confidence))
      ⊎ ((reason : Option String) × (r ≡ trace_error reason))
TraceReply-cases (traced confidence) = inl (confidence, refl)
TraceReply-cases (trace_error reason) = inr (reason, refl)

-- The three calls of the audit agent that one run may make.
pub data Stage : Type 0 where
  l1 l2 l3 : Stage

-- What the tools and agents answer. `audit` is `schema_hook(audit_agent.decide_with_llm(...))`, with
-- `none` for a SchemaValidationError; the fields in `raises` say whether a call lets another exception through.
-- `show` prints a decimal.
pub record World : Type 0 where
  pub t1 : ToolReply (Unit {0})
  pub rules : ToolReply (List RagSearchItem)
  pub cases : ToolReply ℕ
  pub first_trace : TraceReply
  pub second_trace : TraceReply
  pub first_trace_raises : Bool
  pub second_trace_raises : Bool
  pub audit : Stage → AuditRequest → Option AuditDecision
  pub audit_raises : Stage → AuditRequest → Bool
  pub show : Money → String

-- `run_item` returns the state, or raises.
pub data Run : Type 0 where
  finished : State → Run
  raised : Run

-- The rest of a run behind a call that may let an exception through.
unfoldable pub unless : Bool → Run → Run
unless true rest = raised
unless false rest = rest

pub data Mode : Type 0 where
  llm deterministic : Mode

abbrev pub is_text : String → Option String → Bool
is_text t none = false
is_text t (some s) = str_eq s t

abbrev pub or_empty : Option String → String
or_empty none = ""
or_empty (some s) = s

abbrev pub schema_failed : State → Bool
schema_failed s = is_text "schema validation failed" s.error_message

-- The four assignments of an early return.
unfoldable pub finish_with : String → AuditDecision → State → State
finish_with path d s = record s {
  audit_decision = some d;
  confidence = some d.confidence;
  fallback_level = d.fallback_level;
  fallback_path = some path;
  next_action = d.next_action;
}

-- `tool_fail_closed_item`
unfoldable pub tool_fail_closed : Option String → State → State
unfolding finish_with
tool_fail_closed reason s =
    let d : AuditDecision = record (human s.flow_id "关键证据缺失，自动转人工。" []) {
      fallback_applied = true;
    } in
    record (finish_with "HUMAN" d s) {
      error_message = elim reason [ none ↦ s.error_message | some r ↦ some r ];
    }

-- `fail_closed_item`
unfoldable pub fail_closed : Option String → State → State
unfolding finish_with
fail_closed reason s =
    let d : AuditDecision = record (human s.flow_id "AI 处理异常，自动转人工。" []) {
      fallback_applied = true;
      fallback_level = 1;
    } in
    record (finish_with "AI_ERROR->HUMAN" d s) {
      error_message = some (elim reason [
        | none ↦ "structured_output_invalid"
        | some r ↦ if str_eq r "" then "structured_output_invalid" else r
      ]);
    }
