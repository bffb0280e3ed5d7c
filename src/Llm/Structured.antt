-- ===== src/Llm/Structured.antt =====
-- core/llm/structured.py: a value of a schema from a model's text, with one correction. The log is left
-- out. `json.loads` and the schema's `model_validate` are arguments, so is the provider.
pub mod Completions
use Prim.Native.String.{◌++◌ as ◌+++◌}
use bank_reconciliation_agen.Base.{
  ℕ, ◌+◌, max, Bool, true, false, ◌&&◌, String, Option, none, some, List, [], ◌∷◌, ◌++◌, ltb,
  if◌then◌else◌, length, is_some,
}
use bank_reconciliation_agen.Base.Dict.{sorted_set}
use bank_reconciliation_agen.Llm.{
  FailureType, timeout, rate_limited, provider_5xx, auth_config, invalid_json, schema_invalid,
  LlmResult, LlmCallError, Reply, replied, call_error, other_exception,
}

-- `LLMCallSummary`
pub record LlmCallSummary : Type 0 where
  pub transport_attempts : ℕ
  pub retry_recovered : Bool
  pub structured_repair_attempted : Bool
  pub structured_repair_succeeded : Bool
  pub prompt_tokens : ℕ
  pub completion_tokens : ℕ
  pub cached_calls : ℕ
  pub final_failure_type : Option FailureType
  pub fallback_reason : Option String

-- `_Usage`
pub record Usage : Type 0 where
  pub transport_attempts : ℕ
  pub logical_calls : ℕ
  pub prompt_tokens : ℕ
  pub completion_tokens : ℕ
  pub cached_calls : ℕ
  pub structured_repair_attempted : Bool
  pub structured_repair_succeeded : Bool

abbrev pub new_usage : Usage
new_usage = record {
  transport_attempts = 0;
  logical_calls = 0;
  prompt_tokens = 0;
  completion_tokens = 0;
  cached_calls = 0;
  structured_repair_attempted = false;
  structured_repair_succeeded = false;
}

-- `_Usage.record_result`
unfoldable pub record_result : LlmResult → Usage → Usage
record_result result u =
    if result.cached
    then record u { logical_calls = u.logical_calls + 1; cached_calls = u.cached_calls + 1 }
    else record u {
      logical_calls = u.logical_calls + 1;
      transport_attempts = u.transport_attempts + max 1 (length result.attempts);
      prompt_tokens = u.prompt_tokens + result.prompt_tokens;
      completion_tokens = u.completion_tokens + result.completion_tokens;
    }

-- `_Usage.record_transport_failure`
unfoldable pub record_transport_failure : LlmCallError → Usage → Usage
record_transport_failure e u = record u {
  transport_attempts = u.transport_attempts + max 1 (length e.attempts);
}

-- `_Usage.summary`
unfoldable pub summary : Bool → Option FailureType → Option String → Usage → LlmCallSummary
summary success final_failure_type fallback_reason u = record {
  transport_attempts = u.transport_attempts;
  retry_recovered = success && ltb u.logical_calls u.transport_attempts;
  structured_repair_attempted = u.structured_repair_attempted;
  structured_repair_succeeded = u.structured_repair_succeeded;
  prompt_tokens = u.prompt_tokens;
  completion_tokens = u.completion_tokens;
  cached_calls = u.cached_calls;
  final_failure_type = final_failure_type;
  fallback_reason = fallback_reason;
}

pub record Message : Type 0 where
  pub role : String
  pub content : String

-- What `_parse` makes of a text; a text that breaks the schema comes with the paths of its errors.
pub data Parsed (V : Type 0) : Type 0 where
  valid : V → Parsed V
  no_json : Parsed V
  breaks_schema : List String → Parsed V

-- What `model_validate` gives.
pub data Validated (V : Type 0) : Type 0 where
  accepted : V → Validated V
  rejected : List String → Validated V

-- `StructuredCompletion`, a StructuredLLMError, or another exception of the provider.
pub data Structured (V : Type 0) : Type 0 where
  completion : V → LlmResult → LlmCallSummary → Structured V
  structured_error : LlmCallSummary → Option LlmResult → Structured V
  uncaught : Structured V

-- `", ".join(texts)`
unfoldable pub join_texts : List String → String
join_texts [] = ""
join_texts (s ∷ []) = s
join_texts (s ∷ t ∷ texts) = s +++ (", " +++ join_texts (t ∷ texts))

abbrev failure_name : FailureType → String
failure_name timeout = "timeout"
failure_name rate_limited = "rate_limited"
failure_name provider_5xx = "provider_5xx"
failure_name auth_config = "auth_config"
failure_name invalid_json = "invalid_json"
failure_name schema_invalid = "schema_invalid"

unfoldable pub correction_detail : List String → String
unfolding join_texts
correction_detail [] = "输出结构不符合要求"
correction_detail (p ∷ paths) = "字段校验失败：" +++ join_texts (p ∷ paths)

-- `_correction_prompt`
unfoldable pub correction_prompt : FailureType → String → String
correction_prompt failure detail =
    "上一次输出无法使用，失败类型："
    +++ (failure_name failure +++ ("。" +++ (detail +++ "。请只返回修正后的 JSON 对象，不要包含解释、注释或额外文本。")))

-- The conversation with the first answer and the correction behind it.
unfoldable pub conversation : List Message → LlmResult → FailureType → String → List Message
unfolding correction_prompt
conversation messages result failure detail =
    messages
    ++ record { role = "assistant"; content = result.text }
      ∷ record { role = "user"; content = correction_prompt failure detail }
      ∷ []

module _ {V : Type 0} {Json : Type 0} (json_loads : String → Option Json)
    (model_validate : Json → Validated V) (provider : ℕ → List Message → Reply) where
  -- `_parse`
  unfoldable pub parse : String → Parsed V
  parse text = elim (json_loads text) [
    | none ↦ no_json
    | some loaded ↦ elim (model_validate loaded) [
      | accepted v ↦ valid v
      | rejected paths ↦ breaks_schema paths
    ]
  ]

  -- The StructuredLLMError of `_invoke`.
  unfoldable pub transport_error : LlmCallError → Option LlmResult → Usage → Structured V
  unfolding record_transport_failure summary
  transport_error e last_result u =
      structured_error
        (summary false (some e.failure_type)
          (some (elim e.fallback_reason [ none ↦ "transport_failure" | some reason ↦ reason ]))
          (record_transport_failure e u))
        last_result

  -- The correction's answer.
  unfoldable pub corrected : Usage → LlmResult → Structured V
  unfolding parse record_result summary
  corrected u result =
      let used = record_result result u in
      elim (parse result.text) [
        | valid v ↦
            completion v result
              (summary true none none (record used { structured_repair_succeeded = true }))
        | no_json ↦
            structured_error
              (summary false (some invalid_json) (some "structured_output_invalid") used)
              (some result)
        | breaks_schema paths ↦
            structured_error
              (summary false (some schema_invalid) (some "structured_output_invalid") used)
              (some result)
      ]

  -- The second call.
  unfoldable pub correct : List Message → LlmResult → FailureType → String → Usage → Structured V
  unfolding corrected transport_error conversation
  correct messages result failure detail used =
      let u : Usage = record used { structured_repair_attempted = true } in
      elim (provider 2 (conversation messages result failure detail)) [
        | replied second ↦ corrected u second
        | call_error e ↦ transport_error e (some result) u
        | other_exception ↦ uncaught
      ]

  -- `complete_structured`, after the first answer.
  unfoldable pub initial : List Message → LlmResult → Structured V
  unfolding correct parse record_result correction_detail sorted_set
  initial messages result =
      let used = record_result result new_usage in
      elim (parse result.text) [
        | valid v ↦ completion v result (summary true none none used)
        | no_json ↦ correct messages result invalid_json "输出不是合法 JSON" used
        | breaks_schema paths ↦
            correct messages result schema_invalid (correction_detail (sorted_set paths)) used
      ]

  -- `complete_structured`
  unfoldable pub complete_structured : List Message → Structured V
  unfolding initial transport_error
  complete_structured messages = elim (provider 1 messages) [
    | replied result ↦ initial messages result
    | call_error e ↦ transport_error e none new_usage
    | other_exception ↦ uncaught
  ]
