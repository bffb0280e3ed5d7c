-- ===== src/Llm/Structured/Completions.antt =====
-- What a structured completion is worth: its value, and what its summary says.
use bank_reconciliation_agen.Base.{
  ℕ, ◌≡◌, refl, Bool, true, false, ◌⊎◌, inl, inr, String, Option, none, some, List, arith, is_some,
}
use bank_reconciliation_agen.Base.Dict.{sorted_set}
use bank_reconciliation_agen.Llm.{
  FailureType, invalid_json, schema_invalid, LlmResult, LlmCallError, Reply, replied, call_error,
  other_exception,
}
use bank_reconciliation_agen.Llm.Structured.{
  Usage, record_result, record_transport_failure, summary, Message, Parsed, valid, no_json,
  breaks_schema, Validated, Structured, completion, structured_error, uncaught, parse,
  transport_error, corrected, correct, initial, complete_structured, new_usage, conversation,
  correction_detail,
}

pub Parsed-cases :
    {V : Type 0} (p : Parsed V)
    → ((v : V) × (p ≡ valid v))
      ⊎ ((p ≡ no_json) ⊎ ((paths : List String) × (p ≡ breaks_schema paths)))
Parsed-cases (valid v) = inl (v, refl)
Parsed-cases no_json = inr (inl refl)
Parsed-cases (breaks_schema paths) = inr (inr (paths, refl))

Reply-cases :
    (r : Reply)
    → ((a : LlmResult) × (r ≡ replied a))
      ⊎ (((e : LlmCallError) × (r ≡ call_error e)) ⊎ (r ≡ other_exception))
Reply-cases (replied a) = inl (a, refl)
Reply-cases (call_error e) = inr (inl (e, refl))
Reply-cases other_exception = inr (inr refl)

abbrev pub is_valid : {V : Type 0} → Parsed V → Bool
is_valid (valid v) = true
is_valid _ = false

module _ {V : Type 0} {Json : Type 0} (json_loads : String → Option Json)
    (model_validate : Json → Validated V) (provider : ℕ → List Message → Reply) where
  abbrev parses : String → Parsed V
  parses = parse json_loads model_validate provider

  -- The last result does not parse, if there was one.
  abbrev pub IsUseless : Option LlmResult → Type 0
  IsUseless none = Unit
  IsUseless (some r) = is_valid (parses r.text) ≡ false

  -- A completion's value is what its last text parses to, and its summary shows no failure and a repair
  -- exactly if one was tried. An error's last text does not parse, and its summary shows a failure
  -- with a reason, and neither a repair nor a recovery.
  abbrev pub IsSound : Structured V → Type 0
  IsSound (completion v r s) =
      (parses r.text ≡ valid v)
      × (s.final_failure_type ≡ none)
      × (s.fallback_reason ≡ none)
      × (s.structured_repair_succeeded ≡ s.structured_repair_attempted)
  IsSound (structured_error s last_result) =
      IsUseless last_result
      × (is_some s.final_failure_type ≡ true)
      × (is_some s.fallback_reason ≡ true)
      × (s.structured_repair_succeeded ≡ false)
      × (s.retry_recovered ≡ false)
  IsSound uncaught = Unit

  corrected-IsSound :
      (u : Usage) (r : LlmResult)
      → u.structured_repair_attempted ≡ true
      → u.structured_repair_succeeded ≡ false
      → IsSound (corrected json_loads model_validate provider u r)
  unfolding corrected record_result summary
  corrected-IsSound u r tried failed = elim (Parsed-cases (parses r.text)) [
    | inl (v, e) ↦ rw (corrected, e) (e, refl, refl, ground arith)
    | inr (inl e) ↦ rw (corrected, e) (rw e refl, refl, refl, ground arith, refl)
    | inr (inr (paths, e)) ↦ rw (corrected, e) (rw e refl, refl, refl, ground arith, refl)
  ]

  transport_error-IsSound :
      (e : LlmCallError) (last_result : Option LlmResult) (u : Usage)
      → u.structured_repair_succeeded ≡ false
      → IsUseless last_result
      → IsSound (transport_error json_loads model_validate provider e last_result u)
  unfolding transport_error record_transport_failure summary
  transport_error-IsSound e last_result u failed useless = (useless, refl, refl, failed, refl)

  correct-IsSound :
      (messages : List Message) (r : LlmResult) (failure : FailureType) (detail : String)
      (u : Usage)
      → u.structured_repair_succeeded ≡ false
      → is_valid (parses r.text) ≡ false
      → IsSound (correct json_loads model_validate provider messages r failure detail u)
  unfolding correct
  correct-IsSound messages r failure detail u failed useless =
      elim (Reply-cases (provider 2 (conversation messages r failure detail))) [
        | inl (second, e) ↦ rw (correct, e) (corrected-IsSound _ second refl failed)
        | inr (inl (x, e)) ↦
            rw (correct, e)
              (transport_error-IsSound x (some r) (record u { structured_repair_attempted = true })
                failed useless)
        | inr (inr e) ↦ rw (correct, e) tt
      ]

  unrepaired : (r : LlmResult) → (record_result r new_usage).structured_repair_succeeded ≡ false
  unfolding record_result
  unrepaired r = ground arith

  initial-IsSound :
      (messages : List Message) (r : LlmResult)
      → IsSound (initial json_loads model_validate provider messages r)
  unfolding initial record_result summary
  initial-IsSound messages r = elim (Parsed-cases (parses r.text)) [
    | inl (v, e) ↦ rw (initial, e) (e, refl, refl, ground arith)
    | inr (inl e) ↦
        rw (initial, e)
          (correct-IsSound messages r invalid_json "输出不是合法 JSON" (record_result r new_usage)
            (unrepaired r) (rw e refl))
    | inr (inr (paths, e)) ↦
        rw (initial, e)
          (correct-IsSound messages r schema_invalid (correction_detail (sorted_set paths))
            (record_result r new_usage) (unrepaired r) (rw e refl))
  ]

  -- Whatever the provider answers to its two calls, a completion's value is what its last text parses to, with
  -- a summary that shows no failure, and a repair that succeeded exactly if one was tried; an error comes
  -- with a last text that does not parse, if any, and a summary that shows a failure, its reason, and
  -- neither a repair that succeeded nor a retry that recovered.
  pub complete_structured-IsSound :
      (messages : List Message)
      → IsSound (complete_structured json_loads model_validate provider messages)
  unfolding complete_structured
  complete_structured-IsSound messages = elim (Reply-cases (provider 1 messages)) [
    | inl (r, e) ↦ rw (complete_structured, e) (initial-IsSound messages r)
    | inr (inl (x, e)) ↦
        rw (complete_structured, e) (transport_error-IsSound x none new_usage refl tt)
    | inr (inr e) ↦ rw (complete_structured, e) tt
  ]
