-- ===== src/Llm/Cache.antt =====
-- core/llm/cache.py: `CachingLLMProvider.complete` around one call of an inner provider. The digest that
-- is the key of a request, and whether each statement of Redis raises a RedisError, are arguments. A
-- stored value is what was stored: the time to live shows as keys that are gone. The log is left out.
pub mod Answers
use bank_reconciliation_agen.Base.{
  ℕ, ◌+◌, Bool, true, false, ◌||◌, String, Option, none, some, List, [], ◌∷◌, if◌then◌else◌, str_eq,
}
use bank_reconciliation_agen.Base.Dict.{Dict, get, put}
use bank_reconciliation_agen.Llm.{
  LlmResult, LlmCallError, Reply, replied, call_error, other_exception,
}

-- The fields and counters of `CachingLLMProvider`, and the values in Redis by their keys.
pub record CachingProvider : Type 0 where
  pub stored : Dict LlmResult
  pub hits : ℕ
  pub misses : ℕ
  pub saved_prompt_tokens : ℕ
  pub saved_completion_tokens : ℕ
  pub degraded_count : ℕ

-- The statements of Redis that raise a RedisError in one call.
pub record Faults : Type 0 where
  pub get_fails : Bool
  pub setex_fails : Bool
  pub delete_fails : Bool

-- `response_validator is None or response_validator(text)`
abbrev pub passes : Option (String → Bool) → String → Bool
passes none text = true
passes (some validate) text = validate text

unfoldable pub without : String → Dict LlmResult → Dict LlmResult
without k [] = []
without k ((j, v) ∷ d) = let rest = without k d in if str_eq j k then rest else (j, v) ∷ rest

unfoldable pub log_degraded : CachingProvider → CachingProvider
log_degraded p = record p { degraded_count = p.degraded_count + 1 }

-- `_evict_invalid`
unfoldable pub evict_invalid : Bool → String → CachingProvider → CachingProvider
unfolding without log_degraded
evict_invalid delete_fails key p =
    if delete_fails then log_degraded p else record p { stored = without key p.stored }

-- `_store`
unfoldable pub store : Bool → String → LlmResult → CachingProvider → CachingProvider
unfolding put log_degraded
store setex_fails key result p =
    if setex_fails
    then log_degraded p
    else record p { stored = put key (record result { attempts = [] }) p.stored }

-- `_complete_inner`
unfoldable pub complete_inner : Reply → Reply
complete_inner (replied result) = replied (record result { cached = false })
complete_inner (call_error e) = call_error e
complete_inner other_exception = other_exception

-- What follows a miss: the inner provider's reply, stored if it passes.
unfoldable pub after_miss :
    Faults → String → Option (String → Bool) → Reply → CachingProvider → Reply × CachingProvider
unfolding store
after_miss faults key validator (replied result) p = (
  replied result,
  if passes validator result.text then store faults.setex_fails key result p else p,
)
after_miss faults key validator (call_error e) p = (call_error e, p)
after_miss faults key validator other_exception p = (other_exception, p)

unfoldable pub miss :
    Faults → String → Option (String → Bool) → Reply → CachingProvider → Reply × CachingProvider
unfolding after_miss complete_inner
miss faults key validator inner p =
    after_miss faults key validator (complete_inner inner) (record p { misses = p.misses + 1 })

-- `complete`, where the inner provider would answer `inner`.
unfoldable pub caching_complete :
    Faults → String → Option (String → Bool) → Reply → CachingProvider → Reply × CachingProvider
unfolding miss evict_invalid complete_inner log_degraded get
caching_complete faults key validator inner p =
    if faults.get_fails then (complete_inner inner, log_degraded p) else elim (get key p.stored) [
      | none ↦ miss faults key validator inner p
      | some value ↦
          if passes validator value.text
          then (
            replied (record value { cached = true }),
            record p {
              hits = p.hits + 1;
              saved_prompt_tokens = p.saved_prompt_tokens + value.prompt_tokens;
              saved_completion_tokens = p.saved_completion_tokens + value.completion_tokens;
            },
          )
          else miss faults key validator inner (evict_invalid faults.delete_fails key p)
    ]
