-- ===== src/Llm/Cache/Answers.antt =====
-- The caching provider against the inner one: whatever happens to Redis, it gives no other answers.
use bank_reconciliation_agen.Base.{
  ◌+◌, ◌≡◌, refl, ◌∙◌, sym, ap, Bool, true, false, inl, inr, String, Option, none, some, List, [],
  ◌∷◌, arith, str_eq, eq_iff, Bool-cases, Option-cases, some-injective, All,
}
use bank_reconciliation_agen.Base.Dict.{Dict, get, get-put}
use bank_reconciliation_agen.Llm.{LlmResult, Reply, replied, call_error, other_exception}
use bank_reconciliation_agen.Llm.Cache.{
  CachingProvider, Faults, passes, without, log_degraded, evict_invalid, store, complete_inner,
  after_miss, miss, caching_complete,
}

-- A call of the caching provider: the key and validator of the request, what fails, and what the inner
-- provider would answer.
pub record Call : Type 0 where
  pub key : String
  pub validator : Option (String → Bool)
  pub faults : Faults
  pub inner : Reply

abbrev pub run_call : Call → CachingProvider → Reply × CachingProvider
run_call c p = caching_complete c.faults c.key c.validator c.inner p

-- A call, or a key that runs out.
pub data Event : Type 0 where
  called : Call → Event
  expired : String → Event

-- The replies to the calls, each with the key of its request.
pub run_events : CachingProvider → List Event → List (String × Reply)
run_events p [] = []
run_events p (called c ∷ events) = (c.key, (run_call c p).0) ∷ run_events (run_call c p).1 events
run_events p (expired key ∷ events) = run_events (record p { stored = without key p.stored }) events

module _ (IsAnswer : String → String → Type 0) where
  -- A reply with a text is an answer to the request.
  abbrev pub Answers : String → Reply → Type 0
  Answers key (replied r) = IsAnswer key r.text
  Answers key (call_error e) = Unit
  Answers key other_exception = Unit

  abbrev pub IsAnswered : Event → Type 0
  IsAnswered (called c) = Answers c.key c.inner
  IsAnswered (expired key) = Unit

  -- Every stored text is an answer to the request of its key.
  abbrev pub IsFaithful : CachingProvider → Type 0
  IsFaithful p = (k : String) (r : LlmResult) → get k p.stored ≡ some r → IsAnswer k r.text

  IsFaithful-store :
      (fails : Bool) (key : String) (r : LlmResult) (p : CachingProvider)
      → IsFaithful p
      → IsAnswer key r.text
      → IsFaithful (store fails key r p)
  unfolding store log_degraded
  IsFaithful-store true key r p faithful answer k s e = faithful k s e
  IsFaithful-store false key r p faithful answer k s e = elim (Bool-cases (str_eq key k)) [
    | inl same ↦
        let there : some (record r { attempts = [] }) ≡ some s =
          sym (get-put key k (record r { attempts = [] }) p.stored ∙ rw same refl) ∙ e in
        rw (← ap (λ (q : LlmResult). q.text) (some-injective _ _ there), ← (eq_iff key k).0 same)
          answer
    | inr other ↦
        faithful k s (sym (get-put key k (record r { attempts = [] }) p.stored ∙ rw other refl) ∙ e)
  ]

  get-without :
      (k key : String) (d : Dict LlmResult) (r : LlmResult)
      → get k (without key d) ≡ some r
      → get k d ≡ some r
  unfolding get without
  get-without k key [] r e = e
  get-without k key ((j, v) ∷ d) r e =
      ground (arith, get-without k key d r, eq_iff j k, eq_iff j key, get_apart k key d)
    where
      get_apart :
          (k key : String) (d : Dict LlmResult) → str_eq key k ≡ true → get k (without key d) ≡ none
      get_apart k key [] e = refl
      get_apart k key ((j, v) ∷ d) e =
          ground (arith, get_apart k key d e, eq_iff j k, eq_iff j key, eq_iff key k)

  IsFaithful-evict_invalid :
      (fails : Bool) (key : String) (p : CachingProvider)
      → IsFaithful p
      → IsFaithful (evict_invalid fails key p)
  unfolding evict_invalid log_degraded
  IsFaithful-evict_invalid true key p faithful k s e = faithful k s e
  IsFaithful-evict_invalid false key p faithful k s e =
      faithful k s (get-without k key p.stored s e)

  miss-IsFaithful :
      (faults : Faults) (key : String) (validator : Option (String → Bool)) (inner : Reply)
      (p : CachingProvider)
      → IsFaithful p
      → Answers key inner
      → Answers key (miss faults key validator inner p).0
        × IsFaithful (miss faults key validator inner p).1
  unfolding miss after_miss complete_inner
  miss-IsFaithful faults key validator (call_error x) p faithful answer = (tt, faithful)
  miss-IsFaithful faults key validator other_exception p faithful answer = (tt, faithful)
  miss-IsFaithful faults key validator (replied r) p faithful answer =
      elim (Bool-cases (passes validator r.text)) [
        | inl e ↦ rw e (
          answer,
          IsFaithful-store faults.setex_fails key (record r { cached = false })
              (record p { misses = p.misses + 1 }) faithful answer,
        )
        | inr e ↦ rw e (answer, faithful)
      ]

  inner-Answers :
      (key : String) (inner : Reply) → Answers key inner → Answers key (complete_inner inner)
  unfolding complete_inner
  inner-Answers key (replied r) answer = answer
  inner-Answers key (call_error x) answer = tt
  inner-Answers key other_exception answer = tt

  caching_complete-IsFaithful :
      (c : Call) (p : CachingProvider)
      → IsFaithful p
      → Answers c.key c.inner
      → Answers c.key (run_call c p).0 × IsFaithful (run_call c p).1
  unfolding caching_complete log_degraded
  caching_complete-IsFaithful c p faithful answer = elim (Bool-cases c.faults.get_fails) [
    | inl e ↦ rw (caching_complete, e) (inner-Answers c.key c.inner answer, faithful)
    | inr e ↦ elim (Option-cases (get c.key p.stored)) [
      | inl n ↦
          rw (caching_complete, e, n)
            (miss-IsFaithful c.faults c.key c.validator c.inner p faithful answer)
      | inr (v, n) ↦ elim (Bool-cases (passes c.validator v.text)) [
        | inl k ↦ rw (caching_complete, e, n, k) (faithful c.key v n, faithful)
        | inr k ↦
            rw (caching_complete, e, n, k)
              (miss-IsFaithful c.faults c.key c.validator c.inner _
                (IsFaithful-evict_invalid c.faults.delete_fails c.key p faithful) answer)
      ]
    ]
  ]

  -- In a sequence of calls through which keys run out, whatever statements of Redis fail: where the cache
  -- holds only answers to the requests of its keys, and the inner provider answers each request that
  -- it is given, every reply with a text is an answer to its request, from the cache or not.
  pub run_events-Answers :
      (p : CachingProvider) (events : List Event)
      → IsFaithful p
      → All IsAnswered events
      → All (λ o. Answers o.0 o.1) (run_events p events)
  unfolding run_events
  run_events-Answers p [] faithful answered = tt
  run_events-Answers p (called c ∷ events) faithful answered =
      let (answer, after) = caching_complete-IsFaithful c p faithful answered.0 in
      (answer, run_events-Answers (run_call c p).1 events after answered.1)
  run_events-Answers p (expired key ∷ events) faithful answered =
      run_events-Answers (record p { stored = without key p.stored }) events
        (λ k s e. faithful k s (get-without k key p.stored s e)) answered.1

replied-injective : (a b : LlmResult) → replied a ≡ replied b → a ≡ b
replied-injective a b e =
    ap (λ o. elim o [ replied r ↦ r | call_error x ↦ a | other_exception ↦ a ]) e

inner-cached : (inner : Reply) (r : LlmResult) → complete_inner inner ≡ replied r → r.cached ≡ false
unfolding complete_inner
inner-cached (replied s) r e = ap (λ (q : LlmResult). q.cached) (sym (replied-injective _ _ e))
inner-cached (call_error x) r e = absurd (ground arith)
inner-cached other_exception r e = absurd (ground arith)

miss-cached :
    (faults : Faults) (key : String) (validator : Option (String → Bool)) (inner : Reply)
    (p : CachingProvider) (r : LlmResult)
    → (miss faults key validator inner p).0 ≡ replied r
    → r.cached ≡ false
unfolding miss after_miss complete_inner
miss-cached faults key validator (replied s) p r e =
    ap (λ (q : LlmResult). q.cached) (sym (replied-injective _ _ e))
miss-cached faults key validator (call_error x) p r e = absurd (ground arith)
miss-cached faults key validator other_exception p r e = absurd (ground arith)

-- A reply out of the cache passes the request's validator, and repeats the stored result.
pub cached-passes :
    (c : Call) (p : CachingProvider) (r : LlmResult)
    → (run_call c p).0 ≡ replied r
    → r.cached ≡ true
    → (passes c.validator r.text ≡ true)
      × (stored : LlmResult) × (get c.key p.stored ≡ some stored)
      × (r ≡ record stored { cached = true })
unfolding caching_complete
cached-passes c p r e cached = elim (Bool-cases c.faults.get_fails) [
  | inl b ↦
      let q : run_call c p ≡ (complete_inner c.inner, log_degraded p) =
        rw (caching_complete, b) refl in
      absurd (clash (inner-cached c.inner r (sym (ap (λ o. o.0) q) ∙ e)))
  | inr b ↦ elim (Option-cases (get c.key p.stored)) [
    | inl n ↦
        let q : run_call c p ≡ miss c.faults c.key c.validator c.inner p =
          rw (caching_complete, b, n) refl in
        absurd
          (clash (miss-cached c.faults c.key c.validator c.inner p r (sym (ap (λ o. o.0) q) ∙ e)))
    | inr (v, n) ↦ elim (Bool-cases (passes c.validator v.text)) [
      | inr k ↦
          let evicted = evict_invalid c.faults.delete_fails c.key p in
          let q : run_call c p ≡ miss c.faults c.key c.validator c.inner evicted =
            rw (caching_complete, b, n, k) refl in
          absurd (
            clash (
              miss-cached c.faults c.key c.validator c.inner evicted r (sym (ap (λ o. o.0) q) ∙ e)))
      | inl k ↦
          let q : (run_call c p).0 ≡ replied (record v { cached = true }) =
            rw (caching_complete, b, n, k) refl in
          let same : record v { cached = true } ≡ r = replied-injective _ _ (sym q ∙ e) in
          (rw (← same) k, v, n, sym same)
    ]
  ]
]
  where
    clash : r.cached ≡ false → ⊥
    clash fresh = cc
