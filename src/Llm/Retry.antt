-- ===== src/Llm/Retry.antt =====
-- What the retries of a call come to.
use bank_reconciliation_agen.Base.{
  ℕ, zero, suc, ◌+◌, ◌≤◌, ◌<◌, ◌≡◌, refl, sym, ap, ◌∙◌, subst, tests, Bool, true, false, ◌&&◌, List,
  [], ◌∷◌, arith, ltb, length, All, Bool-cases, inl, inr,
}
use bank_reconciliation_agen.Llm.{
  LlmAttemptRecord, Reply, replied, call_error, other_exception, renumber, RetryPolicy, backoff_of,
  Retried, round, retry_loop, retrying_complete,
}

-- A reply without its attempt records.
abbrev pub bare : Reply → Reply
bare (replied r) = replied (record r { attempts = [] })
bare (call_error e) = call_error (record e { attempts = [] })
bare other_exception = other_exception

abbrev pub is_retryable_error : Reply → Bool
is_retryable_error (replied r) = false
is_retryable_error (call_error e) = e.retryable
is_retryable_error other_exception = false

abbrev pub Numbered : ℕ → List LlmAttemptRecord → Type 0
Numbered n [] = Unit
Numbered n (r ∷ rs) = (r.physical_attempt ≡ n) × Numbered (suc n) rs

-- The records of a reply are numbered from 1.
abbrev pub HasNumbered : Reply → Type 0
HasNumbered (replied r) = Numbered 1 r.attempts
HasNumbered (call_error e) = Numbered 1 e.attempts
HasNumbered other_exception = Unit

-- The calls from the `first` on: the last of them is the reply, those before it failed with errors to
-- retry, a sleep of at most the greatest backoff follows each of those, and the last is such an error
-- only when no call is left.
pub record IsRetried (policy : RetryPolicy) (inner : ℕ → Reply) (first : ℕ) (r : Retried)
    : Type 0 where
  pub last : ℕ
  pub is_last : last ≡ first + length r.slept
  pub in_bounds : last ≤ policy.max_attempts
  pub is_reply : bare r.reply ≡ bare (inner last)
  pub is_numbered : HasNumbered r.reply
  pub earlier_failed : (k : ℕ) → first ≤ k → k < last → is_retryable_error (inner k) ≡ true
  pub gave_up : is_retryable_error (inner last) ≡ true → last ≡ policy.max_attempts
  pub short_sleeps : All (λ t. t ≤ policy.backoff_max_seconds) r.slept

renumber-Numbered : (n : ℕ) (rs : List LlmAttemptRecord) → Numbered n (renumber n rs)
unfolding renumber
renumber-Numbered n [] = tt
renumber-Numbered n (r ∷ rs) = (refl, renumber-Numbered (suc n) rs)

positive : (n : ℕ) → 1 ≤ n → (m : ℕ) × (n ≡ suc m)
positive zero h = absurd (omega (arith, h))
positive (suc m) h = (m, refl)

and_both : (a b : Bool) → (a && b) ≡ true → (a ≡ true) × (b ≡ true)
and_both a b e = ground arith

other_false : (a b : Bool) → (a && b) ≡ false → a ≡ true → b ≡ false
other_false a b e f = ground arith

module _ (policy : RetryPolicy) (inner : ℕ → Reply) where
  backoff_of-le : (n : ℕ) → backoff_of policy n ≤ policy.backoff_max_seconds
  unfolding backoff_of
  backoff_of-le n = ground arith

  -- A round that ends the loop.
  ended :
      (n : ℕ) (reply : Reply)
      → n ≤ policy.max_attempts
      → bare reply ≡ bare (inner n)
      → HasNumbered reply
      → (is_retryable_error (inner n) ≡ true → n ≡ policy.max_attempts)
      → IsRetried policy inner n (record { reply = reply; slept = [] })
  ended n reply bound same numbered final = record {
    last = n;
    is_last = omega arith;
    in_bounds = bound;
    is_reply = same;
    is_numbered = numbered;
    earlier_failed = λ k low high. absurd (omega (arith, low, high));
    gave_up = final;
    short_sleeps = tt;
  }

  -- A round that sleeps and goes on.
  slept_on :
      (n t : ℕ) (rest : Retried)
      → t ≤ policy.backoff_max_seconds
      → is_retryable_error (inner n) ≡ true
      → IsRetried policy inner (suc n) rest
      → IsRetried policy inner n (record { reply = rest.reply; slept = t ∷ rest.slept })
  slept_on n t rest short again h = record {
    last = h.last;
    is_last = omega (arith, h.is_last);
    in_bounds = h.in_bounds;
    is_reply = h.is_reply;
    is_numbered = h.is_numbered;
    earlier_failed = λ k low high. elim (Bool-cases (ltb n k)) [
      | inl later ↦ h.earlier_failed k (omega (tests, later)) high
      | inr now ↦
          let same : n ≡ k = ground (arith, now, low) in
          subst (λ j. is_retryable_error (inner j) ≡ true) same again
    ];
    gave_up = h.gave_up;
    short_sleeps = (short, h.short_sleeps);
  }

  round-IsRetried :
      (n : ℕ) (aggregated : List LlmAttemptRecord) (more : Bool)
      (continued : List LlmAttemptRecord → Retried) (reply : Reply)
      → reply ≡ inner n
      → n ≤ policy.max_attempts
      → (more ≡ false → n ≡ policy.max_attempts)
      → (more ≡ true → (rs : List LlmAttemptRecord) → IsRetried policy inner (suc n) (continued rs))
      → IsRetried policy inner n (round policy n aggregated more continued reply)
  unfolding round
  round-IsRetried n aggregated more continued other_exception e bound stop on =
      ended n other_exception bound (ap bare e) tt (λ r. cc)
  round-IsRetried n aggregated more continued (replied r) e bound stop on =
      ended n _ bound (ap bare e) (renumber-Numbered 1 _) (λ r. cc)
  round-IsRetried n aggregated more continued (call_error x) e bound stop on =
      elim (Bool-cases (x.retryable && more)) [
        | inl f ↦
            rw (f, round)
              (slept_on n (backoff_of policy n) _ (backoff_of-le n)
                (ap is_retryable_error (sym e) ∙ (and_both x.retryable more f).0)
                (on (and_both x.retryable more f).1 _))
        | inr f ↦
            rw (f, round)
              (ended n _ bound (ap bare e) (renumber-Numbered 1 _)
                (λ r. stop (other_false x.retryable more f (ap is_retryable_error e ∙ r))))
      ]

  retry_loop-IsRetried :
      (left n : ℕ) (aggregated : List LlmAttemptRecord)
      → n + left ≡ policy.max_attempts
      → IsRetried policy inner n (retry_loop policy inner (suc left) n aggregated)
  unfolding retry_loop
  retry_loop-IsRetried zero n aggregated e =
      round-IsRetried n aggregated _ _ (inner n) refl (omega (arith, e)) (λ f. omega (arith, e))
        (λ more rs. ground (arith, more, e))
  retry_loop-IsRetried (suc left) n aggregated e =
      round-IsRetried n aggregated _ _ (inner n) refl (omega (arith, e)) (λ f. ground (arith, f, e))
        (λ more rs. retry_loop-IsRetried left (suc n) rs (omega (arith, e)))

  -- When at least one attempt is allowed, the provider calls the inner one until a call ends otherwise
  -- than in a retryable error, or the attempts are used up, and answers as the last call did. Between
  -- two calls it sleeps, for at most the greatest backoff, and the attempt records are numbered from 1.
  pub retrying_complete-IsRetried :
      1 ≤ policy.max_attempts → IsRetried policy inner 1 (retrying_complete policy inner)
  unfolding retrying_complete
  retrying_complete-IsRetried allowed =
      let (left, e) = positive policy.max_attempts allowed in
      subst (λ k. IsRetried policy inner 1 (retry_loop policy inner k 1 [])) (sym e)
        (retry_loop-IsRetried left 1 [] (omega (arith, e)))
