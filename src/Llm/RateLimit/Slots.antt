-- ===== src/Llm/RateLimit/Slots.antt =====
-- The slot of a call: it is given back, and a call waits no longer than it may.
use bank_reconciliation_agen.Base.{
  ℕ, zero, suc, ◌+◌, ◌≤◌, ◌≡◌, refl, Bool, true, false, ◌⊎◌, inl, inr, Option, none, some, arith,
  leb, Bool-cases, Option-cases,
}
use bank_reconciliation_agen.Llm.{Reply}
use bank_reconciliation_agen.Llm.RateLimit.{
  Limits, Round, Slot, Acquisition, acquired, redis_error, rejected, pending, rejects, since,
  acquire_concurrency, window_start, acquire_rpm, release, inner_reply, limited, wait_timeout,
  after_rpm, after_concurrency, limited_complete,
}

-- No statement of Redis that sets a time to live or lowers the counter raises an exception.
pub record IsSteady (rounds : ℕ → Round) : Type 0 where
  pub expires : (n : ℕ) → (rounds n).expire_fails ≡ false
  pub lowers : (n : ℕ) → (rounds n).decr_fails ≡ false

-- The slots that the steps between two counts hold.
abbrev held : Acquisition → ℕ
held acquired = 1
held _ = 0

module _ (limits : Limits) where
  acquire_concurrency-held :
      (fuel n : ℕ) (rounds : ℕ → Round) (started : Option ℕ) (s : Slot)
      → IsSteady rounds
      → let o = acquire_concurrency limits fuel n rounds started s in
        o.1.taken + s.given ≡ s.taken + o.1.given + held o.0
  unfolding acquire_concurrency
  acquire_concurrency-held zero n rounds started s steady = omega arith
  acquire_concurrency-held (suc fuel) n rounds started s steady =
      let r = rounds n in
      let down : Slot = record { taken = s.taken + 1; given = s.given + 1 } in
      let rest =
        acquire_concurrency-held fuel (n + 1) rounds (some (since started r.now)) down steady in
      elim (Option-cases r.count) [
        | inl e ↦ rw (acquire_concurrency, e) (omega arith)
        | inr (count, e) ↦ elim (Bool-cases (leb count limits.max_concurrency)) [
          | inl b ↦ rw (acquire_concurrency, e, steady.expires n, b) (omega arith)
          | inr b ↦ elim (Bool-cases (rejects limits (since started r.now) r.now)) [
            | inl k ↦
                rw (acquire_concurrency, e, steady.expires n, b, steady.lowers n, k) (omega arith)
            | inr k ↦
                rw (acquire_concurrency, e, steady.expires n, b, steady.lowers n, k)
                  (omega (arith, rest))
          ]
        ]
      ]

  -- The clock of the rounds: each round sleeps for a poll.
  abbrev pub IsTicking : (ℕ → Round) → Type 0
  IsTicking rounds = (n : ℕ) → (rounds 0).now + n ≤ (rounds n).now

  abbrev is_pending : Acquisition → Bool
  is_pending pending = true
  is_pending _ = false

  late :
      (rounds : ℕ → Round) (n : ℕ)
      → IsTicking rounds
      → rejects limits (rounds 0).now (rounds n).now ≡ false
      → n + 1 ≤ limits.max_wait_seconds
  late rounds n ticks waits = ground (arith, ticks n)

  acquire_concurrency-waited :
      (fuel n : ℕ) (rounds : ℕ → Round) (s : Slot)
      → IsTicking rounds
      → limits.max_wait_seconds + 1 ≤ n + fuel
      → n ≤ limits.max_wait_seconds
      → is_pending (acquire_concurrency limits fuel n rounds (some (rounds 0).now) s).0 ≡ false
  unfolding acquire_concurrency
  acquire_concurrency-waited zero n rounds s ticks enough le = absurd (omega arith)
  acquire_concurrency-waited (suc fuel) n rounds s ticks enough le =
      let r = rounds n in
      let down : Slot = record { taken = s.taken + 1; given = s.given + 1 } in
      elim (Option-cases r.count) [
        | inl e ↦ rw (acquire_concurrency, e) refl
        | inr (count, e) ↦ elim (Bool-cases (rejects limits (rounds 0).now r.now)) [
          | inl k ↦ ground arith
          | inr k ↦
              let rest =
                acquire_concurrency-waited fuel (n + 1) rounds down ticks (omega arith)
                  (late rounds n ticks k) in
              rw (acquire_concurrency, e, k) (ground (arith, rest))
        ]
      ]

  acquire_concurrency-ends :
      (fuel : ℕ) (rounds : ℕ → Round) (s : Slot)
      → IsTicking rounds
      → limits.max_wait_seconds + 2 ≤ fuel
      → is_pending (acquire_concurrency limits fuel 0 rounds none s).0 ≡ false
  unfolding acquire_concurrency
  acquire_concurrency-ends zero rounds s ticks enough = absurd (omega arith)
  acquire_concurrency-ends (suc fuel) rounds s ticks enough =
      let r = rounds 0 in
      let down : Slot = record { taken = s.taken + 1; given = s.given + 1 } in
      elim (Option-cases r.count) [
        | inl e ↦ rw (acquire_concurrency, e) refl
        | inr (count, e) ↦ elim (Bool-cases (rejects limits r.now r.now)) [
          | inl k ↦ rw (acquire_concurrency, e, k) (ground arith)
          | inr k ↦
              let rest =
                acquire_concurrency-waited fuel 1 rounds down ticks (omega arith)
                  (late rounds 0 ticks k) in
              rw (acquire_concurrency, e, k) (ground (arith, rest))
        ]
      ]

  acquire_rpm-waited :
      (fuel n : ℕ) (rounds : ℕ → Round) (denied : Option ℕ)
      → IsTicking rounds
      → limits.max_wait_seconds + 1 ≤ n + fuel
      → n ≤ limits.max_wait_seconds
      → is_pending (acquire_rpm limits fuel n rounds denied (some (rounds 0).now)) ≡ false
  unfolding acquire_rpm
  acquire_rpm-waited zero n rounds denied ticks enough le = absurd (omega arith)
  acquire_rpm-waited (suc fuel) n rounds denied ticks enough le =
      let r = rounds n in
      elim (Bool-cases (rejects limits (rounds 0).now r.now)) [
        | inl k ↦ elim (Option-cases r.count) [
          | inl e ↦ rw (acquire_rpm, e, k) (ground arith)
          | inr (count, e) ↦ rw (acquire_rpm, e, k) (ground arith)
        ]
        | inr k ↦
            let rest =
              acquire_rpm-waited fuel (n + 1) rounds (some (window_start limits r.start)) ticks
                (omega arith) (late rounds n ticks k) in
            elim (Option-cases r.count) [
              | inl e ↦ rw (acquire_rpm, e, k) (ground (arith, rest))
              | inr (count, e) ↦ rw (acquire_rpm, e, k) (ground (arith, rest))
            ]
      ]

  acquire_rpm-ends :
      (fuel : ℕ) (rounds : ℕ → Round)
      → IsTicking rounds
      → limits.max_wait_seconds + 2 ≤ fuel
      → is_pending (acquire_rpm limits fuel 0 rounds none none) ≡ false
  unfolding acquire_rpm
  acquire_rpm-ends zero rounds ticks enough = absurd (omega arith)
  acquire_rpm-ends (suc fuel) rounds ticks enough =
      let r = rounds 0 in
      elim (Option-cases r.count) [
        | inl e ↦ rw (acquire_rpm, e) refl
        | inr (count, e) ↦ elim (Bool-cases (rejects limits r.now r.now)) [
          | inl k ↦ rw (acquire_rpm, e, k) (ground arith)
          | inr k ↦
              let rest =
                acquire_rpm-waited fuel 1 rounds (some (window_start limits r.start)) ticks
                  (omega arith) (late rounds 0 ticks k) in
              rw (acquire_rpm, e, k) (ground (arith, rest))
        ]
      ]

  -- A call in which no `expire` or `decr` of the concurrency counter raises, and whose rounds each take a
  -- poll, ends with the inner provider's reply or the LLMCallError of a waiting time that has passed,
  -- and has given back each slot that it has taken: also when other statements of Redis fail.
  pub limited_complete-returns :
      (fuel : ℕ) (rounds rpm_rounds : ℕ → Round) (inner : Reply)
      → IsSteady rounds
      → IsTicking rounds
      → IsTicking rpm_rounds
      → limits.max_wait_seconds + 2 ≤ fuel
      → let o = limited_complete limits fuel rounds rpm_rounds false inner in
        ((o.0 ≡ inner_reply inner) ⊎ (o.0 ≡ limited wait_timeout)) × (o.1.taken ≡ o.1.given)
  unfolding limited_complete after_concurrency after_rpm release
  limited_complete-returns fuel rounds rpm_rounds inner steady ticks rpm_ticks enough =
      after_concurrency-returns _ (acquire_concurrency-held fuel 0 rounds none empty steady)
        (acquire_concurrency-ends fuel rounds empty ticks enough)
    where
      empty : Slot
      empty = record { taken = 0; given = 0 }

      after_rpm-returns :
          (a : Acquisition) (s : Slot)
          → is_pending a ≡ false
          → s.taken ≡ s.given + 1
          → let o = after_rpm limits false inner (a, s) in
            ((o.0 ≡ inner_reply inner) ⊎ (o.0 ≡ limited wait_timeout)) × (o.1.taken ≡ o.1.given)
      after_rpm-returns acquired s done e = (inl refl, ground arith)
      after_rpm-returns redis_error s done e = (inl refl, ground arith)
      after_rpm-returns rejected s done e = (inr refl, ground arith)
      after_rpm-returns pending s done e = cc

      after_concurrency-returns :
          (o : Acquisition × Slot)
          → o.1.taken + 0 ≡ 0 + o.1.given + held o.0
          → is_pending o.0 ≡ false
          → let q = after_concurrency limits fuel rpm_rounds false inner o in
            ((q.0 ≡ inner_reply inner) ⊎ (q.0 ≡ limited wait_timeout)) × (q.1.taken ≡ q.1.given)
      after_concurrency-returns (acquired, s) e done =
          after_rpm-returns (acquire_rpm limits fuel 0 rpm_rounds none none) s
            (acquire_rpm-ends fuel rpm_rounds rpm_ticks enough) (omega arith)
      after_concurrency-returns (redis_error, s) e done = (inl refl, omega arith)
      after_concurrency-returns (rejected, s) e done = (inr refl, omega arith)
      after_concurrency-returns (pending, s) e done = cc
