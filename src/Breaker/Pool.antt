-- ===== src/Breaker/Pool.antt =====
-- The breaker among its callers: requests that hold permits at once, and end in any order.
pub mod Safety
use bank_reconciliation_agen.Base.{
  ℕ, suc, ◌+◌, ◌≤◌, ◌<◌, ◌≡◌, refl, ◌∙◌, Bool, true, false, ◌⊎◌, inl, inr, ◌&&◌, Option, none, some,
  List, [], ◌∷◌, ◌++◌, arith, ◌==◌, if◌then◌else◌, All,
}
use bank_reconciliation_agen.Base.Int.{ℤ}
use bank_reconciliation_agen.Breaker.{
  Breaker, BreakerPermit, BreakerAdmission, closed, opened, half_open, same_state, init, state_now,
  acquire_at, acquire, record_success, record_failure, release_permit,
}

-- How a request ends: `record_success`, `record_failure` or `release_permit`.
pub data Outcome : Type 0 where
  succeeded failed released : Outcome

unfoldable pub finish : ℕ → ℕ → Outcome → BreakerPermit → Breaker → Breaker
unfolding record_success record_failure release_permit
finish t u succeeded p b = record_success t (some p) b
finish t u failed p b = record_failure t u (some p) b
finish t u released p b = release_permit t p b

-- The breaker, and the permits that its callers hold.
pub record Pool : Type 0 where
  pub breaker : Breaker
  pub held : List BreakerPermit

abbrev pub hold : Option BreakerPermit → List BreakerPermit → List BreakerPermit
hold none ps = ps
hold (some p) ps = p ∷ ps

unfoldable pub enter : ℕ → Pool → Pool
unfolding acquire
enter t s = let (a, b) = acquire t s.breaker in record { breaker = b; held = hold a.permit s.held }

-- A caller reads the state, asks for a permit, or ends a request whose permit it holds.
pub data Step : Pool → Pool → Type 0 where
  read : (t : ℕ) (s : Pool) → Step s (record s { breaker = state_now t s.breaker })
  ask : (t : ℕ) (s : Pool) → Step s (enter t s)
  done :
      (t u : ℕ) (o : Outcome) (b : Breaker) (ps : List BreakerPermit) (p : BreakerPermit)
      (qs : List BreakerPermit)
      → Step
          (record { breaker = b; held = ps ++ p ∷ qs })
          (record { breaker = finish t u o p b; held = ps ++ qs })

pub data Reach (s : Pool) : Pool → Type 0 where
  here : Reach s s
  next : {t u : Pool} → Reach s t → Step t u → Reach s u

-- The held permits that the breaker's present generation takes for HALF_OPEN probes.
abbrev pub is_probe : ℕ → BreakerPermit → Bool
is_probe g p = p.generation == g && same_state p.state_before half_open

pub live_probes : ℕ → List BreakerPermit → ℕ
live_probes g [] = 0
live_probes g (p ∷ ps) = if is_probe g p then suc (live_probes g ps) else live_probes g ps

-- A held permit is of no later generation, and if it is of the present one, so is its state.
abbrev pub Fits : Breaker → BreakerPermit → Type 0
Fits b p = (p.generation ≤ b.generation) × (p.generation ≡ b.generation → p.state_before ≡ b.state)

pub record IsSafe (s : Pool) : Type 0 where
  pub fits : All (Fits s.breaker) s.held
  pub probes :
      live_probes s.breaker.generation s.held
      ≡ (if s.breaker.half_open_probe_in_flight then 1 else 0)
  pub only_half_open : s.breaker.half_open_probe_in_flight ≡ true → s.breaker.state ≡ half_open
