-- ===== src/Breaker/Pool/Safety.antt =====
-- No two HALF_OPEN probes at a time, whatever the interleaving.
use bank_reconciliation_agen.Base.{
  ℕ, ◌+◌, ◌≤◌, ◌<◌, ◌≡◌, refl, ◌∙◌, true, false, ◌⊎◌, inl, inr, some, none, List, [], ◌∷◌, ◌++◌,
  arith, if◌then◌else◌, All,
}
use bank_reconciliation_agen.Base.Int.{ℤ}
use bank_reconciliation_agen.Breaker.{
  Breaker, BreakerPermit, BreakerAdmission, closed, half_open, init, state_now, acquire_at,
}
use bank_reconciliation_agen.Breaker.Pool.{
  Outcome, succeeded, failed, released, finish, Pool, hold, enter, Step, read, ask, done, Reach,
  here, next, is_probe, live_probes, Fits, IsSafe,
}

live_probes-append :
    (g : ℕ) (ps qs : List BreakerPermit)
    → live_probes g (ps ++ qs) ≡ live_probes g ps + live_probes g qs
unfolding live_probes
live_probes-append g [] qs = omega arith
live_probes-append g (p ∷ ps) qs = ground (arith, live_probes-append g ps qs)

-- Two states of the breaker that its held permits do not tell apart.
record Alike (b b' : Breaker) : Type 0 where
  generation : b'.generation ≡ b.generation
  state : b'.state ≡ b.state
  probe : b'.half_open_probe_in_flight ≡ b.half_open_probe_in_flight

-- A later generation, in which no probe is out.
record Renewed (b b' : Breaker) : Type 0 where
  generation : b.generation < b'.generation
  probe : b'.half_open_probe_in_flight ≡ false

Fits-Alike :
    (b b' : Breaker) (ps : List BreakerPermit) → Alike b b' → All (Fits b) ps → All (Fits b') ps
Fits-Alike b b' [] a f = tt
Fits-Alike b b' (p ∷ ps) a f = (ground arith, Fits-Alike b b' ps a f.1)

Fits-Renewed :
    (b b' : Breaker) (ps : List BreakerPermit)
    → Renewed b b'
    → All (Fits b) ps
    → All (Fits b') ps × (live_probes b'.generation ps ≡ 0)
unfolding live_probes
Fits-Renewed b b' [] r f = (tt, refl)
Fits-Renewed b b' (p ∷ ps) r f = ground (arith, Fits-Renewed b b' ps r f.1)

IsSafe-Alike :
    (b b' : Breaker) (ps : List BreakerPermit)
    → Alike b b'
    → IsSafe (record { breaker = b; held = ps })
    → IsSafe (record { breaker = b'; held = ps })
IsSafe-Alike b b' ps a h = record {
  fits = Fits-Alike b b' ps a h.fits;
  probes = rw (a.generation, a.probe) h.probes;
  only_half_open = λ e. ground arith;
}

IsSafe-Renewed :
    (b b' : Breaker) (ps : List BreakerPermit)
    → Renewed b b'
    → All (Fits b) ps
    → IsSafe (record { breaker = b'; held = ps })
IsSafe-Renewed b b' ps r f =
    let (fits, none_live) = Fits-Renewed b b' ps r f in
    record {
      fits = fits;
      probes = rw (none_live, r.probe) refl;
      only_half_open = λ e. ground (arith, r.probe);
    }

state_now_moves : (t : ℕ) (b : Breaker) → (state_now t b ≡ b) ⊎ Renewed b (state_now t b)
unfolding state_now
state_now_moves t b = ground arith

finish_moves :
    (t u : ℕ) (o : Outcome) (p : BreakerPermit) (b : Breaker)
    → Fits b p
    → (is_probe b.generation p ≡ true → b.half_open_probe_in_flight ≡ true)
    → (b.half_open_probe_in_flight ≡ true → b.state ≡ half_open)
    → (Alike b (finish t u o p b) × (is_probe b.generation p ≡ false))
      ⊎ Renewed b (finish t u o p b)
unfolding finish
finish_moves t u succeeded p b f h k = ground arith
finish_moves t u failed p b f h k = ground arith
finish_moves t u released p b f h k = ground arith

abbrev granted : Breaker → BreakerAdmission
granted b = record {
  state_before = b.state;
  permit = some (record { generation = b.generation; state_before = b.state });
}

acquire_at_moves :
    (b : Breaker)
    → (acquire_at b ≡ (record { state_before = b.state; permit = none }, b))
      ⊎ ((acquire_at b ≡ (granted b, record b { half_open_probe_in_flight = true }))
          × (b.state ≡ half_open)
          × (b.half_open_probe_in_flight ≡ false))
      ⊎ ((acquire_at b ≡ (granted b, b)) × (b.state ≡ closed))
unfolding acquire_at
acquire_at_moves b = ground arith

abbrev entered : BreakerAdmission × Breaker → List BreakerPermit → Pool
entered (a, b) ps = record { breaker = b; held = hold a.permit ps }

acquire_at-IsSafe :
    (b : Breaker) (ps : List BreakerPermit)
    → IsSafe (record { breaker = b; held = ps })
    → IsSafe (entered (acquire_at b) ps)
unfolding live_probes
acquire_at-IsSafe b ps h = elim (acquire_at_moves b) [
  | inl e ↦ rw e h
  | inr (inl (e, s, f)) ↦ rw e (record {
    fits = ((omega arith, λ _. refl), h.fits);
    probes = ground (arith, h.probes);
    only_half_open = λ _. s;
  })
  | inr (inr (e, s)) ↦ rw e (record {
    fits = ((omega arith, λ _. refl), h.fits);
    probes = ground (arith, h.probes);
    only_half_open = h.only_half_open;
  })
]

All-middle {ℓ κ} :
    {A : Type ℓ} (P : A → Type κ) (xs : List A) (y : A) (zs : List A)
    → All P (xs ++ y ∷ zs)
    → P y × All P (xs ++ zs)
All-middle P [] y zs h = (h.0, h.1)
All-middle P (x ∷ xs) y zs h = let ih = All-middle P xs y zs h.1 in (ih.0, (h.0, ih.1))

-- A probe that is held is in flight.
probe_in_flight :
    (b : Breaker) (ps : List BreakerPermit) (p : BreakerPermit) (qs : List BreakerPermit)
    → IsSafe (record { breaker = b; held = ps ++ p ∷ qs })
    → is_probe b.generation p ≡ true
    → b.half_open_probe_in_flight ≡ true
unfolding live_probes
probe_in_flight b ps p qs h e =
    ground (arith, h.probes, live_probes-append b.generation ps (p ∷ qs))

-- Returning a permit that is no probe leaves the count of probes.
live_probes-drop :
    (g : ℕ) (ps : List BreakerPermit) (p : BreakerPermit) (qs : List BreakerPermit)
    → is_probe g p ≡ false
    → live_probes g (ps ++ qs) ≡ live_probes g (ps ++ p ∷ qs)
unfolding live_probes
live_probes-drop g ps p qs e =
    ground (arith, live_probes-append g ps (p ∷ qs), live_probes-append g ps qs)

Step-IsSafe : {s t : Pool} → Step s t → IsSafe s → IsSafe t
unfolding enter
Step-IsSafe (read t s) h = elim (state_now_moves t s.breaker) [
  | inl e ↦ rw e h
  | inr r ↦ IsSafe-Renewed s.breaker (state_now t s.breaker) s.held r h.fits
]
Step-IsSafe (ask t s) h = elim (state_now_moves t s.breaker) [
  | inl e ↦ acquire_at-IsSafe (state_now t s.breaker) s.held (rw e h)
  | inr r ↦
      acquire_at-IsSafe (state_now t s.breaker) s.held
        (IsSafe-Renewed s.breaker (state_now t s.breaker) s.held r h.fits)
]
Step-IsSafe (done t u o b ps p qs) h =
    let (fit, rest) = All-middle (Fits b) ps p qs h.fits in
    elim (finish_moves t u o p b fit (probe_in_flight b ps p qs h) h.only_half_open) [
      | inl (a, e) ↦ IsSafe-Alike b (finish t u o p b) (ps ++ qs) a (record {
        fits = rest;
        probes = live_probes-drop b.generation ps p qs e ∙ h.probes;
        only_half_open = h.only_half_open;
      })
      | inr r ↦ IsSafe-Renewed b (finish t u o p b) (ps ++ qs) r rest
    ]

init-IsSafe : (f o : ℤ) → IsSafe (record { breaker = init f o; held = [] })
unfolding init live_probes
init-IsSafe f o = record { fits = tt; probes = refl; only_half_open = λ e. cc }

Reach-IsSafe : {s t : Pool} → IsSafe s → Reach s t → IsSafe t
Reach-IsSafe h here = h
Reach-IsSafe h (next r st) = Step-IsSafe st (Reach-IsSafe h r)

-- From a new breaker, however its callers interleave and however long each holds its permit: at most
-- one held permit of the present generation is a HALF_OPEN probe, there is one exactly when the
-- breaker counts a probe as in flight, no held permit is of a later generation, and a held permit of
-- the present generation was given in the breaker's present state.
pub one_probe_at_a_time :
    (f o : ℤ) {s : Pool}
    → Reach (record { breaker = init f o; held = [] }) s
    → (live_probes s.breaker.generation s.held ≤ 1)
      × (live_probes s.breaker.generation s.held
          ≡ (if s.breaker.half_open_probe_in_flight then 1 else 0))
      × All (Fits s.breaker) s.held
one_probe_at_a_time f o r =
    let safe = Reach-IsSafe (init-IsSafe f o) r in
    (ground (arith, safe.probes), safe.probes, safe.fits)
