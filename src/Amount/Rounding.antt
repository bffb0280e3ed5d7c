-- ===== src/Amount/Rounding.antt =====
-- How far rounding moves an amount.
use bank_reconciliation_agen.Base.{
  ℕ, zero, suc, ap, ◌∙◌, ◌+◌, ◌-◌, ◌*◌, ◌/◌, ◌%◌, ◌^◌, ◌≤◌, ◌<◌, ◌≡◌, refl, false, inl, inr, arith,
  ltb, leb, tests, ◌⊎◌, Bool-cases,
}
use bank_reconciliation_agen.Base.Int.{ℤ, pos, negsuc, magnitude}
use bank_reconciliation_agen.Amount.{Decimal, half_even, with_sign, quantize}
use native.Mathlib.Nat.{pow-suc, zero-add, div-add-mod', mod-lt}

abbrev pub Near : ℕ → ℕ → ℕ → Type 0
Near n d q = (2 * (q * d) ≤ 2 * n + d) × (2 * n ≤ 2 * (q * d) + d) × (2 * (n % d) ≡ d → q % 2 ≡ 0)

even_or_odd : (q : ℕ) → (q % 2 ≡ 0) ⊎ (q % 2 ≡ 1)
even_or_odd q = grind arith

tie_lem : (n d : ℕ) → ltb (2 * (n % d)) d ≡ false → ltb d (2 * (n % d)) ≡ false → 2 * (n % d) ≡ d
tie_lem n d low high = ground arith

-- On a tie both neighbours are near, and the even one is taken.
Near-tie : (n d q : ℕ) → 2 * (q * d) + d ≡ 2 * n ⊎ 2 * (q * d) ≡ 2 * n + d → q % 2 ≡ 0 → Near n d q
Near-tie n d q (inl e) even = (omega arith, omega arith, λ _. even)
Near-tie n d q (inr e) even = (omega arith, omega arith, λ _. even)

-- Rounding to even is within half a unit, and a tie goes to an even result.
pub half_even-Near : (n d : ℕ) → 0 < d → Near n d (half_even n d)
unfolding half_even
half_even-Near n d h = elim (Bool-cases (ltb (2 * (n % d)) d)) [
  | inl low ↦ rw low (
    omega (tests, div-add-mod' n d),
    omega (tests, div-add-mod' n d, low),
    λ e. omega (tests, low),
  )
  | inr high ↦ elim (Bool-cases (ltb d (2 * (n % d)))) [
    | inl up ↦
        rw (high, up)
          (
            omega (tests, div-add-mod' n d, mod-lt n h, up),
            omega (tests, div-add-mod' n d, mod-lt n h),
            λ e. omega (tests, up),
          )
    | inr tie ↦ elim (even_or_odd (n / d)) [
      | inl even ↦
          rw (high, tie, even)
            (Near-tie n d (n / d + 0) (inl (omega (arith, div-add-mod' n d, tie_lem n d high tie)))
              (omega arith))
      | inr odd ↦
          rw (high, tie, odd)
            (Near-tie n d (n / d + 1) (inr (omega (arith, div-add-mod' n d, tie_lem n d high tie)))
              (omega arith))
    ]
  ]
]

magnitude-with_sign : (a : ℤ) (n : ℕ) → magnitude (with_sign a n) ≡ n
unfolding with_sign
magnitude-with_sign (pos m) n = omega arith
magnitude-with_sign (negsuc m) zero = refl
magnitude-with_sign (negsuc m) (suc n) = omega arith

with_sign_self : (a : ℤ) → with_sign a (magnitude a) ≡ a
unfolding with_sign
with_sign_self (pos m) = ap pos (omega arith)
with_sign_self (negsuc m) = rw zero-add

pow_pos : (k : ℕ) → 0 < 10 ^ k
pow_pos zero = omega arith
pow_pos (suc k) = rw (pow-suc 10 k) (omega (arith, pow_pos k))

quantize_cents : (a : ℤ) → quantize (record { coefficient = a; places = 2 }) ≡ a
unfolding quantize
quantize_cents a =
    let one : magnitude a * 10 ^ (2 - 2) ≡ magnitude a = omega arith in
    ap (with_sign a) one ∙ with_sign_self a

-- Cents of a decimal: with at most two places they are exact, with more they are within half a cent,
-- and a tie goes to an even number of cents. What has been rounded is rounded to itself.
pub quantize-Near :
    (d : Decimal)
    → (d.places ≤ 2 → magnitude (quantize d) ≡ magnitude d.coefficient * 10 ^ (2 - d.places))
      × (2 < d.places
          → Near (magnitude d.coefficient) (10 ^ (d.places - 2)) (magnitude (quantize d)))
      × (quantize (record { coefficient = quantize d; places = 2 }) ≡ quantize d)
unfolding quantize
quantize-Near d = (
  λ h. rw magnitude-with_sign (ground arith),
  λ h. rw magnitude-with_sign (elim (Bool-cases (leb d.places 2)) [
    | inl e ↦ absurd (ground arith)
    | inr e ↦ rw e (half_even-Near (magnitude d.coefficient) _ (pow_pos (d.places - 2)))
  ]),
  quantize_cents (quantize d),
)
