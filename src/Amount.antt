-- ===== src/Amount.antt =====
-- `Decimal` amounts: services/exception_router.py reads every amount as
-- `Decimal(str(value)).quantize(Decimal("0.01"))`, and computes with whole cents from there on.
pub mod Rounding
mod Tests
use bank_reconciliation_agen.Base.{
  ℕ, zero, suc, ◌+◌, ◌-◌, ◌*◌, ◌/◌, ◌%◌, ◌^◌, Bool, true, false, Option, none, some, ltb, leb, ◌==◌,
  if◌then◌else◌,
}
use bank_reconciliation_agen.Base.Int.{ℤ, pos, negsuc, ◌-ℤ◌, eq_ℤ, magnitude}

-- A finite decimal: `coefficient` / 10 ^ `places`.
pub record Decimal : Type 0 where
  pub coefficient : ℤ
  pub places : ℕ

-- A quotient rounded to the nearest, halves to the even neighbour (`ROUND_HALF_EVEN`).
unfoldable pub half_even : ℕ → ℕ → ℕ
half_even n d =
    if ltb (2 * (n % d)) d
    then n / d
    else if ltb d (2 * (n % d))
    then n / d + 1
    else n / d + (n / d) % 2

unfoldable pub with_sign : ℤ → ℕ → ℤ
with_sign (pos _) n = pos n
with_sign (negsuc _) zero = pos 0
with_sign (negsuc _) (suc n) = negsuc n

-- `d.quantize(Decimal("0.01"))`, in cents; it raises where `fits_context` is false. The sign of a negative zero
-- is not kept: no code sees it.
unfoldable pub quantize : Decimal → ℤ
unfolding half_even with_sign
quantize d = with_sign d.coefficient (
    if leb d.places 2
    then magnitude d.coefficient * 10 ^ (2 - d.places)
    else half_even (magnitude d.coefficient) (10 ^ (d.places - 2)))

-- Whether the cents have at most the 28 digits of the decimal context: else `quantize` raises InvalidOperation.
unfoldable pub fits_context : Option Decimal → Bool
unfolding quantize
fits_context none = true
fits_context (some d) = ltb (magnitude (quantize d)) (10 ^ 28)

-- The `Decimal` that a cell gives: a number of cents, or the `NaN` that an empty numeric cell is.
pub data Money : Type 0 where
  nan : Money
  cents : ℤ → Money

-- `_to_decimal` and `_t1_to_decimal`
unfoldable pub to_decimal : Option Decimal → Money
unfolding quantize
to_decimal none = nan
to_decimal (some d) = cents (quantize d)

-- `a == b`; `NaN` equals nothing.
unfoldable pub money_eq : Money → Money → Bool
money_eq (cents a) (cents b) = eq_ℤ a b
money_eq _ _ = false

-- `a - b`
unfoldable pub money_sub : Money → Money → Money
money_sub (cents a) (cents b) = cents (a -ℤ b)
money_sub _ _ = nan
