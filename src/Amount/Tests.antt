-- ===== src/Amount/Tests.antt =====
-- Rounding to cents on concrete amounts.
use bank_reconciliation_agen.Base.{◌≡◌, refl}
use bank_reconciliation_agen.Base.Int.{negsuc}
use bank_reconciliation_agen.Amount.{Decimal, quantize, half_even, with_sign}

abbrev tie : Decimal
tie = record { coefficient = negsuc 12344; places = 3 }

tie_to_even : quantize tie ≡ negsuc 1233
unfolding quantize half_even with_sign
tie_to_even = refl
