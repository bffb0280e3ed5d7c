-- ===== src/Router/Candidate.antt =====
-- `find_t1_candidate`: the bank row of the next day that a clearing row of the cutoff window waits for.
pub mod Search
use bank_reconciliation_agen.Base.{
  ℕ, ◌+◌, Bool, true, false, not, ◌&&◌, String, Option, none, some, List, [], ◌∷◌, ◌==◌, str_eq,
  if◌then◌else◌, any,
}
use bank_reconciliation_agen.Base.Dict.{mem}
use bank_reconciliation_agen.Amount.{Money, to_decimal, money_eq}
use bank_reconciliation_agen.Router.Rows.{Cell, Row, Calendar, to_optional_string, t1_parse_date}

-- The returned dict; its date is the ordinal of the text.
pub record T1Candidate : Type 0 where
  pub flow_id : String
  pub accounting_date : ℕ

-- `_t1_amount`: an empty amount is None here.
unfoldable pub t1_amount : Row → Option Money
unfolding to_decimal
t1_amount row = elim row.amount [ none ↦ none | some d ↦ some (to_decimal (some d)) ]

-- `if (value := _t1_optional_string(...))`: an empty text is left out too.
add_reference : Cell → List String → List String
unfolding to_optional_string
add_reference c values = elim (to_optional_string c) [
  | none ↦ values
  | some s ↦ if str_eq s "" then values else s ∷ values
]

-- `_t1_reference_values`
unfoldable pub t1_reference_values : Row → List String
unfolding add_reference
t1_reference_values row =
    add_reference (row.cell "reference_no")
      (add_reference (row.cell "merchant_order_no") (add_reference (row.cell "voucher_no") []))

-- `a & b`, as a test
unfoldable pub intersects : List String → List String → Bool
unfolding mem
intersects xs ys = any (λ x. mem x ys) xs

-- `_t1_amount(bank_row) != clear_amount`, negated; None equals no amount.
unfoldable pub same_amount : Option Money → Money → Bool
unfolding money_eq
same_amount none m = false
same_amount (some a) m = money_eq a m

unfoldable pub same_date : Option ℕ → ℕ → Bool
same_date none d = false
same_date (some e) d = e == d

module _ (calendar : Calendar) where
  -- The three tests of one round of the loop.
  unfoldable pub is_candidate : Money → ℕ → List String → Row → Bool
  unfolding same_amount same_date intersects t1_amount t1_parse_date t1_reference_values
  is_candidate amount target references row =
      same_amount (t1_amount row) amount
      && same_date (t1_parse_date calendar (row.cell "accounting_date")) target
      && intersects references (t1_reference_values row)

  unfoldable pub first_candidate : Money → ℕ → List String → List Row → Option T1Candidate
  unfolding is_candidate
  first_candidate amount target references [] = none
  first_candidate amount target references (row ∷ rows) =
      let rest = first_candidate amount target references rows in
      if is_candidate amount target references row
      then some (record { flow_id = row.flow_id; accounting_date = target })
      else rest

  -- The part of the function behind its first guard.
  pub search_rows : Option Money → Option ℕ → List String → List Row → Option T1Candidate
  search_rows none date references rows = none
  search_rows (some amount) none references rows = none
  search_rows (some amount) (some date) [] rows = none
  search_rows (some amount) (some date) (r ∷ rs) rows =
      first_candidate amount (date + 1) (r ∷ rs) rows

  -- `find_t1_candidate`
  unfoldable pub find_t1_candidate : Row → List Row → Option T1Candidate
  find_t1_candidate clear_row bank_rows =
      search_rows (t1_amount clear_row) (t1_parse_date calendar (clear_row.cell "trade_date"))
        (t1_reference_values clear_row) bank_rows
