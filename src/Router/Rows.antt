-- ===== src/Router/Rows.antt =====
-- The rows of the two data frames, as the router reads them: amounts, texts, dates.
use bank_reconciliation_agen.Base.{
  ℕ, String, Option, none, some, List, [], ◌∷◌, str_eq, if◌then◌else◌,
}
use bank_reconciliation_agen.Base.Text.{strip}
use bank_reconciliation_agen.Base.Dict.{Dict, put}
use bank_reconciliation_agen.Amount.{Decimal, Money, to_decimal}

-- A cell that is no amount. A date is its ordinal, and each value carries its `str`.
pub data Cell : Type 0 where
  empty : Cell
  words : String → Cell
  day : ℕ → String → Cell
  moment : ℕ → String → Cell

-- One row of `dataframe.to_dict("records")`; a column that is not there reads as an empty cell.
pub record Row : Type 0 where
  pub flow_id : String
  pub amount : Option Decimal
  pub cell : String → Cell

-- `datetime.fromisoformat(s).date()` and `date.fromisoformat(s)`, `none` for a ValueError.
pub record Calendar : Type 0 where
  pub iso_datetime : String → Option ℕ
  pub iso_date : String → Option ℕ

-- `_to_optional_string`, `_t1_optional_string`
unfoldable pub to_optional_string : Cell → Option String
to_optional_string empty = none
to_optional_string (words s) = some s
to_optional_string (day d s) = some s
to_optional_string (moment d s) = some s

-- `_normalize_summary`
unfoldable pub normalize_summary : Cell → String
unfolding to_optional_string
normalize_summary c = elim (to_optional_string c) [ none ↦ "" | some s ↦ strip s ]

-- `_amount_from_row`
unfoldable pub amount_from_row : Option Row → Option Money
unfolding to_decimal
amount_from_row none = none
amount_from_row (some row) = some (to_decimal row.amount)

-- `_bank_party_column`
unfoldable pub bank_party_column : String → String
bank_party_column scenario_type =
    if str_eq scenario_type "BANK_CLEARING"
    then "customer_name_masked"
    else "counterparty_name_masked"

-- `_clear_party_column`
unfoldable pub clear_party_column : String → String
clear_party_column scenario_type =
    if str_eq scenario_type "BANK_CLEARING" then "payer_name_masked" else "payee_name_masked"

-- `_rows_by_flow_id`: of two rows with one flow_id the later is kept.
unfoldable pub add_rows : List Row → Dict Row → Dict Row
add_rows [] d = d
add_rows (row ∷ rows) d = add_rows rows (put row.flow_id row d)

unfoldable pub rows_by_flow_id : List Row → Dict Row
unfolding add_rows
rows_by_flow_id rows = add_rows rows []

module _ (calendar : Calendar) where
  open calendar use {iso_datetime, iso_date}

  -- One round of the loop of `_trade_date`; `none` goes on to the next key.
  unfoldable pub cell_date : Cell → Option ℕ
  cell_date empty = none
  cell_date (words s) = iso_datetime (strip s)
  cell_date (day d s) = some d
  cell_date (moment d s) = some d

  unfoldable pub first_date : List Cell → Option ℕ
  first_date [] = none
  first_date (c ∷ cs) =
      let rest = first_date cs in elim (cell_date c) [ none ↦ rest | some d ↦ some d ]

  -- `_trade_date`
  unfoldable pub trade_date : Row → Option ℕ
  unfolding first_date cell_date
  trade_date row =
      first_date (row.cell "trade_time" ∷ row.cell "trade_date" ∷ row.cell "accounting_date" ∷ [])

  -- `_t1_parse_date`
  unfoldable pub t1_parse_date : Cell → Option ℕ
  t1_parse_date empty = none
  t1_parse_date (words s) = iso_date (strip s)
  t1_parse_date (day d s) = some d
  t1_parse_date (moment d s) = some d
