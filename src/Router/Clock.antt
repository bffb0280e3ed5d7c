-- ===== src/Router/Clock.antt =====
-- The cutoff window: `HH:MM` texts, and whether a trade time lies in the window.
pub mod Window
use Prim.Native.Char.{Char, code}
use bank_reconciliation_agen.Base.{
  ℕ, zero, suc, ◌+◌, ◌-◌, ◌*◌, Bool, true, false, ◌&&◌, ◌||◌, String, Option, none, some, ltb, leb,
  ◌==◌, str_eq, if◌then◌else◌,
}
use bank_reconciliation_agen.Base.Text.{strip}
use bank_reconciliation_agen.Router.Rows.{Cell, Row, to_optional_string}

-- The digits of `int(s)` after the sign: single underscores may stand between digits. Digits outside
-- ASCII are not read.
unfoldable pub int_digits : ℕ → Bool → String → Option ℕ
int_digits acc after_digit String.[] = if after_digit then some acc else none
int_digits acc after_digit (String.◌∷◌ c s) = elim (leb b'0' (code c) && leb (code c) b'9') [
  | true ↦ int_digits (acc * 10 + (code c - b'0')) true s
  | false ↦ elim (code c == b'_' && after_digit) [ true ↦ int_digits acc false s | false ↦ none ]
]

unfoldable pub is_zero : Option ℕ → Option ℕ
is_zero (some zero) = some 0
is_zero _ = none

unfoldable pub signed_int : String → Option ℕ
unfolding int_digits is_zero
signed_int String.[] = none
signed_int (String.◌∷◌ c s) =
    if code c == b'+'
    then int_digits 0 false s
    else if code c == b'-'
    then is_zero (int_digits 0 false s)
    else int_digits 0 false (String.◌∷◌ c s)

-- `int(s)`, where a negative number is `none` as well: `time` refuses both with a ValueError.
unfoldable pub parse_int : String → Option ℕ
unfolding signed_int strip
parse_int s = signed_int (strip s)

-- `s.split(sep, maxsplit=1)` in two parts, `none` where `sep` is not in `s`.
unfoldable pub split_once : ℕ → String → Option (String × String)
split_once sep String.[] = none
split_once sep (String.◌∷◌ c s) =
    let rest = split_once sep s in
    if code c == sep
    then some ("", s)
    else elim rest [ none ↦ none | some (a, b) ↦ some (String.◌∷◌ c a, b) ]

-- `time(hour=hour, minute=minute)`, as the minutes since midnight.
unfoldable pub clock : Option ℕ → Option ℕ → Option ℕ
clock (some hour) (some minute) =
    if ltb hour 24 && ltb minute 60 then some (hour * 60 + minute) else none
clock _ _ = none

-- `_parse_clock_time`, `none` for a ValueError.
unfoldable pub parse_clock_time : String → Option ℕ
parse_clock_time value = if str_eq value "24:00" then some 0 else elim (split_once b':' value) [
  | none ↦ none
  | some (hour, minute) ↦ clock (parse_int hour) (parse_int minute)
]

unfoldable pub both : Option ℕ → Option ℕ → Option (ℕ × ℕ)
both (some a) (some b) = some (a, b)
both _ _ = none

-- `_parse_cutoff_window`
unfoldable pub parse_cutoff_window : String → Option (ℕ × ℕ)
parse_cutoff_window value = elim (split_once b'-' value) [
  | none ↦ none
  | some (start, end) ↦ both (parse_clock_time (strip start)) (parse_clock_time (strip end))
]

-- `_parse_trade_time`
unfoldable pub parse_trade_time : Cell → Option ℕ
parse_trade_time c = elim (to_optional_string c) [
  | none ↦ none
  | some s ↦ parse_clock_time (strip s)
]

-- The last lines of `_in_cutoff_window`.
unfoldable pub in_window : ℕ → ℕ → ℕ → Bool
in_window start end t = if ltb start end then leb start t && ltb t end else leb start t || ltb t end

-- `_in_cutoff_window`; `none` is the ValueError of a setting that is no window.
unfoldable pub in_cutoff_window : String → Option Row → Option Bool
in_cutoff_window setting none = some false
in_cutoff_window setting (some row) = elim (parse_trade_time (row.cell "trade_time")) [
  | none ↦ some false
  | some t ↦ elim (parse_cutoff_window setting) [
    | none ↦ none
    | some (start, end) ↦ some (in_window start end t)
  ]
]
