-- ===== src/Router/Clock/Window.antt =====
-- The cutoff window is an arc of the day.
use bank_reconciliation_agen.Base.{
  ℕ, ◌+◌, ◌-◌, ◌%◌, ◌<◌, ◌≡◌, ap, ◌↔◌, ◌⊎◌, inl, inr, true, String, Option, none, some,
  some-injective, arith, Bool-cases, Option-cases, str_eq,
}
use bank_reconciliation_agen.Base.Text.{strip}
use bank_reconciliation_agen.Router.Rows.{Cell, Row, to_optional_string}
use bank_reconciliation_agen.Router.Clock.{
  clock, split_once, parse_int, parse_clock_time, parse_cutoff_window, parse_trade_time, in_window,
  both, in_cutoff_window,
}

clock_below : (h m : Option ℕ) (t : ℕ) → clock h m ≡ some t → t < 1440
unfolding clock
clock_below none m t e = cc
clock_below (some h) none t e = cc
clock_below (some h) (some m) t e = ground arith

parse_clock_time_below : (s : String) (t : ℕ) → parse_clock_time s ≡ some t → t < 1440
unfolding parse_clock_time
parse_clock_time_below s t e = elim (Bool-cases (str_eq s "24:00")) [
  | inl m ↦ ground arith
  | inr m ↦ elim (Option-cases (split_once b':' s)) [
    | inl n ↦ absurd (ground arith)
    | inr ((h, l), n) ↦ clock_below (parse_int h) (parse_int l) t (ground arith)
  ]
]

both_below :
    (a b : Option ℕ) (s e : ℕ)
    → both a b ≡ some (s, e)
    → ((t : ℕ) → a ≡ some t → t < 1440)
    → ((t : ℕ) → b ≡ some t → t < 1440)
    → (s < 1440) × (e < 1440)
unfolding both
both_below none b s e h p q = cc
both_below (some a) none s e h p q = cc
both_below (some a) (some b) s e h p q = (p s (ground arith), q e (ground arith))

parse_cutoff_window_below :
    (setting : String) (s e : ℕ)
    → parse_cutoff_window setting ≡ some (s, e)
    → (s < 1440) × (e < 1440)
unfolding parse_cutoff_window
parse_cutoff_window_below setting s e h = elim (Option-cases (split_once b'-' setting)) [
  | inl n ↦ absurd (ground arith)
  | inr ((a, b), n) ↦
      both_below (parse_clock_time (strip a)) (parse_clock_time (strip b)) s e (ground arith)
        (parse_clock_time_below (strip a)) (parse_clock_time_below (strip b))
]

parse_trade_time_below : (c : Cell) (t : ℕ) → parse_trade_time c ≡ some t → t < 1440
unfolding parse_trade_time
parse_trade_time_below c t e = elim (Option-cases (to_optional_string c)) [
  | inl n ↦ absurd (ground arith)
  | inr (s, n) ↦ parse_clock_time_below (strip s) t (ground arith)
]

-- On the arc of the day from `start` up to `end`, over midnight if `end` is the earlier; the whole
-- day if they are equal.
abbrev pub OnArc : ℕ → ℕ → ℕ → Type 0
OnArc start end t = (start ≡ end) ⊎ ((t + 1440 - start) % 1440 < (end + 1440 - start) % 1440)

in_window_iff :
    (start end t : ℕ)
    → start < 1440
    → end < 1440
    → t < 1440
    → (in_window start end t ≡ true) ↔ OnArc start end t
unfolding in_window
in_window_iff start end t hs he ht = (λ h. ground arith, λ h. ground arith)

-- A clearing row whose trade time reads as the time `t`, under a setting that reads as a window from
-- `start` to `end`, is in the cutoff window exactly when a clock's hand that goes from `start` passes
-- `t` before it reaches `end`, over midnight where the window goes over it.
pub in_cutoff_window-OnArc :
    (setting : String) (row : Row) (start end t : ℕ)
    → parse_cutoff_window setting ≡ some (start, end)
    → parse_trade_time (row.cell "trade_time") ≡ some t
    → (in_cutoff_window setting (some row) ≡ some true) ↔ OnArc start end t
unfolding in_cutoff_window
in_cutoff_window-OnArc setting row start end t w p =
    let (hs, he) = parse_cutoff_window_below setting start end w in
    let arc =
      in_window_iff start end t hs he (parse_trade_time_below (row.cell "trade_time") t p) in
    rw (p, w, in_cutoff_window) (λ h. arc.0 (some-injective _ _ h), λ a. ap some (arc.1 a))
