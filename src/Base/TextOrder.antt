-- ===== src/Base/TextOrder.antt =====
-- The order of texts is a strict total order, and `sorted(set(...))` is strictly ascending.
use Prim.Native.String.{String}
use Prim.Native.String.compare
use mathlib.Core.Path.{◌≡◌}
use mathlib.Core.Bool.{true, false}
use mathlib.Core.Logic.{inl, inr}
use mathlib.Core.List.{List, [], ◌∷◌}
use native.Mathlib.Omega.{arith}
use text.Mathlib.Text.{◌==◌ as str_eq}
use text.Mathlib.TextEquality.{eq_iff}
use bank_reconciliation_agen.Base.Tests.{Bool-cases}
use bank_reconciliation_agen.Base.Lists.{All}
use bank_reconciliation_agen.Base.Text.{str_lt}
use bank_reconciliation_agen.Base.Dict.{insert_key, sorted_set}

pub str_lt_trans : (s t u : String) → str_lt s t ≡ true → str_lt t u ≡ true → str_lt s u ≡ true
str_lt_trans String.[] String.[] u h k = ground (arith, compare.nil-nil)
str_lt_trans String.[] (String.◌∷◌ d t) String.[] h k = ground (arith, compare.cons-nil d t)
str_lt_trans String.[] (String.◌∷◌ d t) (String.◌∷◌ e u) h k = ground (arith, compare.nil-cons e u)
str_lt_trans (String.◌∷◌ c s) String.[] u h k = ground (arith, compare.cons-nil c s)
str_lt_trans (String.◌∷◌ c s) (String.◌∷◌ d t) String.[] h k = ground (arith, compare.cons-nil d t)
str_lt_trans (String.◌∷◌ c s) (String.◌∷◌ d t) (String.◌∷◌ e u) h k = ground (
  arith,
  compare.cons-cons c d s t,
  compare.cons-cons d e t u,
  compare.cons-cons c e s u,
  str_lt_trans s t u,
)

pub str_lt_total : (s t : String) → str_eq s t ≡ false → str_lt s t ≡ false → str_lt t s ≡ true
str_lt_total String.[] String.[] h k = ground (arith, compare.nil-nil)
str_lt_total String.[] (String.◌∷◌ d t) h k = ground (arith, compare.nil-cons d t)
str_lt_total (String.◌∷◌ c s) String.[] h k = ground (arith, compare.nil-cons c s)
str_lt_total (String.◌∷◌ c s) (String.◌∷◌ d t) h k =
    ground (arith, compare.cons-cons c d s t, compare.cons-cons d c t s, str_lt_total s t)

-- Each text is before every later one.
abbrev pub IsAscending : List String → Type 0
IsAscending [] = Unit
IsAscending (k ∷ ks) = All (λ j. str_lt k j ≡ true) ks × IsAscending ks

All-lt_trans :
    (k j : String) (ks : List String)
    → str_lt k j ≡ true
    → All (λ x. str_lt j x ≡ true) ks
    → All (λ x. str_lt k x ≡ true) ks
All-lt_trans k j [] h p = tt
All-lt_trans k j (x ∷ ks) h p = (str_lt_trans k j x h p.0, All-lt_trans k j ks h p.1)

All-insert_key :
    (P : String → Type 0) (k : String) (ks : List String) → P k → All P ks → All P (insert_key k ks)
unfolding insert_key
All-insert_key P k [] h p = (h, tt)
All-insert_key P k (j ∷ js) h p = elim (Bool-cases (str_eq j k)) [
  | inl e ↦ rw e p
  | inr e ↦ elim (Bool-cases (str_lt k j)) [
    | inl lt ↦ rw (e, lt) (h, p)
    | inr ge ↦ rw (e, ge) (p.0, All-insert_key P k js h p.1)
  ]
]

insert_key-IsAscending :
    (k : String) (ks : List String) → IsAscending ks → IsAscending (insert_key k ks)
unfolding insert_key
insert_key-IsAscending k [] h = (tt, tt)
insert_key-IsAscending k (j ∷ js) h = elim (Bool-cases (str_eq j k)) [
  | inl e ↦ rw e h
  | inr e ↦ elim (Bool-cases (str_lt k j)) [
    | inl lt ↦ rw (e, lt) ((lt, All-lt_trans k j js lt h.0), h)
    | inr ge ↦
        rw (e, ge)
          (
            All-insert_key (λ x. str_lt j x ≡ true) k js
                (str_lt_total k j (ground (arith, eq_iff j k, eq_iff k j)) ge) h.0,
            insert_key-IsAscending k js h.1,
          )
  ]
]

pub sorted_set-IsAscending : (ks : List String) → IsAscending (sorted_set ks)
unfolding sorted_set
sorted_set-IsAscending [] = tt
sorted_set-IsAscending (k ∷ ks) =
    insert_key-IsAscending k (sorted_set ks) (sorted_set-IsAscending ks)

pub str_lt_irrefl : (s : String) → str_lt s s ≡ false
str_lt_irrefl String.[] = ground (arith, compare.nil-nil)
str_lt_irrefl (String.◌∷◌ c s) = ground (arith, compare.cons-cons c c s s, str_lt_irrefl s)
