-- ===== src/Base/Dict.antt =====
-- Python's `dict` with `str` keys, in insertion order, and `sorted` on a set of keys.
use mathlib.Core.Path.{◌≡◌, refl, ◌∙◌}
use mathlib.Core.Logic.{inl, inr}
use mathlib.Core.Bool.{Bool, true, false}
use mathlib.Core.Option.{Option, none, some}
use mathlib.Core.List.{List, [], ◌∷◌}
use native.Mathlib.Omega.{arith}
use Prim.Native.String.{String}
use text.Mathlib.Text.{◌==◌ as str_eq}
use text.Mathlib.TextEquality.{eq_iff}
use bank_reconciliation_agen.Base.Lists.{All, All-map}
use bank_reconciliation_agen.Base.Tests.{if◌then◌else◌, Bool-cases}
use bank_reconciliation_agen.Base.Text.{str_lt}

abbrev pub Dict {ℓ} : Type ℓ → Type ℓ
Dict V = List (String × V)

module _ {ℓ} {V : Type ℓ} where
  -- `d.get(k)`
  unfoldable pub get : String → Dict V → Option V
  get k [] = none
  get k ((j, v) ∷ d) = if str_eq j k then some v else get k d

  -- `d[k] = v`
  unfoldable pub put : String → V → Dict V → Dict V
  put k v [] = (k, v) ∷ []
  put k v ((j, w) ∷ d) = let rest = put k v d in if str_eq j k then (j, v) ∷ d else (j, w) ∷ rest

  -- `d.keys()`
  unfoldable pub keys : Dict V → List String
  keys [] = []
  keys ((k, v) ∷ d) = k ∷ keys d

  pub get-put :
      (k j : String) (v : V) (d : Dict V)
      → get j (put k v d) ≡ (if str_eq k j then some v else get j d)
  unfolding get put
  get-put k j v [] = refl
  get-put k j v ((i, w) ∷ d) = ground (arith, eq_iff k j, eq_iff i k, eq_iff i j, get-put k j v d)

-- `k in keys`
unfoldable pub mem : String → List String → Bool
mem k [] = false
mem k (j ∷ js) = if str_eq j k then true else mem k js

-- One key put into keys that are sorted and without repetition.
unfoldable pub insert_key : String → List String → List String
insert_key k [] = k ∷ []
insert_key k (j ∷ js) =
    let rest = insert_key k js in
    if str_eq j k then j ∷ js else if str_lt k j then k ∷ j ∷ js else j ∷ rest

-- `sorted(set(keys))`
unfoldable pub sorted_set : List String → List String
unfolding insert_key
sorted_set [] = []
sorted_set (k ∷ ks) = insert_key k (sorted_set ks)

pub mem-insert_key :
    (x k : String) (js : List String)
    → mem x (insert_key k js) ≡ (if str_eq k x then true else mem x js)
unfolding mem insert_key
mem-insert_key x k [] = refl
mem-insert_key x k (j ∷ js) =
    ground (arith, eq_iff j k, eq_iff j x, eq_iff k x, mem-insert_key x k js)

-- The sorted set holds the keys of the list, and no others.
pub mem-sorted_set : (x : String) (ks : List String) → mem x (sorted_set ks) ≡ mem x ks
unfolding mem sorted_set
mem-sorted_set x [] = refl
mem-sorted_set x (k ∷ ks) = ground (arith, mem-insert_key x k (sorted_set ks), mem-sorted_set x ks)

module _ {ℓ} {V : Type ℓ} where
  -- No key stands twice.
  abbrev pub IsUnique : Dict V → Type ℓ
  IsUnique [] = Unit
  IsUnique ((k, v) ∷ d) = (get k d ≡ none) × IsUnique d

  pub IsUnique-put : (k : String) (v : V) (d : Dict V) → IsUnique d → IsUnique (put k v d)
  unfolding put get
  IsUnique-put k v [] u = (refl, tt)
  IsUnique-put k v ((j, w) ∷ d) u = elim (Bool-cases (str_eq j k)) [
    | inl y ↦ rw y u
    | inr n ↦ rw n (get-put k j v d ∙ other k j n (get j d) u.0, IsUnique-put k v d u.1)
  ]
    where
      other :
          (k j : String)
          → str_eq j k ≡ false
          → (o : Option V) → o ≡ none
          → (if str_eq k j then some v else o) ≡ none
      other k j n o e = ground (arith, eq_iff k j, eq_iff j k)

  -- The entries of a dictionary are what `get` finds.
  pub All-get : (d : Dict V) → IsUnique d → All (λ p. get p.0 d ≡ some p.1) d
  unfolding get
  All-get [] u = tt
  All-get ((k, v) ∷ d) u = (
    rw ((eq_iff k k).1 refl) refl,
    All-map _ _ (λ p e. behind k v d p.0 p.1 u.0 e) d (All-get d u.1),
  )
    where
      behind :
          (k : String) (v : V) (d : Dict V) (j : String) (w : V)
          → get k d ≡ none
          → get j d ≡ some w
          → get j ((k, v) ∷ d) ≡ some w
      behind k v d j w left_out e = elim (Bool-cases (str_eq k j)) [
        | inl y ↦ absurd (let same : k ≡ j = (eq_iff k j).0 y in cc)
        | inr n ↦ rw n e
      ]
