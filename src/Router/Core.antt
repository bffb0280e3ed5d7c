-- ===== src/Router/Core.antt =====
-- `classify` covers every flow_id once, and its fuzzy pass alters only the classification fields.
use bank_reconciliation_agen.Amount.{fits_context}
use bank_reconciliation_agen.Base.{
  all, ◌≡◌, refl, ◌∙◌, sym, ap, ap₂, subst, some-injective, true, ◌||◌, String, Option, none, some,
  List, [], ◌∷◌, ◌++◌, map, arith, str_eq, eq_iff, if◌then◌else◌, inl, inr, Bool-cases,
  Option-cases, All,
}
use bank_reconciliation_agen.Base.Dict.{Dict, get, keys, put, mem, sorted_set, mem-sorted_set}
use bank_reconciliation_agen.Base.TextOrder.{IsAscending, sorted_set-IsAscending}
use bank_reconciliation_agen.Router.{all_duplicates, push, classify_one, classify_all, classify}
use bank_reconciliation_agen.Router.Rows.{Row, Calendar, add_rows, rows_by_flow_id}
use bank_reconciliation_agen.Router.Fuzzy.{
  FuzzyCandidate, BranchResult, replace_result, replace_both, partner, pair_one, pair_all,
  ids_with_error, apply_fuzzy_match,
}

-- A result without the three fields that the fuzzy pass may write.
abbrev pub core : BranchResult → BranchResult
core r = record r { error_type = none; exception_branch = none; fuzzy_candidate = none }

map-core-replace_result :
    (id : String) (c : FuzzyCandidate) (results : List BranchResult)
    → map core (replace_result id c results) ≡ map core results
unfolding replace_result
map-core-replace_result id c [] = refl
map-core-replace_result id c (r ∷ results) = ground (arith, map-core-replace_result id c results)

map-core-replace_both :
    (calendar : Calendar) (scenario_type bank_id clear_id : String) (b c : Option Row)
    (results : List BranchResult)
    → map core (replace_both calendar scenario_type bank_id clear_id b c results) ≡ map core results
unfolding replace_both
map-core-replace_both calendar scenario_type bank_id clear_id none c results = refl
map-core-replace_both calendar scenario_type bank_id clear_id (some b) none results = refl
map-core-replace_both calendar scenario_type bank_id clear_id (some b) (some c) results =
    map-core-replace_result _ _ _ ∙ map-core-replace_result _ _ _

module _ (calendar : Calendar) (scenario_type : String) (banks clears : Dict Row) where
  map-core-pair_one :
      (bank_only clear_only : List String) (id : String) (results : List BranchResult)
      → map core (pair_one calendar scenario_type banks clears bank_only clear_only id results)
        ≡ map core results
  unfolding pair_one
  map-core-pair_one bank_only clear_only id results =
      elim (Option-cases (partner calendar scenario_type banks clears bank_only clear_only id)) [
        | inl e ↦ rw (e, pair_one) refl
        | inr (c, e) ↦
            rw (e, pair_one) (map-core-replace_both calendar scenario_type id c _ _ results)
      ]

  map-core-pair_all :
      (bank_only clear_only ids : List String) (results : List BranchResult)
      → map core (pair_all calendar scenario_type banks clears bank_only clear_only ids results)
        ≡ map core results
  unfolding pair_all
  map-core-pair_all bank_only clear_only [] results = refl
  map-core-pair_all bank_only clear_only (id ∷ ids) results =
      map-core-pair_all bank_only clear_only ids _
      ∙ map-core-pair_one bank_only clear_only id results

  -- The fuzzy pass keeps every result's place, flow_id, action, amounts and T+1 candidate.
  pub map-core-apply_fuzzy_match :
      (results : List BranchResult)
      → map core (apply_fuzzy_match calendar scenario_type banks clears results) ≡ map core results
  unfolding apply_fuzzy_match
  map-core-apply_fuzzy_match results = elim (Bool-cases (str_eq scenario_type "BANK_ENTERPRISE")) [
    | inl e ↦ rw e (
        map-core-pair_all (ids_with_error "BOOK_UNRECORDED" results)
          (ids_with_error "BANK_UNARRIVED" results) (ids_with_error "BOOK_UNRECORDED" results)
          results)
    | inr e ↦ rw e refl
  ]

unfoldable pub flow_ids : List BranchResult → List String
flow_ids results = map (λ (r : BranchResult). r.flow_id) results

flow_ids-core : (xs : List BranchResult) → flow_ids (map core xs) ≡ flow_ids xs
unfolding flow_ids
flow_ids-core [] = refl
flow_ids-core (x ∷ xs) = ap (λ ids. x.flow_id ∷ ids) (flow_ids-core xs)

flow_ids-of-core :
    (xs ys : List BranchResult) → map core xs ≡ map core ys → flow_ids xs ≡ flow_ids ys
flow_ids-of-core xs ys e = sym (flow_ids-core xs) ∙ ap flow_ids e ∙ flow_ids-core ys

-- A predicate that reads only what `core` keeps holds of one list if it holds of the other.
pub All-core :
    (P : BranchResult → Type 0) (xs : List BranchResult)
    → All (λ r. P (core r)) xs
    → All P (map core xs)
All-core P [] h = tt
All-core P (x ∷ xs) h = (h.0, All-core P xs h.1)

pub All-uncore :
    (P : BranchResult → Type 0) (xs : List BranchResult)
    → All P (map core xs)
    → All (λ r. P (core r)) xs
All-uncore P [] h = tt
All-uncore P (x ∷ xs) h = (h.0, All-uncore P xs h.1)

mem-append : (x : String) (ks js : List String) → mem x (ks ++ js) ≡ (mem x ks || mem x js)
unfolding mem
mem-append x [] js = refl
mem-append x (k ∷ ks) js = ground (arith, mem-append x ks js)

mem-keys-put :
    (x k : String) (v : Row) (d : Dict Row)
    → mem x (keys (put k v d)) ≡ (if str_eq k x then true else mem x (keys d))
unfolding mem keys put
mem-keys-put x k v [] = refl
mem-keys-put x k v ((j, w) ∷ d) =
    ground (arith, mem-keys-put x k v d, eq_iff j k, eq_iff j x, eq_iff k x)

unfoldable pub ids_of : List Row → List String
ids_of rows = map (λ (r : Row). r.flow_id) rows

mem-keys-add_rows :
    (x : String) (rows : List Row) (d : Dict Row)
    → mem x (keys (add_rows rows d)) ≡ (mem x (ids_of rows) || mem x (keys d))
unfolding add_rows ids_of mem
mem-keys-add_rows x [] d = refl
mem-keys-add_rows x (row ∷ rows) d =
    ground
      (arith, mem-keys-add_rows x rows (put row.flow_id row d), mem-keys-put x row.flow_id row d)

mem-keys-rows :
    (x : String) (rows : List Row) → mem x (keys (rows_by_flow_id rows)) ≡ mem x (ids_of rows)
unfolding rows_by_flow_id keys mem
mem-keys-rows x rows = ground (arith, mem-keys-add_rows x rows [])

mapped-eq_some {ℓ κ} :
    {A : Type ℓ} {B : Type κ} (o : Option A) (f : A → B) {b : B}
    → elim o as (λ _. Option B) [ none ↦ none | some a ↦ some (f a) ] ≡ some b
    → (a : A) × (o ≡ some a) × (b ≡ f a)
mapped-eq_some none f e = cc
mapped-eq_some (some a) f e = (a, refl, sym (some-injective _ _ e))

module _ (calendar : Calendar) (scenario_type setting : String) where
  push-eq_some :
      (o : Option BranchResult) (os : Option (List BranchResult)) (rs : List BranchResult)
      → push o os ≡ some rs
      → (r : BranchResult) × (results : List BranchResult) × (o ≡ some r)
        × (os ≡ some results)
        × (rs ≡ r ∷ results)
  unfolding push
  push-eq_some none os rs e = cc
  push-eq_some (some r) none rs e = cc
  push-eq_some (some r) (some results) rs e = (r, results, refl, refl, ground arith)

  module _ (bank_rows : List Row) (banks clears : Dict Row) (duplicates : List String) where
    abbrev pub one : String → Option BranchResult
    one id =
        classify_one calendar scenario_type setting bank_rows id (get id banks) (get id clears)
          (mem id duplicates)

    abbrev all_of : List String → Option (List BranchResult)
    all_of ids = classify_all calendar scenario_type setting bank_rows banks clears duplicates ids

    -- What each round of the loop gives, all results of the loop have.
    pub classify_all-All :
        (P : BranchResult → Type 0)
        → ((id : String) (r : BranchResult) → one id ≡ some r → P r)
        → (ids : List String) (rs : List BranchResult) → all_of ids ≡ some rs
        → All P rs
    unfolding classify_all
    classify_all-All P each [] rs e = subst (All P) (some-injective _ _ e) tt
    classify_all-All P each (id ∷ ids) rs e =
        let (r, results, first, others, is_cons) = push-eq_some (one id) (all_of ids) rs e in
        rw is_cons (each id r first, classify_all-All P each ids results others)

    flow_id-one : (id : String) (r : BranchResult) → one id ≡ some r → r.flow_id ≡ id
    unfolding classify_one
    flow_id-one id r e = ground arith

    flow_ids-classify_all :
        (ids : List String) (rs : List BranchResult) → all_of ids ≡ some rs → flow_ids rs ≡ ids
    unfolding classify_all flow_ids
    flow_ids-classify_all [] rs e = ap flow_ids (sym (some-injective _ _ e))
    flow_ids-classify_all (id ∷ ids) rs e =
        let (r, results, first, others, is_cons) = push-eq_some (one id) (all_of ids) rs e in
        rw is_cons (ap₂ ◌∷◌ (flow_id-one id r first) (flow_ids-classify_all ids results others))

  -- What `classify` returns is the loop's results after the fuzzy pass.
  pub classify-eq_some :
      (bank_rows clear_rows : List Row) (rs : List BranchResult)
      → classify calendar scenario_type setting bank_rows clear_rows ≡ some rs
      → let banks = rows_by_flow_id bank_rows in
        let clears = rows_by_flow_id clear_rows in
        (results : List BranchResult) × (classify_all calendar scenario_type setting bank_rows banks
            clears
            (all_duplicates scenario_type bank_rows clear_rows)
            (sorted_set (keys banks ++ keys clears))
          ≡ some results)
        × (rs ≡ apply_fuzzy_match calendar scenario_type banks clears results)
  unfolding classify
  classify-eq_some bank_rows clear_rows rs e =
      elim (Bool-cases (all (λ (row : Row). fits_context row.amount) (bank_rows ++ clear_rows))) [
        | inl y ↦ mapped-eq_some _ _ (rw (classify, y) at e)
        | inr n ↦ absurd (let o : none ≡ some rs = rw (classify, n) at e in cc)
      ]

  -- When `classify` returns, its results are in ascending order of flow_id, no two for one flow_id,
  -- and there is a result for a flow_id exactly if a row of one of the two sides has it.
  pub classify_covers :
      (bank_rows clear_rows : List Row) {rs : List BranchResult}
      → classify calendar scenario_type setting bank_rows clear_rows ≡ some rs
      → IsAscending (flow_ids rs)
        × ((x : String)
            → mem x (flow_ids rs) ≡ (mem x (ids_of bank_rows) || mem x (ids_of clear_rows)))
  classify_covers bank_rows clear_rows {rs} e =
      let banks = rows_by_flow_id bank_rows in
      let clears = rows_by_flow_id clear_rows in
      let (results, loop, is_fuzzy) = classify-eq_some bank_rows clear_rows rs e in
      let same : flow_ids rs ≡ sorted_set (keys banks ++ keys clears) =
        ap flow_ids is_fuzzy
        ∙ flow_ids-of-core _ results
            (map-core-apply_fuzzy_match calendar scenario_type banks clears results)
        ∙ flow_ids-classify_all bank_rows banks clears
            (all_duplicates scenario_type bank_rows clear_rows) _ results loop in
      rw same (
        sorted_set-IsAscending (keys banks ++ keys clears),
        λ x.
            mem-sorted_set x (keys banks ++ keys clears)
            ∙ mem-append x (keys banks) (keys clears)
            ∙ ap₂ ◌||◌ (mem-keys-rows x bank_rows) (mem-keys-rows x clear_rows),
      )
