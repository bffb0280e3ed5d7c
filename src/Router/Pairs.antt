-- ===== src/Router/Pairs.antt =====
-- The fuzzy pass marks only pairs whose two sides are each other's only candidate.
use bank_reconciliation_agen.Base.{
  ◌≡◌, refl, ◌∙◌, sym, ap, subst, Bool, true, ◌&&◌, ◌⊎◌, String, Option, none, some, some-injective,
  List, [], ◌∷◌, arith, str_eq, eq_iff, inl, inr, Bool-cases, Option-cases, All, All-map, keep,
}
use bank_reconciliation_agen.Base.Dict.{Dict, get, mem}
use bank_reconciliation_agen.Router.Rows.{Row, Calendar, bank_party_column, clear_party_column}
use bank_reconciliation_agen.Router.Fuzzy.{
  FuzzyCandidate, BranchResult, single, matched, candidates_by_bank, candidates_by_clear,
  fuzzy_candidate_of, partner, replace_result, replace_both, pair_one, pair_all, ids_with_error,
  apply_fuzzy_match,
}

mem-keep :
    (x : String) (p : String → Bool) (xs : List String) → mem x (keep p xs) ≡ (mem x xs && p x)
unfolding mem
mem-keep x p [] = refl
mem-keep x p (j ∷ xs) = ground (arith, eq_iff j x, mem-keep x p xs)

single-eq_some : (xs : List String) (c : String) → single xs ≡ some c → xs ≡ c ∷ []
unfolding single
single-eq_some [] c e = cc
single-eq_some (x ∷ []) c e = cc
single-eq_some (x ∷ y ∷ xs) c e = cc

mem-single : (x c : String) → mem x (c ∷ []) ≡ true → x ≡ c
unfolding mem
mem-single x c e = ground (arith, eq_iff c x)

mem_self : (c : String) → mem c (c ∷ []) ≡ true
unfolding mem
mem_self c = ground (arith, eq_iff c c)

module _ (calendar : Calendar) (scenario_type : String) (banks clears : Dict Row)
    (bank_only clear_only : List String) where
  abbrev fits : String → String → Bool
  fits b c = matched calendar scenario_type banks clears b c

  -- The two flow_ids match, no other clearing flow_id of the pass matches the bank's, and no other
  -- bank flow_id matches the clearing's.
  pub record IsMutual (b c : String) : Type 0 where
    pub bank_listed : mem b bank_only ≡ true
    pub clear_listed : mem c clear_only ≡ true
    pub fit : matched calendar scenario_type banks clears b c ≡ true
    pub only_clear :
        (x : String)
        → mem x clear_only ≡ true
        → matched calendar scenario_type banks clears b x ≡ true
        → x ≡ c
    pub only_bank :
        (x : String)
        → mem x bank_only ≡ true
        → matched calendar scenario_type banks clears x c ≡ true
        → x ≡ b

  abbrev cands : String → List String
  cands b = candidates_by_bank calendar scenario_type banks clears clear_only b

  abbrev rivals : String → List String
  rivals c = candidates_by_clear calendar scenario_type banks clears bank_only clear_only c

  mem-cands : (b x : String) → mem x (cands b) ≡ (mem x clear_only && fits b x)
  unfolding candidates_by_bank
  mem-cands b x = mem-keep x (λ c. matched calendar scenario_type banks clears b c) clear_only

  mem-rivals : (c x : String) → mem x (rivals c) ≡ (mem x bank_only && mem c (cands x))
  unfolding candidates_by_clear
  mem-rivals c x = mem-keep x (λ b. mem c (cands b)) bank_only

  partner-parts :
      (b c : String)
      → partner calendar scenario_type banks clears bank_only clear_only b ≡ some c
      → (single (cands b) ≡ some c) × ((y : String) × (single (rivals c) ≡ some y))
  unfolding partner
  partner-parts b c e = elim (Option-cases (single (cands b))) [
    | inl n ↦ absurd (ground arith)
    | inr (x, s) ↦ elim (Option-cases (single (rivals x))) [
      | inl n ↦ absurd (ground arith)
      | inr (y, t) ↦
          let same : x ≡ c = ground arith in
          subst (λ z. (single (cands b) ≡ some z) × ((y : String) × (single (rivals z) ≡ some y)))
            same (s, (y, t))
    ]
  ]

  partner-IsMutual :
      (b c : String)
      → mem b bank_only ≡ true
      → partner calendar scenario_type banks clears bank_only clear_only b ≡ some c
      → IsMutual b c
  partner-IsMutual b c listed e =
      let (s, (y, t)) = partner-parts b c e in
      let cands_eq = single-eq_some (cands b) c s in
      let rivals_eq = single-eq_some (rivals c) y t in
      let c_in : mem c (cands b) ≡ true = rw cands_eq (mem_self c) in
      let is_y : (x : String) → mem x bank_only ≡ true → mem c (cands x) ≡ true → x ≡ y = λ x m k.
        mem-single x y (sym (ap (mem x) rivals_eq) ∙ mem-rivals c x ∙ ground (arith, m, k)) in
      record {
        bank_listed = listed;
        clear_listed = ground (arith, mem-cands b c, c_in);
        fit = ground (arith, mem-cands b c, c_in);
        only_clear = λ x m k.
            mem-single x c (sym (ap (mem x) cands_eq) ∙ mem-cands b x ∙ ground (arith, m, k));
        only_bank = λ x m k.
            is_y x m (mem-cands x c ∙ ground (arith, mem-cands b c, c_in, m, k))
            ∙ sym (is_y b listed c_in);
      }

  -- What a result that bears a candidate says: its flow_id is one of a mutual pair, the candidate is
  -- made of the row of the other one, and it is classified as a fuzzy candidate of BE-R007.
  pub record IsPaired (r : BranchResult) (c : FuzzyCandidate) : Type 0 where
    pub bank_id : String
    pub clear_id : String
    pub bank_row : Row
    pub clear_row : Row
    pub is_mutual : IsMutual bank_id clear_id
    pub bank_found : get bank_id banks ≡ some bank_row
    pub clear_found : get clear_id clears ≡ some clear_row
    pub side :
        ((r.flow_id ≡ bank_id)
          × (c
              ≡ fuzzy_candidate_of calendar scenario_type
                  (clear_party_column scenario_type)
                  clear_row))
        ⊎ ((r.flow_id ≡ clear_id)
            × (c
                ≡ fuzzy_candidate_of calendar scenario_type
                    (bank_party_column scenario_type)
                    bank_row))
    pub error_type : r.error_type ≡ some "FUZZY_MATCH_CANDIDATE"
    pub exception_branch : r.exception_branch ≡ some "BE-R007"

  abbrev Paired : BranchResult → Type 0
  Paired r = (c : FuzzyCandidate) → r.fuzzy_candidate ≡ some c → IsPaired r c

  replace_result-Paired :
      (id : String) (c : FuzzyCandidate) (results : List BranchResult)
      → ((r : BranchResult)
          → r.flow_id ≡ id
          → IsPaired
              (record r {
                error_type = some "FUZZY_MATCH_CANDIDATE";
                exception_branch = some "BE-R007";
                fuzzy_candidate = some c;
              })
              c)
      → All Paired results
      → All Paired (replace_result id c results)
  unfolding replace_result
  replace_result-Paired id c [] new h = tt
  replace_result-Paired id c (r ∷ results) new h = elim (Bool-cases (str_eq r.flow_id id)) [
    | inl e ↦ rw e (
      λ d is_d. subst (IsPaired _) (some-injective _ _ is_d) (new r ((eq_iff r.flow_id id).0 e)),
      replace_result-Paired id c results new h.1,
    )
    | inr e ↦ rw e (h.0, replace_result-Paired id c results new h.1)
  ]

  module _ (b c : String) (is_mutual : IsMutual b c) where
    replace_both-Paired :
        (bank clear : Option Row) (results : List BranchResult)
        → bank ≡ get b banks
        → clear ≡ get c clears
        → All Paired results
        → All Paired (replace_both calendar scenario_type b c bank clear results)
    unfolding replace_both
    replace_both-Paired none clear results eb ec h = h
    replace_both-Paired (some bank) none results eb ec h = h
    replace_both-Paired (some bank) (some clear) results eb ec h =
        replace_result-Paired c _ _
          (λ r e. record {
            bank_id = b;
            clear_id = c;
            bank_row = bank;
            clear_row = clear;
            is_mutual = is_mutual;
            bank_found = sym eb;
            clear_found = sym ec;
            side = inr (e, refl);
            error_type = refl;
            exception_branch = refl;
          })
          (replace_result-Paired b _ results
            (λ r e. record {
              bank_id = b;
              clear_id = c;
              bank_row = bank;
              clear_row = clear;
              is_mutual = is_mutual;
              bank_found = sym eb;
              clear_found = sym ec;
              side = inl (e, refl);
              error_type = refl;
              exception_branch = refl;
            })
            h)

  pair_one-Paired :
      (b : String) (results : List BranchResult)
      → mem b bank_only ≡ true
      → All Paired results
      → All Paired (pair_one calendar scenario_type banks clears bank_only clear_only b results)
  unfolding pair_one
  pair_one-Paired b results listed h =
      elim (Option-cases (partner calendar scenario_type banks clears bank_only clear_only b)) [
        | inl n ↦ rw (n, pair_one) h
        | inr (c, e) ↦
            rw (e, pair_one)
              (replace_both-Paired b c (partner-IsMutual b c listed e) (get b banks) (get c clears)
                results refl refl h)
      ]

  pair_all-Paired :
      (ids : List String) (results : List BranchResult)
      → All (λ b. mem b bank_only ≡ true) ids
      → All Paired results
      → All Paired (pair_all calendar scenario_type banks clears bank_only clear_only ids results)
  unfolding pair_all
  pair_all-Paired [] results listed h = h
  pair_all-Paired (b ∷ ids) results listed h =
      pair_all-Paired ids _ listed.1 (pair_one-Paired b results listed.0 h)

All-mem_cons :
    (k : String) (ks xs : List String)
    → All (λ x. mem x ks ≡ true) xs
    → All (λ x. mem x (k ∷ ks) ≡ true) xs
unfolding mem
All-mem_cons k ks [] h = tt
All-mem_cons k ks (x ∷ xs) h = (ground arith, All-mem_cons k ks xs h.1)

All-mem_self : (ks : List String) → All (λ x. mem x ks ≡ true) ks
unfolding mem
All-mem_self [] = tt
All-mem_self (k ∷ ks) = (ground (arith, eq_iff k k), All-mem_cons k ks ks (All-mem_self ks))

none_is_some : {o : Option FuzzyCandidate} {c : FuzzyCandidate} → o ≡ none → o ≡ some c → ⊥
none_is_some n e = cc

-- After the fuzzy pass over results that bear no candidate yet, a result that bears one is of a
-- flow_id that is in a mutual pair among the BOOK_UNRECORDED and the BANK_UNARRIVED results: the two
-- rows match, neither matches another flow_id of the other side, and the candidate shows the row of
-- the other flow_id. Outside BANK_ENTERPRISE no result bears one.
pub candidates_mutual :
    (calendar : Calendar) (scenario_type : String) (banks clears : Dict Row)
    (results : List BranchResult)
    → All (λ r. r.fuzzy_candidate ≡ none) results
    → All
        (λ r.
          (c : FuzzyCandidate)
          → r.fuzzy_candidate ≡ some c
          → (str_eq scenario_type "BANK_ENTERPRISE" ≡ true)
            × IsPaired calendar scenario_type banks clears
                (ids_with_error "BOOK_UNRECORDED" results)
                (ids_with_error "BANK_UNARRIVED" results)
                r
                c)
        (apply_fuzzy_match calendar scenario_type banks clears results)
unfolding apply_fuzzy_match
candidates_mutual calendar scenario_type banks clears results fresh =
    let bank_only = ids_with_error "BOOK_UNRECORDED" results in
    let clear_only = ids_with_error "BANK_UNARRIVED" results in
    elim (Bool-cases (str_eq scenario_type "BANK_ENTERPRISE")) [
      | inl e ↦ rw e (
          All-map
            (λ r.
              (c : FuzzyCandidate)
              → r.fuzzy_candidate ≡ some c
              → IsPaired calendar scenario_type banks clears bank_only clear_only r c)
            _ (λ r p c is_c. (refl, p c is_c)) _
            (pair_all-Paired calendar scenario_type banks clears bank_only clear_only bank_only
              results (All-mem_self bank_only)
              (All-map (λ r. r.fuzzy_candidate ≡ none) _
                (λ r n c is_c. absurd (none_is_some n is_c)) results fresh)))
      | inr e ↦ rw e (
          All-map (λ r. r.fuzzy_candidate ≡ none) _ (λ r n c is_c. absurd (none_is_some n is_c))
            results fresh)
    ]
