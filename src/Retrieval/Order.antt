-- ===== src/Retrieval/Order.antt =====
-- rag/fusion.py: what `fuse_rrf` gives, sorted and numbered.
use bank_reconciliation_agen.Base.{
  ℕ, suc, ◌≡◌, refl, sym, ap, ◌∙◌, Bool, true, false, ◌||◌, String, Option, none, some, List, [],
  ◌∷◌, str_eq, any, All, is_some, Bool-cases, inl, inr, arith,
}
use bank_reconciliation_agen.Base.Table.{count_where}
use bank_reconciliation_agen.Base.Dict.{get}
use bank_reconciliation_agen.Retrieval.{
  Floats, FusedHit, DenseHit, id_of, values, tuple_lt, insert_hit, sort_hits, fusion_key,
  number_hits, fuse_rrf, reciprocal,
}
use bank_reconciliation_agen.Retrieval.Fusions.{dense_part, sparse_part, plus, rrf_score, score_of}
use bank_reconciliation_agen.Retrieval.Hits.{
  IsOrder, is_one, count_id, count_id-values, fused_hits, fused_hits-IsTable, score_of-fused_hits,
  HasScore, values-HasScore,
}

module _ {F : Type 0} (ops : Floats F) where
  count_id-insert_hit :
      (key : FusedHit F → List F) (x : String) (h : FusedHit F) (hits : List (FusedHit F))
      → count_id ops x (insert_hit ops key h hits) ≡ count_id ops x (h ∷ hits)
  unfolding insert_hit count_where
  count_id-insert_hit key x h [] = refl
  count_id-insert_hit key x h (g ∷ hits) = elim (Bool-cases (tuple_lt ops (key h) (key g))) [
    | inl y ↦ rw (y, count_id-insert_hit key x h hits) (ground arith)
    | inr n ↦ rw n refl
  ]

  pub count_id-sort_hits :
      (key : FusedHit F → List F) (x : String) (hits : List (FusedHit F))
      → count_id ops x (sort_hits ops key hits) ≡ count_id ops x hits
  unfolding sort_hits count_where
  count_id-sort_hits key x [] = refl
  count_id-sort_hits key x (h ∷ hits) =
      count_id-insert_hit key x h (sort_hits ops key hits) ∙ rw (count_id-sort_hits key x hits) refl

  count_id-number_hits :
      (x : String) (n : ℕ) (hits : List (FusedHit F))
      → count_id ops x (number_hits ops n hits) ≡ count_id ops x hits
  unfolding number_hits count_where
  count_id-number_hits x n [] = refl
  count_id-number_hits x n (h ∷ hits) = rw (count_id-number_hits x (suc n) hits) refl

  All-insert_hit :
      (P : FusedHit F → Type 0) (key : FusedHit F → List F) (h : FusedHit F)
      (hits : List (FusedHit F))
      → P h
      → All P hits
      → All P (insert_hit ops key h hits)
  unfolding insert_hit
  All-insert_hit P key h [] p q = (p, tt)
  All-insert_hit P key h (g ∷ hits) p q = elim (Bool-cases (tuple_lt ops (key h) (key g))) [
    | inl y ↦ rw y (q.0, All-insert_hit P key h hits p q.1)
    | inr n ↦ rw n (p, q)
  ]

  pub All-sort_hits :
      (P : FusedHit F → Type 0) (key : FusedHit F → List F) (hits : List (FusedHit F))
      → All P hits
      → All P (sort_hits ops key hits)
  unfolding sort_hits
  All-sort_hits P key [] p = tt
  All-sort_hits P key (h ∷ hits) p =
      All-insert_hit P key h (sort_hits ops key hits) p.0 (All-sort_hits P key hits p.1)

  -- No hit has a smaller key than the next one.
  abbrev pub IsDescending : (FusedHit F → List F) → List (FusedHit F) → Type 0
  IsDescending key [] = Unit
  IsDescending key (h ∷ []) = Unit
  IsDescending key (h ∷ g ∷ hits) =
      (tuple_lt ops (key h) (key g) ≡ false) × IsDescending key (g ∷ hits)

  -- The hits have the ranks `n`, `n + 1` and so on.
  abbrev pub IsNumbered : ℕ → List (FusedHit F) → Type 0
  IsNumbered n [] = Unit
  IsNumbered n (h ∷ hits) = (h.fusion_rank ≡ n) × IsNumbered (suc n) hits

  number_hits-IsNumbered :
      (n : ℕ) (hits : List (FusedHit F)) → IsNumbered n (number_hits ops n hits)
  unfolding number_hits
  number_hits-IsNumbered n [] = tt
  number_hits-IsNumbered n (h ∷ hits) = (refl, number_hits-IsNumbered (suc n) hits)

  number_hits-HasScore :
      (dense : List (DenseHit F)) (sparse : List (String × F)) (k n : ℕ) (hits : List (FusedHit F))
      → All (HasScore ops dense sparse k) hits
      → All (HasScore ops dense sparse k) (number_hits ops n hits)
  unfolding number_hits
  number_hits-HasScore dense sparse k n [] h = tt
  number_hits-HasScore dense sparse k n (x ∷ hits) h =
      (h.0, number_hits-HasScore dense sparse k (suc n) hits h.1)

  number_hits-IsDescending :
      (n : ℕ) (hits : List (FusedHit F))
      → IsDescending (fusion_key ops) hits
      → IsDescending (fusion_key ops) (number_hits ops n hits)
  unfolding number_hits
  number_hits-IsDescending n [] h = tt
  number_hits-IsDescending n (x ∷ []) h = tt
  number_hits-IsDescending n (x ∷ y ∷ hits) h =
      (h.0, number_hits-IsDescending (suc n) (y ∷ hits) h.1)

  module _ (order : IsOrder ops) where
    tuple_lt_asymmetric : (xs ys : List F) → tuple_lt ops xs ys ≡ true → tuple_lt ops ys xs ≡ false
    tuple_lt_asymmetric [] [] e = refl
    tuple_lt_asymmetric [] (y ∷ ys) e = refl
    tuple_lt_asymmetric (x ∷ xs) [] e = absurd (ground arith)
    tuple_lt_asymmetric (x ∷ xs) (y ∷ ys) e =
        ground (arith, order.eq_symmetric x y, order.lt_asymmetric x y, tuple_lt_asymmetric xs ys)

    module _ (key : FusedHit F → List F) where
      -- Behind `g` comes the new hit or the one that came before.
      behind :
          (g h : FusedHit F) (hits : List (FusedHit F))
          → tuple_lt ops (key h) (key g) ≡ true
          → IsDescending key (g ∷ hits)
          → IsDescending key (insert_hit ops key h hits)
          → IsDescending key (g ∷ insert_hit ops key h hits)
      unfolding insert_hit
      behind g h [] e d i = (tuple_lt_asymmetric (key h) (key g) e, tt)
      behind g h (f ∷ hits) e d i = elim (Bool-cases (tuple_lt ops (key h) (key f))) [
        | inl y ↦ rw y (d.0, rw y at i)
        | inr n ↦ rw n (tuple_lt_asymmetric (key h) (key g) e, rw n at i)
      ]

      IsDescending-tail :
          (g : FusedHit F) (hits : List (FusedHit F))
          → IsDescending key (g ∷ hits)
          → IsDescending key hits
      IsDescending-tail g [] d = tt
      IsDescending-tail g (f ∷ hits) d = d.1

      insert_hit-IsDescending :
          (h : FusedHit F) (hits : List (FusedHit F))
          → IsDescending key hits
          → IsDescending key (insert_hit ops key h hits)
      unfolding insert_hit
      insert_hit-IsDescending h [] d = tt
      insert_hit-IsDescending h (g ∷ hits) d = elim (Bool-cases (tuple_lt ops (key h) (key g))) [
        | inl y ↦
            let tail = insert_hit-IsDescending h hits (IsDescending-tail g hits d) in
            rw y (behind g h hits y d tail)
        | inr n ↦ rw n (n, d)
      ]

      pub sort_hits-IsDescending :
          (hits : List (FusedHit F)) → IsDescending key (sort_hits ops key hits)
      unfolding sort_hits
      sort_hits-IsDescending [] = tt
      sort_hits-IsDescending (h ∷ hits) =
          insert_hit-IsDescending h (sort_hits ops key hits) (sort_hits-IsDescending hits)

module _ {F : Type 0} (ops : Floats F) where
  -- The chunk stands in one of the two lists.
  abbrev pub is_listed : List (DenseHit F) → List (String × F) → String → Bool
  is_listed dense sparse x =
      any (λ h. str_eq (id_of h.metadata) x) dense || any (λ h. str_eq h.0 x) sparse

  is_some-dense_part :
      (k rank : ℕ) (x : String) (dense : List (DenseHit F)) (s : Option F)
      → is_some (dense_part ops k rank x dense s)
        ≡ (is_some s || any (λ h. str_eq (id_of h.metadata) x) dense)
  is_some-dense_part k rank x [] s = ground arith
  is_some-dense_part k rank x (h ∷ dense) s = elim (Bool-cases (str_eq (id_of h.metadata) x)) [
    | inl y ↦
        rw (y, is_some-dense_part k (suc rank) x dense (some (reciprocal ops k rank)))
          (ground arith)
    | inr n ↦ rw (n, is_some-dense_part k (suc rank) x dense s) refl
  ]

  is_some-sparse_part :
      (k rank : ℕ) (x : String) (sparse : List (String × F)) (s : Option F)
      → is_some (sparse_part ops k rank x sparse s) ≡ (is_some s || any (λ h. str_eq h.0 x) sparse)
  is_some-sparse_part k rank x [] s = ground arith
  is_some-sparse_part k rank x (h ∷ sparse) s = elim (Bool-cases (str_eq h.0 x)) [
    | inl y ↦
        rw
          (y, is_some-sparse_part k (suc rank) x sparse (some (plus ops s (reciprocal ops k rank))))
          (ground arith)
    | inr n ↦ rw (n, is_some-sparse_part k (suc rank) x sparse s) refl
  ]

  is_some-score_of : (o : Option (FusedHit F)) → is_some (score_of ops o) ≡ is_some o
  is_some-score_of none = refl
  is_some-score_of (some h) = refl

  is_some-rrf_score :
      (dense : List (DenseHit F)) (sparse : List (String × F)) (k : ℕ) (x : String)
      → is_some (rrf_score ops dense sparse k x) ≡ is_listed dense sparse x
  is_some-rrf_score dense sparse k x =
      is_some-sparse_part k 1 x sparse (dense_part ops k 1 x dense none)
      ∙ rw (is_some-dense_part k 1 x dense none) refl

  -- Each chunk of either list is one of the fused hits, and no other one is.
  pub count_id-fuse_rrf :
      (dense : List (DenseHit F)) (sparse : List (String × F)) (k : ℕ) (x : String)
      → count_id ops x (fuse_rrf ops dense sparse k) ≡ is_one (is_listed dense sparse x)
  unfolding fuse_rrf
  count_id-fuse_rrf dense sparse k x =
      let d = fused_hits ops dense sparse k in
      let t = fused_hits-IsTable ops dense sparse k in
      count_id-number_hits ops x 1 (sort_hits ops (fusion_key ops) (values d))
      ∙ count_id-sort_hits ops (fusion_key ops) x (values d)
      ∙ count_id-values ops x d t.unique t.keyed
      ∙ ap is_one (
          sym (is_some-score_of (get x d))
          ∙ ap is_some (score_of-fused_hits ops dense sparse k x)
          ∙ is_some-rrf_score dense sparse k x)

  -- The fused list of two lists of hits.
  pub record IsFusion (dense : List (DenseHit F)) (sparse : List (String × F)) (k : ℕ)
      (hits : List (FusedHit F)) : Type 0 where
    pub once : (x : String) → count_id ops x hits ≡ is_one (is_listed dense sparse x)
    pub scored : All (HasScore ops dense sparse k) hits
    pub numbered : IsNumbered ops 1 hits
    pub descending : IsDescending ops (fusion_key ops) hits

  -- Each chunk of either list is one hit of the fusion, and there are no others. Its score is the sum of
  -- 1 / (k + rank) over its places, as the reference for one chunk has it. No hit is before one with a
  -- greater key of fusion, dense and sparse score, and the ranks count from 1.
  pub fuse_rrf-IsFusion :
      IsOrder ops
      → (dense : List (DenseHit F)) (sparse : List (String × F)) (k : ℕ)
      → IsFusion dense sparse k (fuse_rrf ops dense sparse k)
  unfolding fuse_rrf
  fuse_rrf-IsFusion order dense sparse k =
      let hits = values (fused_hits ops dense sparse k) in
      let sorted = sort_hits ops (fusion_key ops) hits in
      record {
        once = count_id-fuse_rrf dense sparse k;
        scored = number_hits-HasScore ops dense sparse k 1 sorted (
            All-sort_hits ops (HasScore ops dense sparse k) (fusion_key ops) hits
              (values-HasScore ops dense sparse k));
        numbered = number_hits-IsNumbered ops 1 sorted;
        descending =
            number_hits-IsDescending ops 1 sorted
              (sort_hits-IsDescending ops order (fusion_key ops) hits);
      }
