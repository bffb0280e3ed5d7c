-- ===== src/Retrieval/Fusions.antt =====
-- rag/fusion.py: `fuse_rrf` against the score of one chunk, and the order of its hits.
use bank_reconciliation_agen.Base.{
  ℕ, suc, ◌≡◌, refl, ap, ◌∙◌, String, Option, none, some, List, [], ◌∷◌, str_eq, eq_iff,
  if◌then◌else◌, Bool-cases, inl, inr,
}
use bank_reconciliation_agen.Base.Dict.{Dict, get, put, get-put}
use bank_reconciliation_agen.Retrieval.{
  Floats, FusedHit, DenseHit, id_of, reciprocal, dense_hit, with_sparse, fuse_dense, fuse_sparse,
}

module _ {F : Type 0} (ops : Floats F) where
  -- The score of one chunk from its places in the dense hits: the last one counts.
  abbrev pub dense_part : ℕ → ℕ → String → List (DenseHit F) → Option F → Option F
  dense_part k rank x [] s = s
  dense_part k rank x (h ∷ dense) s =
      dense_part k (suc rank) x dense
        (if str_eq (id_of h.metadata) x then some (reciprocal ops k rank) else s)

  abbrev pub plus : Option F → F → F
  plus none y = ops.add ops.zero y
  plus (some x) y = ops.add x y

  -- Each of its places in the sparse hits adds to it.
  abbrev pub sparse_part : ℕ → ℕ → String → List (String × F) → Option F → Option F
  sparse_part k rank x [] s = s
  sparse_part k rank x (h ∷ sparse) s =
      sparse_part k (suc rank) x sparse
        (if str_eq h.0 x then some (plus s (reciprocal ops k rank)) else s)

  -- The reference: the score of one chunk by itself, or none if neither list has it.
  abbrev pub rrf_score : List (DenseHit F) → List (String × F) → ℕ → String → Option F
  rrf_score dense sparse k x = sparse_part k 1 x sparse (dense_part k 1 x dense none)

  abbrev pub score_of : Option (FusedHit F) → Option F
  score_of none = none
  score_of (some h) = some h.fusion_score

  score_of-put :
      (x y : String) (h : FusedHit F) (d : Dict (FusedHit F))
      → score_of (get x (put y h d))
        ≡ (if str_eq y x then some h.fusion_score else score_of (get x d))
  score_of-put x y h d = elim (Bool-cases (str_eq y x)) [
    | inl e ↦ rw (get-put y x h d, e) refl
    | inr e ↦ rw (get-put y x h d, e) refl
  ]

  pub score_of-fuse_dense :
      (k rank : ℕ) (x : String) (dense : List (DenseHit F)) (d : Dict (FusedHit F))
      → score_of (get x (fuse_dense ops k rank dense d))
        ≡ dense_part k rank x dense (score_of (get x d))
  unfolding fuse_dense
  score_of-fuse_dense k rank x [] d = refl
  score_of-fuse_dense k rank x (h ∷ dense) d =
      score_of-fuse_dense k (suc rank) x dense (put (id_of h.metadata) (dense_hit ops k rank h) d)
      ∙ ap (dense_part k (suc rank) x dense)
          (score_of-put x (id_of h.metadata) (dense_hit ops k rank h) d)

  fusion_score-with_sparse :
      (k rank : ℕ) (c : String) (b : F) (o : Option (FusedHit F))
      → (with_sparse ops k rank c b o).fusion_score ≡ plus (score_of o) (reciprocal ops k rank)
  fusion_score-with_sparse k rank c b none = refl
  fusion_score-with_sparse k rank c b (some h) = refl

  sparse_step :
      (k rank : ℕ) (x c : String) (b : F) (d : Dict (FusedHit F))
      → score_of (get x (put c (with_sparse ops k rank c b (get c d)) d)) ≡ (
          if str_eq c x
          then some (plus (score_of (get x d)) (reciprocal ops k rank))
          else score_of (get x d))
  sparse_step k rank x c b d = elim (Bool-cases (str_eq c x)) [
    | inl e ↦
        let same : c ≡ x = (eq_iff c x).0 e in
        score_of-put x c (with_sparse ops k rank c b (get c d)) d
        ∙ rw (e, fusion_score-with_sparse k rank c b (get c d), same) refl
    | inr e ↦ score_of-put x c (with_sparse ops k rank c b (get c d)) d ∙ rw e refl
  ]

  pub score_of-fuse_sparse :
      (k rank : ℕ) (x : String) (sparse : List (String × F)) (d : Dict (FusedHit F))
      → score_of (get x (fuse_sparse ops k rank sparse d))
        ≡ sparse_part k rank x sparse (score_of (get x d))
  unfolding fuse_sparse
  score_of-fuse_sparse k rank x [] d = refl
  score_of-fuse_sparse k rank x ((c, b) ∷ sparse) d =
      score_of-fuse_sparse k (suc rank) x sparse _
      ∙ ap (sparse_part k (suc rank) x sparse) (sparse_step k rank x c b d)
