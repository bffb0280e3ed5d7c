-- ===== src/Retrieval/Hits.antt =====
-- rag/fusion.py: each chunk of either list is one of the fused hits, with its score, in order.
use bank_reconciliation_agen.Base.{
  ℕ, suc, ◌≡◌, refl, sym, ap, ◌∙◌, Bool, true, false, String, none, some, List, [], ◌∷◌, str_eq,
  eq_iff, All, is_some, if◌then◌else◌, Bool-cases, inl, inr,
}
use bank_reconciliation_agen.Base.Table.{count_where}
use bank_reconciliation_agen.Base.Dict.{Dict, get, put, IsUnique, IsUnique-put, All-get}
use bank_reconciliation_agen.Retrieval.{
  Floats, FusedHit, DenseHit, id_of, values, dense_hit, with_sparse, fuse_dense, fuse_sparse,
}
use bank_reconciliation_agen.Retrieval.Fusions.{
  sparse_part, rrf_score, score_of, score_of-fuse_dense, score_of-fuse_sparse,
}

abbrev pub is_one : Bool → ℕ
is_one b = if b then 1 else 0

-- What holds of two floats, NaN included: equality is symmetric, and the order is not.
pub record IsOrder {F : Type 0} (ops : Floats F) : Type 0 where
  pub eq_symmetric : (x y : F) → ops.eq x y ≡ ops.eq y x
  pub lt_asymmetric : (x y : F) → ops.lt x y ≡ true → ops.lt y x ≡ false

module _ {F : Type 0} (ops : Floats F) where
  abbrev pub Keyed : Dict (FusedHit F) → Type 0
  Keyed d = All (λ p. p.1.chunk_id ≡ p.0) d

  Keyed-put :
      (k : String) (h : FusedHit F) (d : Dict (FusedHit F))
      → h.chunk_id ≡ k
      → Keyed d
      → Keyed (put k h d)
  unfolding put
  Keyed-put k h [] e u = (e, tt)
  Keyed-put k h ((j, g) ∷ d) e u = elim (Bool-cases (str_eq j k)) [
    | inl y ↦ let same : j ≡ k = (eq_iff j k).0 y in rw y (e ∙ sym same, u.1)
    | inr n ↦ rw n (u.0, Keyed-put k h d e u.1)
  ]

  chunk_id-with_sparse :
      (k rank : ℕ) (c : String) (b : F) (d : Dict (FusedHit F))
      → Keyed d
      → (with_sparse ops k rank c b (get c d)).chunk_id ≡ c
  unfolding get
  chunk_id-with_sparse k rank c b [] u = refl
  chunk_id-with_sparse k rank c b ((j, g) ∷ d) u = elim (Bool-cases (str_eq j c)) [
    | inl y ↦ let same : j ≡ c = (eq_iff j c).0 y in rw y (u.0 ∙ same)
    | inr n ↦ rw n (chunk_id-with_sparse k rank c b d u.1)
  ]

  -- The dictionary of the fused hits.
  pub record IsTable (d : Dict (FusedHit F)) : Type 0 where
    pub unique : IsUnique d
    pub keyed : Keyed d

  fuse_dense-IsTable :
      (k rank : ℕ) (dense : List (DenseHit F)) (d : Dict (FusedHit F))
      → IsTable d
      → IsTable (fuse_dense ops k rank dense d)
  unfolding fuse_dense
  fuse_dense-IsTable k rank [] d t = t
  fuse_dense-IsTable k rank (h ∷ dense) d t =
      let hit = dense_hit ops k rank h in
      fuse_dense-IsTable k (suc rank) dense (put (id_of h.metadata) hit d) (record {
        unique = IsUnique-put (id_of h.metadata) hit d t.unique;
        keyed = Keyed-put (id_of h.metadata) hit d refl t.keyed;
      })

  fuse_sparse-IsTable :
      (k rank : ℕ) (sparse : List (String × F)) (d : Dict (FusedHit F))
      → IsTable d
      → IsTable (fuse_sparse ops k rank sparse d)
  unfolding fuse_sparse
  fuse_sparse-IsTable k rank [] d t = t
  fuse_sparse-IsTable k rank ((c, b) ∷ sparse) d t =
      let hit = with_sparse ops k rank c b (get c d) in
      fuse_sparse-IsTable k (suc rank) sparse (put c hit d) (record {
        unique = IsUnique-put c hit d t.unique;
        keyed = Keyed-put c hit d (chunk_id-with_sparse k rank c b d t.keyed) t.keyed;
      })

  All-values :
      (P : FusedHit F → Type 0) (d : Dict (FusedHit F)) → All (λ p. P p.1) d → All P (values d)
  unfolding values
  All-values P [] h = tt
  All-values P ((k, v) ∷ d) h = (h.0, All-values P d h.1)

  abbrev pub count_id : String → List (FusedHit F) → ℕ
  count_id x hits = count_where (λ h. str_eq h.chunk_id x) hits

  pub count_id-values :
      (x : String) (d : Dict (FusedHit F))
      → IsUnique d
      → Keyed d
      → count_id x (values d) ≡ is_one (is_some (get x d))
  unfolding values get count_where
  count_id-values x [] u t = refl
  count_id-values x ((k, h) ∷ d) u t = elim (Bool-cases (str_eq k x)) [
    | inl y ↦
        let same : k ≡ x = (eq_iff k x).0 y in
        let free : get x d ≡ none = rw same at u.0 in
        rw (t.0, y, count_id-values x d u.1 t.1, free) refl
    | inr n ↦ rw (t.0, n, count_id-values x d u.1 t.1) refl
  ]

  -- The fused hits before they are sorted.
  abbrev pub fused_hits : List (DenseHit F) → List (String × F) → ℕ → Dict (FusedHit F)
  fused_hits dense sparse k = fuse_sparse ops k 1 sparse (fuse_dense ops k 1 dense [])

  pub fused_hits-IsTable :
      (dense : List (DenseHit F)) (sparse : List (String × F)) (k : ℕ)
      → IsTable (fused_hits dense sparse k)
  fused_hits-IsTable dense sparse k =
      fuse_sparse-IsTable k 1 sparse _
        (fuse_dense-IsTable k 1 dense [] (record { unique = tt; keyed = tt }))

  pub score_of-fused_hits :
      (dense : List (DenseHit F)) (sparse : List (String × F)) (k : ℕ) (x : String)
      → score_of ops (get x (fused_hits dense sparse k)) ≡ rrf_score ops dense sparse k x
  unfolding get
  score_of-fused_hits dense sparse k x =
      score_of-fuse_sparse ops k 1 x sparse (fuse_dense ops k 1 dense [])
      ∙ ap (sparse_part ops k 1 x sparse) (score_of-fuse_dense ops k 1 x dense [])

  abbrev pub HasScore : List (DenseHit F) → List (String × F) → ℕ → FusedHit F → Type 0
  HasScore dense sparse k h = rrf_score ops dense sparse k h.chunk_id ≡ some h.fusion_score

  found_score :
      (dense : List (DenseHit F)) (sparse : List (String × F)) (k : ℕ) (c : String) (h : FusedHit F)
      → get c (fused_hits dense sparse k) ≡ some h
      → h.chunk_id ≡ c
      → HasScore dense sparse k h
  found_score dense sparse k c h e same =
      rw same (sym (score_of-fused_hits dense sparse k c) ∙ rw e refl)

  All-zip {ℓ} :
      {A : Type ℓ} (P Q R : A → Type 0)
      → ((x : A) → P x → Q x → R x)
      → (xs : List A) → All P xs
      → All Q xs
      → All R xs
  All-zip P Q R f [] p q = tt
  All-zip P Q R f (x ∷ xs) p q = (f x p.0 q.0, All-zip P Q R f xs p.1 q.1)

  pub values-HasScore :
      (dense : List (DenseHit F)) (sparse : List (String × F)) (k : ℕ)
      → All (HasScore dense sparse k) (values (fused_hits dense sparse k))
  values-HasScore dense sparse k =
      let t = fused_hits-IsTable dense sparse k in
      let d = fused_hits dense sparse k in
      All-values (HasScore dense sparse k) d (
        All-zip (λ p. get p.0 d ≡ some p.1) (λ p. p.1.chunk_id ≡ p.0)
          (λ p. HasScore dense sparse k p.1) (λ p e same. found_score dense sparse k p.0 p.1 e same)
          d (All-get d t.unique) t.keyed)
