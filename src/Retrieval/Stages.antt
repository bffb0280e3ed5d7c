-- ===== src/Retrieval/Stages.antt =====
-- rag/retriever.py: what a search in the hybrid mode holds of its hits before it ranks them.
use bank_reconciliation_agen.Base.{
  ℕ, suc, ◌≤◌, ◌≡◌, refl, sym, ◌∙◌, String, Option, none, some, List, [], ◌∷◌, map, str_eq, eq_iff,
  All, is_none, Bool-cases, inl, inr,
}
use bank_reconciliation_agen.Base.Table.{count_where}
use bank_reconciliation_agen.Base.Dict.{Dict, get, put}
use bank_reconciliation_agen.Retrieval.{
  Floats, Metadata, id_of, FusedHit, DenseHit, values, number_hits, fuse_rrf, fuse_dense,
  fuse_sparse, dense_hit, with_sparse, fusion_key,
}
use bank_reconciliation_agen.Retrieval.Hits.{count_id}
use bank_reconciliation_agen.Retrieval.Order.{All-sort_hits}
use bank_reconciliation_agen.Retrieval.Search.{
  backfill, backfilled, backfill_hit, chunk_by_id, sparse_only,
}

module _ {F : Type 0} (ops : Floats F) where
  -- The metadata name the hit's chunk.
  abbrev pub IsNamed : FusedHit F → Type 0
  IsNamed h = id_of h.metadata ≡ h.chunk_id

  All-put :
      (P : FusedHit F → Type 0) (k : String) (h : FusedHit F) (d : Dict (FusedHit F))
      → P h
      → All (λ p. P p.1) d
      → All (λ p. P p.1) (put k h d)
  unfolding put
  All-put P k h [] e u = (e, tt)
  All-put P k h ((j, g) ∷ d) e u = elim (Bool-cases (str_eq j k)) [
    | inl y ↦ rw y (e, u.1)
    | inr n ↦ rw n (u.0, All-put P k h d e u.1)
  ]

  fuse_dense-IsNamed :
      (k rank : ℕ) (dense : List (DenseHit F)) (d : Dict (FusedHit F))
      → All (λ p. IsNamed p.1) d
      → All (λ p. IsNamed p.1) (fuse_dense ops k rank dense d)
  unfolding fuse_dense
  fuse_dense-IsNamed k rank [] d t = t
  fuse_dense-IsNamed k rank (h ∷ dense) d t =
      fuse_dense-IsNamed k (suc rank) dense _
        (All-put IsNamed (id_of h.metadata) (dense_hit ops k rank h) d refl t)

  with_sparse-IsNamed :
      (k rank : ℕ) (c : String) (b : F) (x : String) (d : Dict (FusedHit F))
      → All (λ p. IsNamed p.1) d
      → IsNamed (with_sparse ops k rank c b (get x d))
  unfolding get
  with_sparse-IsNamed k rank c b x [] t = refl
  with_sparse-IsNamed k rank c b x ((j, g) ∷ d) t = elim (Bool-cases (str_eq j x)) [
    | inl y ↦ rw y t.0
    | inr n ↦ rw n (with_sparse-IsNamed k rank c b x d t.1)
  ]

  fuse_sparse-IsNamed :
      (k rank : ℕ) (sparse : List (String × F)) (d : Dict (FusedHit F))
      → All (λ p. IsNamed p.1) d
      → All (λ p. IsNamed p.1) (fuse_sparse ops k rank sparse d)
  unfolding fuse_sparse
  fuse_sparse-IsNamed k rank [] d t = t
  fuse_sparse-IsNamed k rank ((c, b) ∷ sparse) d t =
      fuse_sparse-IsNamed k (suc rank) sparse _
        (All-put IsNamed c _ d (with_sparse-IsNamed k rank c b c d t) t)

  values-IsNamed : (d : Dict (FusedHit F)) → All (λ p. IsNamed p.1) d → All IsNamed (values d)
  unfolding values
  values-IsNamed [] t = tt
  values-IsNamed ((k, h) ∷ d) t = (t.0, values-IsNamed d t.1)

  number_hits-IsNamed :
      (n : ℕ) (hits : List (FusedHit F)) → All IsNamed hits → All IsNamed (number_hits ops n hits)
  unfolding number_hits
  number_hits-IsNamed n [] t = tt
  number_hits-IsNamed n (h ∷ hits) t = (t.0, number_hits-IsNamed (suc n) hits t.1)

  pub fuse_rrf-IsNamed :
      (dense : List (DenseHit F)) (sparse : List (String × F)) (k : ℕ)
      → All IsNamed (fuse_rrf ops dense sparse k)
  unfolding fuse_rrf
  fuse_rrf-IsNamed dense sparse k = number_hits-IsNamed 1 _ (
      All-sort_hits ops IsNamed (fusion_key ops) _
        (values-IsNamed _ (fuse_sparse-IsNamed k 1 sparse _ (fuse_dense-IsNamed k 1 dense [] tt))))

  abbrev Named : Dict (Metadata × String) → Type 0
  Named d = All (λ p. id_of p.1.0 ≡ p.0) d

  put-Named :
      (m : Metadata) (c : String) (d : Dict (Metadata × String))
      → Named d
      → Named (put (id_of m) (m, c) d)
  unfolding put
  put-Named m c [] t = (refl, tt)
  put-Named m c ((j, w) ∷ d) t = elim (Bool-cases (str_eq j (id_of m))) [
    | inl y ↦ let same : j ≡ id_of m = (eq_iff j (id_of m)).0 y in rw y (sym same, t.1)
    | inr n ↦ rw n (t.0, put-Named m c d t.1)
  ]

  chunk_by_id-Named :
      (rows : List (DenseHit F)) (d : Dict (Metadata × String))
      → Named d
      → Named (chunk_by_id ops rows d)
  unfolding chunk_by_id
  chunk_by_id-Named [] d t = t
  chunk_by_id-Named (h ∷ rows) d t = chunk_by_id-Named rows _ (put-Named h.metadata h.content d t)

  backfilled-IsNamed :
      (d : Dict (Metadata × String)) (h : FusedHit F)
      → Named d
      → IsNamed h
      → IsNamed (backfilled ops (get h.chunk_id d) h)
  unfolding get
  backfilled-IsNamed [] h t e = e
  backfilled-IsNamed ((j, (m, c)) ∷ d) h t e = elim (Bool-cases (str_eq j h.chunk_id)) [
    | inl y ↦ let same : j ≡ h.chunk_id = (eq_iff j h.chunk_id).0 y in rw y (t.0 ∙ same)
    | inr n ↦ rw n (backfilled-IsNamed d h t.1 e)
  ]

  backfill_hit-IsNamed :
      (d : Dict (Metadata × String)) (h : FusedHit F)
      → Named d
      → IsNamed h
      → IsNamed (backfill_hit ops d h)
  backfill_hit-IsNamed d h t e = elim (Bool-cases (is_none h.dense_score)) [
    | inl y ↦ rw y (backfilled-IsNamed d h t e)
    | inr n ↦ rw n e
  ]

  chunk_id-backfilled :
      (o : Option (Metadata × String)) (h : FusedHit F) → (backfilled ops o h).chunk_id ≡ h.chunk_id
  chunk_id-backfilled none h = refl
  chunk_id-backfilled (some (m, c)) h = refl

  chunk_id-backfill_hit :
      (d : Dict (Metadata × String)) (h : FusedHit F) → (backfill_hit ops d h).chunk_id ≡ h.chunk_id
  chunk_id-backfill_hit d h = elim (Bool-cases (is_none h.dense_score)) [
    | inl y ↦ rw y (chunk_id-backfilled (get h.chunk_id d) h)
    | inr n ↦ rw n refl
  ]

  pub count_id-map :
      (f : FusedHit F → FusedHit F)
      → ((h : FusedHit F) → (f h).chunk_id ≡ h.chunk_id)
      → (x : String) (hits : List (FusedHit F)) → count_id ops x (map f hits) ≡ count_id ops x hits
  unfolding count_where
  count_id-map f same x [] = refl
  count_id-map f same x (h ∷ hits) = rw (same h, count_id-map f same x hits) refl

  pub map-IsNamed :
      (f : FusedHit F → FusedHit F)
      → ((h : FusedHit F) → IsNamed h → IsNamed (f h))
      → (hits : List (FusedHit F)) → All IsNamed hits
      → All IsNamed (map f hits)
  map-IsNamed f keeps [] t = tt
  map-IsNamed f keeps (h ∷ hits) t = (keeps h t.0, map-IsNamed f keeps hits t.1)

  -- What the search holds of its hits at each stage, `n` being a bound for each chunk.
  pub record IsStage (n : String → ℕ) (hits : List (FusedHit F)) : Type 0 where
    pub names_chunk : All IsNamed hits
    pub bounded : (x : String) → count_id ops x hits ≤ n x

  pub backfill-IsStage :
      (get_by_ids : List String → List (DenseHit F)) (n : String → ℕ) (hits : List (FusedHit F))
      → IsStage n hits
      → IsStage n (backfill ops get_by_ids hits)
  unfolding backfill
  backfill-IsStage get_by_ids n hits s = go (sparse_only ops hits)
    where
      go :
          (ids : List String)
          → IsStage n (elim ids [
            | [] ↦ hits
            | x ∷ xs ↦ map (backfill_hit ops (chunk_by_id ops (get_by_ids (x ∷ xs)) [])) hits
          ])
      go [] = s
      go (y ∷ ys) =
          let d = chunk_by_id ops (get_by_ids (y ∷ ys)) [] in
          record {
            names_chunk =
                map-IsNamed (backfill_hit ops d)
                  (λ h e.
                    backfill_hit-IsNamed d h (chunk_by_id-Named (get_by_ids (y ∷ ys)) [] tt) e)
                  hits s.names_chunk;
            bounded = λ x.
                rw (count_id-map (backfill_hit ops d) (chunk_id-backfill_hit d) x hits)
                  (s.bounded x);
          }
