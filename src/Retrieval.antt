-- ===== src/Retrieval.antt =====
-- rag/fusion.py and rag/rerank.py: reciprocal rank fusion of dense and sparse hits, and the lexical
-- reranker. The operations of floats are arguments, and so are the token sets of texts; no score is NaN.
pub mod Fusions
pub mod Hits
pub mod Order
pub mod Search
pub mod Stages
pub mod Cuts
pub mod Items
pub mod Answers
pub mod Lookup
pub mod Tests
use mathlib.Core.Option
use bank_reconciliation_agen.Base.{
  ℕ, suc, ◌+◌, Bool, true, false, String, Option, none, some, List, [], ◌∷◌, map, str_eq, is_none,
  length, take, if◌then◌else◌,
}
use bank_reconciliation_agen.Base.Dict.{Dict, get, put, mem}

-- Python's `float` with the literals that the code writes.
pub record Floats (F : Type 0) : Type 0 where
  pub zero : F
  pub one : F
  pub of_int : ℕ → F
  pub add : F → F → F
  pub mul : F → F → F
  pub div : F → F → F
  pub eq : F → F → Bool
  pub lt : F → F → Bool
  pub le : F → F → Bool
  pub overlap_weight : F
  pub signal_weight : F

-- The metadata of a chunk, as `_to_metadata` writes it; `business_tags` is JSON.
pub record ChunkMetadata : Type 0 where
  pub chunk_id : String
  pub source_name : String
  pub source_url : String
  pub source_file : String
  pub source_type : String
  pub section_title : String
  pub page_no : Option ℕ
  pub element_type : String
  pub business_tags : String

-- The metadata of a hit: a chunk's, or the chunk_id alone.
pub data Metadata : Type 0 where
  full : ChunkMetadata → Metadata
  only_id : String → Metadata

-- `str(metadata["chunk_id"])`
abbrev pub id_of : Metadata → String
id_of (full m) = m.chunk_id
id_of (only_id s) = s

-- `values()`
unfoldable pub values {ℓ} : {V : Type ℓ} → Dict V → List V
values [] = []
values ((k, v) ∷ d) = v ∷ values d

pub record FusedHit (F : Type 0) : Type 0 where
  pub chunk_id : String
  pub dense_score : Option F
  pub bm25_score : Option F
  pub fusion_score : F
  pub fusion_rank : ℕ
  pub metadata : Metadata
  pub content : String
  pub reranker_score : Option F

-- What the store answers: score, metadata and text.
pub record DenseHit (F : Type 0) : Type 0 where
  pub score : F
  pub metadata : Metadata
  pub content : String

module _ {F : Type 0} (ops : Floats F) where
  -- `1.0 / (k + rank)`
  abbrev pub reciprocal : ℕ → ℕ → F
  reciprocal k rank = ops.div ops.one (ops.of_int (k + rank))

  -- `x or 0.0`
  abbrev pub or_zero : Option F → F
  or_zero none = ops.zero
  or_zero (some x) = x

  abbrev pub dense_hit : ℕ → ℕ → DenseHit F → FusedHit F
  dense_hit k rank h = record {
    chunk_id = id_of h.metadata;
    dense_score = some h.score;
    bm25_score = none;
    fusion_score = reciprocal k rank;
    fusion_rank = 0;
    metadata = h.metadata;
    content = h.content;
    reranker_score = none;
  }

  -- The loop over the dense hits.
  unfoldable pub fuse_dense : ℕ → ℕ → List (DenseHit F) → Dict (FusedHit F) → Dict (FusedHit F)
  unfolding put
  fuse_dense k rank [] fused = fused
  fuse_dense k rank (h ∷ dense) fused =
      fuse_dense k (suc rank) dense (put (id_of h.metadata) (dense_hit k rank h) fused)

  -- What the loop over the sparse hits makes of the hit that it finds under the chunk_id, or of none.
  abbrev pub with_sparse : ℕ → ℕ → String → F → Option (FusedHit F) → FusedHit F
  with_sparse k rank chunk_id bm25 none = record {
    chunk_id = chunk_id;
    dense_score = none;
    bm25_score = some bm25;
    fusion_score = ops.add ops.zero (reciprocal k rank);
    fusion_rank = 0;
    metadata = only_id chunk_id;
    content = "";
    reranker_score = none;
  }
  with_sparse k rank chunk_id bm25 (some h) = record h {
    bm25_score = some bm25;
    fusion_score = ops.add h.fusion_score (reciprocal k rank);
  }

  -- The loop over the sparse hits.
  unfoldable pub fuse_sparse : ℕ → ℕ → List (String × F) → Dict (FusedHit F) → Dict (FusedHit F)
  unfolding get put
  fuse_sparse k rank [] fused = fused
  fuse_sparse k rank ((chunk_id, bm25) ∷ sparse) fused =
      fuse_sparse k (suc rank) sparse
        (put chunk_id (with_sparse k rank chunk_id bm25 (get chunk_id fused)) fused)

  -- The order of tuples of floats.
  abbrev pub tuple_lt : List F → List F → Bool
  tuple_lt [] [] = false
  tuple_lt [] (y ∷ ys) = true
  tuple_lt (x ∷ xs) [] = false
  tuple_lt (x ∷ xs) (y ∷ ys) = let rest = tuple_lt xs ys in if ops.eq x y then rest else ops.lt x y

  -- One hit into hits in descending order, before those of the same key.
  unfoldable pub insert_hit :
      (FusedHit F → List F) → FusedHit F → List (FusedHit F) → List (FusedHit F)
  insert_hit key h [] = h ∷ []
  insert_hit key h (g ∷ hits) =
      let rest = insert_hit key h hits in
      if tuple_lt (key h) (key g) then g ∷ rest else h ∷ g ∷ hits

  -- `sorted(hits, key=key, reverse=True)`, which is stable.
  unfoldable pub sort_hits : (FusedHit F → List F) → List (FusedHit F) → List (FusedHit F)
  unfolding insert_hit
  sort_hits key [] = []
  sort_hits key (h ∷ hits) = insert_hit key h (sort_hits key hits)

  abbrev pub fusion_key : FusedHit F → List F
  fusion_key h = h.fusion_score ∷ or_zero h.dense_score ∷ or_zero h.bm25_score ∷ []

  -- `hit.fusion_rank = index` for each hit.
  unfoldable pub number_hits : ℕ → List (FusedHit F) → List (FusedHit F)
  number_hits index [] = []
  number_hits index (h ∷ hits) = record h { fusion_rank = index } ∷ number_hits (suc index) hits

  -- `fuse_rrf`
  unfoldable pub fuse_rrf : List (DenseHit F) → List (String × F) → ℕ → List (FusedHit F)
  unfolding fuse_dense fuse_sparse sort_hits number_hits values
  fuse_rrf dense sparse k =
      number_hits 1
        (sort_hits fusion_key (values (fuse_sparse k 1 sparse (fuse_dense k 1 dense []))))

  -- `len(query_tokens & item_tokens)`
  abbrev pub count_common : List String → List String → ℕ
  count_common [] item = 0
  count_common (t ∷ query) item =
      let rest = count_common query item in if mem t item then suc rest else rest

  -- `_overlap_ratio` of sets of tokens.
  unfoldable pub overlap_ratio : List String → List String → F
  unfolding mem
  overlap_ratio [] item = ops.zero
  overlap_ratio (t ∷ query) [] = ops.zero
  overlap_ratio (t ∷ query) (u ∷ item) =
      ops.div (ops.of_int (count_common (t ∷ query) (u ∷ item))) (ops.of_int (length (t ∷ query)))

  -- `sum`
  abbrev pub sum_from : F → List F → F
  sum_from acc [] = acc
  sum_from acc (x ∷ xs) = sum_from (ops.add acc x) xs

  -- `min(1.0, x)` and `max(0.0, x)`
  abbrev pub at_most_one : F → F
  at_most_one x = if ops.lt x ops.one then x else ops.one

  abbrev pub at_least_zero : F → F
  at_least_zero x = if ops.lt ops.zero x then x else ops.zero

  -- The values that `_retrieval_signal` averages.
  abbrev pub signal_values : FusedHit F → List F
  signal_values h =
      let last : List F = elim h.bm25_score [
        | none ↦ []
        | some b ↦ ops.div b (ops.add b ops.one) ∷ []
      ] in
      elim h.dense_score [ none ↦ h.fusion_score ∷ last | some d ↦ d ∷ h.fusion_score ∷ last ]

  -- `_retrieval_signal`
  unfoldable pub retrieval_signal : FusedHit F → F
  retrieval_signal h =
      let scores = signal_values h in
      at_most_one (ops.div (sum_from ops.zero scores) (ops.of_int (length scores)))

  -- The hit with its reranker_score; `tokenize` is `_tokenize`.
  unfoldable pub reranked : (String → List String) → String → FusedHit F → FusedHit F
  unfolding overlap_ratio retrieval_signal
  reranked tokenize query h =
      let overlap = overlap_ratio (tokenize query) (tokenize h.content) in
      let score =
        ops.add (ops.mul overlap ops.overlap_weight)
          (ops.mul (retrieval_signal h) ops.signal_weight) in
      record h { reranker_score = some (at_most_one (at_least_zero score)) }

  abbrev pub reranker_key : FusedHit F → List F
  reranker_key h = or_zero h.reranker_score ∷ fusion_key h

  -- `LexicalReranker.rerank`
  unfoldable pub rerank :
      (String → List String) → String → List (FusedHit F) → ℕ → List (FusedHit F)
  unfolding reranked sort_hits
  rerank tokenize query hits top_k =
      take top_k (sort_hits reranker_key (map (reranked tokenize query) hits))
