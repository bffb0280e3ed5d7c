-- ===== src/Retrieval/Search.antt =====
-- rag/retriever.py: `RuleRetriever.search`, and rag/query_rewrite.py. The vector store, the sparse index, the
-- tokens of a text and the JSON decoder are arguments; an index or a reranker that cannot be imported
-- is none. The logs are left out.
use bank_reconciliation_agen.Base.{
  ℕ, suc, Bool, ◌||◌, String, Option, none, some, List, [], ◌∷◌, map, str_eq, keep, take, is_none,
  is_some, min, max, if◌then◌else◌,
}
use Prim.Native.String.{◌++◌ as ◌+++◌}
use bank_reconciliation_agen.Base.Text.{strip}
use bank_reconciliation_agen.Base.Dict.{Dict, get, put}
use bank_reconciliation_agen.Retrieval.{
  Floats, ChunkMetadata, Metadata, full, only_id, id_of, FusedHit, DenseHit, fuse_rrf, rerank,
  or_zero,
}

-- The answer of the model to a rewrite: one of the errors that are caught, or the text under the key.
pub data Rewriting : Type 0 where
  caught : Rewriting
  rewritten : String → Rewriting

-- `QueryRewriter.rewrite`
unfoldable pub rewrite : Rewriting → String → String
unfolding strip
rewrite caught query = query
rewrite (rewritten s) query = if str_eq (strip s) "" then query else strip s

pub record SearchRequest (F : Type 0) : Type 0 where
  pub query : String
  pub top_k : ℕ
  pub min_score : F
  pub scenario_type : String
  pub enable_rewrite : Bool
  pub enable_hybrid : Bool
  pub enable_reranker : Bool

pub record SearchSettings (F : Type 0) : Type 0 where
  pub rag_dense_top_n : ℕ
  pub rag_bm25_top_n : ℕ
  pub rag_rrf_k : ℕ
  pub rag_rerank_top_k : ℕ
  pub rag_reranker_min_score : F

-- A row of the store, and what a search asks for: the count of the collection, the nearest chunks, the
-- chunks of some ids, the index of the sparse search, and the tokens.
pub record Backends (F : Type 0) : Type 0 where
  pub count : String → ℕ
  pub query : String → ℕ → String → List (DenseHit F)
  pub get_by_ids : List String → String → List (DenseHit F)
  pub sparse_index : String → Option (String → ℕ → List (String × F))
  pub rewriting : String → String → Rewriting
  pub reranker : Option (String → List String)
  pub loads : String → Option (List String)

pub record SearchItem (F : Type 0) : Type 0 where
  pub chunk_id : String
  pub source : String
  pub source_name : String
  pub source_url : String
  pub source_file : String
  pub section_title : String
  pub element_type : String
  pub business_tags : List String
  pub score : F
  pub content : String
  pub dense_score : Option F
  pub bm25_score : Option F
  pub reranker_score : Option F
  pub fusion_rank : Option ℕ

-- The reranker that a request uses.
abbrev pub reranker_of : {F : Type 0} → Backends F → SearchRequest F → Option (String → List String)
reranker_of backends request = if request.enable_reranker then backends.reranker else none

-- The query that is searched for.
abbrev pub query_text : {F : Type 0} → Backends F → SearchRequest F → String
query_text backends request =
    if request.enable_rewrite
    then rewrite (backends.rewriting request.query request.scenario_type) request.query
    else request.query

module _ {F : Type 0} (ops : Floats F) where
  -- `_as_fused_hits`
  unfoldable pub as_fused_hits : ℕ → List (DenseHit F) → List (FusedHit F)
  as_fused_hits index [] = []
  as_fused_hits index (h ∷ dense) =
      (record {
        chunk_id = id_of h.metadata;
        dense_score = some h.score;
        bm25_score = none;
        fusion_score = h.score;
        fusion_rank = index;
        metadata = h.metadata;
        content = h.content;
        reranker_score = none;
      })
      ∷ as_fused_hits (suc index) dense

  -- `max(x, y)`
  abbrev pub max_float : F → F → F
  max_float x y = if ops.lt x y then y else x

  -- `_passes_threshold`
  unfoldable pub passes_threshold : SearchSettings F → F → Bool → FusedHit F → Bool
  passes_threshold settings threshold reranker_enabled h =
      if reranker_enabled
      then ops.le (max_float threshold settings.rag_reranker_min_score)
          (or_zero ops h.reranker_score)
      else elim h.dense_score [
        | none ↦ ops.lt threshold h.fusion_score
        | some d ↦ ops.le threshold d
      ]

  -- The ids of the hits that only the sparse search found.
  unfoldable pub sparse_only : List (FusedHit F) → List String
  sparse_only [] = []
  sparse_only (h ∷ hits) =
      let rest = sparse_only hits in if is_none h.dense_score then h.chunk_id ∷ rest else rest

  unfoldable pub chunk_by_id :
      List (DenseHit F) → Dict (Metadata × String) → Dict (Metadata × String)
  unfolding put
  chunk_by_id [] d = d
  chunk_by_id (h ∷ rows) d = chunk_by_id rows (put (id_of h.metadata) (h.metadata, h.content) d)

  abbrev pub backfilled : Option (Metadata × String) → FusedHit F → FusedHit F
  backfilled none h = h
  backfilled (some (m, c)) h = record h { metadata = m; content = c }

  abbrev pub backfill_hit : Dict (Metadata × String) → FusedHit F → FusedHit F
  backfill_hit d h = if is_none h.dense_score then backfilled (get h.chunk_id d) h else h

  -- `_backfill_sparse_only_hits`
  unfoldable pub backfill :
      (List String → List (DenseHit F)) → List (FusedHit F) → List (FusedHit F)
  unfolding sparse_only chunk_by_id get
  backfill get_by_ids hits = elim (sparse_only hits) [
    | [] ↦ hits
    | x ∷ xs ↦ map (backfill_hit (chunk_by_id (get_by_ids (x ∷ xs)) [])) hits
  ]

  abbrev pub item_of : Bool → FusedHit F → ChunkMetadata → List String → SearchItem F
  item_of reranker_enabled h m tags = record {
    chunk_id = m.chunk_id;
    source = m.source_file +++ ("#" +++ m.section_title);
    source_name = m.source_name;
    source_url = m.source_url;
    source_file = m.source_file;
    section_title = m.section_title;
    element_type = m.element_type;
    business_tags = tags;
    score = if reranker_enabled then or_zero ops h.reranker_score else elim h.dense_score [
      | none ↦ h.fusion_score
      | some d ↦ if ops.eq d ops.zero then h.fusion_score else d
    ];
    content = h.content;
    dense_score = if is_some h.bm25_score || reranker_enabled then h.dense_score else none;
    bm25_score = h.bm25_score;
    reranker_score = h.reranker_score;
    fusion_rank = if is_some h.bm25_score || reranker_enabled then some h.fusion_rank else none;
  }

  abbrev pub with_tags :
      Bool → FusedHit F → ChunkMetadata → Option (List String) → Option (SearchItem F)
  with_tags reranker_enabled h m none = none
  with_tags reranker_enabled h m (some tags) = some (item_of reranker_enabled h m tags)

  abbrev pub with_metadata :
      (String → Option (List String)) → Bool → FusedHit F → Metadata → Option (SearchItem F)
  with_metadata loads reranker_enabled h (only_id x) = none
  with_metadata loads reranker_enabled h (full m) =
      with_tags reranker_enabled h m (loads m.business_tags)

  -- `_to_search_item`: none where a key is missing in the metadata, or the tags do not decode.
  unfoldable pub to_search_item :
      (String → Option (List String)) → Bool → FusedHit F → Option (SearchItem F)
  to_search_item loads reranker_enabled h = with_metadata loads reranker_enabled h h.metadata

  abbrev pub cons_item :
      Option (SearchItem F) → Option (List (SearchItem F)) → Option (List (SearchItem F))
  cons_item none items = none
  cons_item (some x) none = none
  cons_item (some x) (some items) = some (x ∷ items)

  -- The list of items: none where one of them raises.
  unfoldable pub to_search_items :
      (String → Option (List String)) → Bool → List (FusedHit F) → Option (List (SearchItem F))
  unfolding to_search_item
  to_search_items loads reranker_enabled [] = some []
  to_search_items loads reranker_enabled (h ∷ hits) =
      cons_item (to_search_item loads reranker_enabled h)
        (to_search_items loads reranker_enabled hits)

  -- The hits of the dense search, fused with those of the sparse one if there is an index.
  unfoldable pub fused_with :
      SearchSettings F
      → Backends F
      → SearchRequest F
      → String
      → List (DenseHit F)
      → Option (String → ℕ → List (String × F))
      → List (FusedHit F)
  unfolding backfill as_fused_hits fuse_rrf
  fused_with settings backends request query dense none = as_fused_hits 1 dense
  fused_with settings backends request query dense (some search) =
      backfill (λ ids. backends.get_by_ids ids request.scenario_type)
        (fuse_rrf ops dense (search query settings.rag_bm25_top_n) settings.rag_rrf_k)

  unfoldable pub retrieved :
      SearchSettings F → Backends F → SearchRequest F → String → List (FusedHit F)
  unfolding fused_with
  retrieved settings backends request query =
      let top_n = max 1 (min settings.rag_dense_top_n (backends.count request.scenario_type)) in
      fused_with settings backends request query (backends.query query top_n request.scenario_type)
        (if request.enable_hybrid then backends.sparse_index request.scenario_type else none)

  -- The best hits.
  unfoldable pub ranked :
      SearchSettings F
      → Option (String → List String)
      → ℕ
      → String
      → List (FusedHit F)
      → List (FusedHit F)
  unfolding rerank
  ranked settings none top_k query hits = take top_k hits
  ranked settings (some tokenize) top_k query hits =
      rerank ops tokenize query hits settings.rag_rerank_top_k

  -- `search`: the items and the rewritten query, or none where it raises.
  unfoldable pub search :
      SearchSettings F → Backends F → SearchRequest F → Option (List (SearchItem F) × Option String)
  unfolding retrieved ranked passes_threshold to_search_items
  search settings backends request =
      let query = query_text backends request in
      let reranker = reranker_of backends request in
      let hits =
        ranked settings reranker request.top_k query (retrieved settings backends request query) in
      let threshold = max_float request.min_score ops.zero in
      let passing = keep (passes_threshold settings threshold (is_some reranker)) hits in
      elim (to_search_items backends.loads (is_some reranker) passing) [
        | none ↦ none
        | some items ↦ some (items, if request.enable_rewrite then some query else none)
      ]
