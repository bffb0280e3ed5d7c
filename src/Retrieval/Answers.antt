-- ===== src/Retrieval/Answers.antt =====
-- rag/retriever.py: what `search` answers.
use bank_reconciliation_agen.Base.{
  ℕ, ◌≤◌, ◌≡◌, subst, sym, Bool, true, String, Option, none, some, List, All, is_some, keep, length,
  min, max, if◌then◌else◌, Option-cases, inl, inr, arith,
}
use bank_reconciliation_agen.Retrieval.{Floats, DenseHit, fuse_rrf}
use bank_reconciliation_agen.Retrieval.Hits.{is_one}
use bank_reconciliation_agen.Retrieval.Order.{is_listed, count_id-fuse_rrf}
use bank_reconciliation_agen.Retrieval.Search.{
  SearchSettings, SearchRequest, Backends, SearchItem, to_search_items, ranked, retrieved,
  fused_with, reranker_of, query_text, search, passes_threshold, max_float,
}
use bank_reconciliation_agen.Retrieval.Stages.{IsStage, backfill-IsStage, fuse_rrf-IsNamed}
use bank_reconciliation_agen.Retrieval.Cuts.{
  ranked-IsStage, keep-IsStage, length-ranked, length-keep, keep-All,
}
use bank_reconciliation_agen.Retrieval.Items.{Reaches, count_item, to_search_items-IsFrom}

chosen : {A : Type 0} (b : Bool) (x y : Option A) → b ≡ true → x ≡ y → (if b then x else none) ≡ y
chosen b x y e f = rw e f

module _ {F : Type 0} (ops : Floats F) where
  -- What `search` answers to a request.
  pub record IsAnswer (settings : SearchSettings F) (request : SearchRequest F) (enabled : Bool)
      (n : String → ℕ) (items : List (SearchItem F)) : Type 0 where
    pub limited : length items ≤ (if enabled then settings.rag_rerank_top_k else request.top_k)
    pub once : (x : String) → count_item ops x items ≤ n x
    pub reach :
        All
          (λ i. Reaches ops settings (max_float ops request.min_score ops.zero) enabled i.score)
          items

  abbrev pub nearest : SearchSettings F → Backends F → SearchRequest F → List (DenseHit F)
  nearest settings backends request =
      backends.query (query_text backends request)
        (max 1 (min settings.rag_dense_top_n (backends.count request.scenario_type)))
        request.scenario_type

  retrieved-IsStage :
      (settings : SearchSettings F) (backends : Backends F) (request : SearchRequest F)
      (index : String → ℕ → List (String × F))
      → request.enable_hybrid ≡ true
      → backends.sparse_index request.scenario_type ≡ some index
      → IsStage ops
          (λ x. is_one (
            is_listed ops
              (nearest settings backends request)
              (index (query_text backends request) settings.rag_bm25_top_n)
              x))
          (retrieved ops settings backends request (query_text backends request))
  unfolding retrieved fused_with
  retrieved-IsStage settings backends request index hybrid e =
      let dense = nearest settings backends request in
      let sparse = index (query_text backends request) settings.rag_bm25_top_n in
      let hits = fuse_rrf ops dense sparse settings.rag_rrf_k in
      let fused : IsStage ops (λ x. is_one (is_listed ops dense sparse x)) hits = record {
        names_chunk = fuse_rrf-IsNamed ops dense sparse settings.rag_rrf_k;
        bounded = λ x. omega (arith, count_id-fuse_rrf ops dense sparse settings.rag_rrf_k x);
      } in
      subst
        (λ o.
          IsStage ops (λ x. is_one (is_listed ops dense sparse x))
            (fused_with ops settings backends request (query_text backends request) dense o))
        (sym (chosen request.enable_hybrid _ (some index) hybrid e))
        (backfill-IsStage ops (λ ids. backends.get_by_ids ids request.scenario_type) _ hits fused)

  -- A hybrid search that answers gives at most `top_k` items, or with the reranker `rag_rerank_top_k`; each chunk
  -- of the dense or the sparse hits at most once, and no other. With the reranker each item's score reaches the
  -- request's limit and the reranker's own. Without it, the score reaches the request's limit, unless 0.0 does,
  -- where nothing is said of the scores.
  pub search-IsAnswer :
      (settings : SearchSettings F) (backends : Backends F) (request : SearchRequest F)
      (index : String → ℕ → List (String × F)) (items : List (SearchItem F))
      (rewritten : Option String)
      → request.enable_hybrid ≡ true
      → backends.sparse_index request.scenario_type ≡ some index
      → search ops settings backends request ≡ some (items, rewritten)
      → IsAnswer settings request
          (is_some (reranker_of backends request))
          (λ x. is_one (
            is_listed ops
              (nearest settings backends request)
              (index (query_text backends request) settings.rag_bm25_top_n)
              x))
          items
  unfolding search
  search-IsAnswer settings backends request index items rewritten hybrid found e =
      let query = query_text backends request in
      let reranker = reranker_of backends request in
      let threshold = max_float ops request.min_score ops.zero in
      let p = passes_threshold ops settings threshold (is_some reranker) in
      let hits = retrieved ops settings backends request query in
      let best = ranked ops settings reranker request.top_k query hits in
      let stage = keep-IsStage ops p _ best (
        ranked-IsStage ops settings reranker request.top_k query _ hits
          (retrieved-IsStage settings backends request index hybrid found)) in
      elim (Option-cases (to_search_items ops backends.loads (is_some reranker) (keep p best))) [
        | inl n ↦ absurd (ground arith)
        | inr (shown, y) ↦
            let same : shown ≡ items = ground arith in
            let f =
              to_search_items-IsFrom ops settings threshold (is_some reranker) backends.loads
                (keep p best) shown stage.names_chunk (keep-All ops p best) y in
            subst (IsAnswer settings request (is_some reranker) _) same (record {
              limited = omega (
                arith,
                f.as_many,
                length-keep ops p best,
                length-ranked ops settings reranker request.top_k query hits,
              );
              once = λ x. omega (arith, f.counts_same x, stage.bounded x);
              reach = f.reach;
            })
      ]
