-- ===== src/Retrieval/Tests.antt =====
-- Tests of the fusion and of the search, with floats as whole millionths.
use bank_reconciliation_agen.Base.{
  ℕ, ◌+◌, ◌*◌, ◌/◌, ◌≡◌, refl, true, false, String, Option, none, some, List, [], ◌∷◌, map, ◌==◌,
  ltb, leb, arith,
}
use bank_reconciliation_agen.Retrieval.{Floats, ChunkMetadata, full, FusedHit, DenseHit, fuse_rrf}
use bank_reconciliation_agen.Retrieval.Hits.{IsOrder, is_one}
use bank_reconciliation_agen.Retrieval.Order.{IsFusion, fuse_rrf-IsFusion, is_listed}
use bank_reconciliation_agen.Retrieval.Search.{
  SearchSettings, SearchRequest, Backends, SearchItem, caught, search, rewrite,
}
use bank_reconciliation_agen.Retrieval.Answers.{IsAnswer, search-IsAnswer}

-- A division by zero gives 0 here; the code divides by numbers that are not zero.
abbrev millionths : Floats ℕ
millionths = record {
  zero = 0;
  one = 1000000;
  of_int = λ n. n;
  add = λ x y. x + y;
  mul = λ x y. x * y / 1000000;
  div = λ x y. x / y;
  eq = λ x y. x == y;
  lt = λ x y. ltb x y;
  le = λ x y. leb x y;
  overlap_weight = 700000;
  signal_weight = 300000;
}

millionths-IsOrder : IsOrder millionths
millionths-IsOrder = record {
  eq_symmetric = λ x y. ground arith;
  lt_asymmetric = λ x y e. ground arith;
}

abbrev chunk : String → ChunkMetadata
chunk x = record {
  chunk_id = x;
  source_name = "n";
  source_url = "u";
  source_file = "f";
  source_type = "t";
  section_title = "s";
  page_no = none;
  element_type = "e";
  business_tags = "[]";
}

abbrev row : String → ℕ → DenseHit ℕ
row x score = record { score = score; metadata = full (chunk x); content = x }

abbrev dense_rows : List (DenseHit ℕ)
dense_rows = row "a" 900000 ∷ row "b" 800000 ∷ []

abbrev sparse_rows : List (String × ℕ)
sparse_rows = ("b", 3000000) ∷ ("c", 1000000) ∷ []

-- The chunk that both lists have is the first.
fused_ids :
    map (λ (h : FusedHit ℕ). h.chunk_id) (fuse_rrf millionths dense_rows sparse_rows 60)
    ≡ "b" ∷ "a" ∷ "c" ∷ []
unfolding fuse_rrf
fused_ids = refl

fuse_rrf-IsFusion_example :
    IsFusion millionths dense_rows sparse_rows 60 (fuse_rrf millionths dense_rows sparse_rows 60)
fuse_rrf-IsFusion_example =
    fuse_rrf-IsFusion millionths millionths-IsOrder dense_rows sparse_rows 60

abbrev settings : SearchSettings ℕ
settings = record {
  rag_dense_top_n = 20;
  rag_bm25_top_n = 20;
  rag_rrf_k = 60;
  rag_rerank_top_k = 5;
  rag_reranker_min_score = 300000;
}

abbrev index : String → ℕ → List (String × ℕ)
index query n = sparse_rows

abbrev backends : Backends ℕ
backends = record {
  count = λ s. 3;
  query = λ q n s. dense_rows;
  get_by_ids = λ ids s. row "c" 0 ∷ [];
  sparse_index = λ s. some index;
  rewriting = λ q s. caught;
  reranker = none;
  loads = λ s. some [];
}

abbrev hybrid_request : SearchRequest ℕ
hybrid_request = record {
  query = "q";
  top_k = 3;
  min_score = 15000;
  scenario_type = "BANK_ENTERPRISE";
  enable_rewrite = true;
  enable_hybrid = true;
  enable_reranker = false;
}

abbrev item : String → ℕ → Option ℕ → Option ℕ → ℕ → SearchItem ℕ
item x score dense bm25 rank = record {
  chunk_id = x;
  source = "f#s";
  source_name = "n";
  source_url = "u";
  source_file = "f";
  section_title = "s";
  element_type = "e";
  business_tags = [];
  score = score;
  content = x;
  dense_score = dense;
  bm25_score = bm25;
  reranker_score = none;
  fusion_rank = some rank;
}

-- The item of the chunk that only the dense search found shows neither its dense score nor its rank.
abbrev shown_items : List (SearchItem ℕ)
shown_items =
    item "b" 800000 (some 800000) (some 3000000) 1
    ∷ record (item "a" 900000 none none 0) { fusion_rank = none }
    ∷ item "c" 16129 none (some 1000000) 3
    ∷ []

answers : search millionths settings backends hybrid_request ≡ some (shown_items, some "q")
unfolding search rewrite
answers = refl

search-IsAnswer_example :
    IsAnswer millionths settings hybrid_request false
      (λ x. is_one (is_listed millionths dense_rows sparse_rows x))
      shown_items
unfolding rewrite
search-IsAnswer_example =
    search-IsAnswer millionths settings backends hybrid_request index shown_items (some "q") refl
      refl answers
