-- ===== src/Retrieval/Lookup.antt =====
-- rag/retriever.py: `RuleRetriever.get_by_chunk_ids`.
use bank_reconciliation_agen.Base.{
  ℕ, suc, ◌≡◌, refl, sym, ap, ap₂, ◌∙◌, false, String, Option, none, some, List, [], ◌∷◌, map,
  if◌then◌else◌, Bool-cases, Option-cases, some-injective, inl, inr, arith,
}
use bank_reconciliation_agen.Retrieval.{
  Floats, ChunkMetadata, Metadata, full, only_id, id_of, FusedHit, DenseHit,
}
use bank_reconciliation_agen.Retrieval.Search.{
  Backends, SearchItem, item_of, with_metadata, to_search_item, to_search_items,
}

module _ {F : Type 0} (ops : Floats F) where
  -- The hit of a row of the store.
  abbrev pub looked_up : ℕ → DenseHit F → FusedHit F
  looked_up index h = record {
    chunk_id = id_of h.metadata;
    dense_score = if ops.lt ops.zero h.score then some h.score else none;
    bm25_score = none;
    fusion_score = h.score;
    fusion_rank = index;
    metadata = h.metadata;
    content = h.content;
    reranker_score = none;
  }

  unfoldable pub looked_up_hits : ℕ → List (DenseHit F) → List (FusedHit F)
  looked_up_hits index [] = []
  looked_up_hits index (h ∷ rows) = looked_up index h ∷ looked_up_hits (suc index) rows

  -- `get_by_chunk_ids`: none where a row has no item.
  unfoldable pub get_by_chunk_ids : Backends F → List String → String → Option (List (SearchItem F))
  unfolding looked_up_hits to_search_items
  get_by_chunk_ids backends chunk_ids scenario_type =
      to_search_items ops backends.loads false
        (looked_up_hits 1 (backends.get_by_ids chunk_ids scenario_type))

  -- What an item shows of its row, and what the row has.
  abbrev pub shown : SearchItem F → String × F × String
  shown i = (i.chunk_id, i.score, i.content)

  abbrev pub stored : DenseHit F → String × F × String
  stored h = (id_of h.metadata, h.score, h.content)

  score-looked_up :
      (index : ℕ) (h : DenseHit F) (m : ChunkMetadata) (tags : List String)
      → (item_of ops false (looked_up index h) m tags).score ≡ h.score
  score-looked_up index h m tags = elim (Bool-cases (ops.lt ops.zero h.score)) [
    | inl y ↦ elim (Bool-cases (ops.eq h.score ops.zero)) [
      | inl e ↦ rw (y, e) refl
      | inr e ↦ rw (y, e) refl
    ]
    | inr n ↦ rw n refl
  ]

  with_metadata-stored :
      (loads : String → Option (List String)) (index : ℕ) (h : DenseHit F) (metadata : Metadata)
      (item : SearchItem F)
      → h.metadata ≡ metadata
      → with_metadata ops loads false (looked_up index h) metadata ≡ some item
      → shown item ≡ stored h
  with_metadata-stored loads index h (only_id x) item same e = absurd (ground arith)
  with_metadata-stored loads index h (full m) item same e =
      elim (Option-cases (loads m.business_tags)) [
        | inl n ↦ absurd (let o : none ≡ some item = rw n at e in ground arith)
        | inr (tags, y) ↦
            let made : item_of ops false (looked_up index h) m tags ≡ item =
              some-injective (item_of ops false (looked_up index h) m tags) item (rw y at e) in
            ap shown (sym made)
            ∙ ap₂ (λ x s. (x, s, h.content)) (ap id_of (sym same)) (score-looked_up index h m tags)
      ]

  to_search_items-stored :
      (loads : String → Option (List String)) (index : ℕ) (rows : List (DenseHit F))
      (items : List (SearchItem F))
      → to_search_items ops loads false (looked_up_hits index rows) ≡ some items
      → map shown items ≡ map stored rows
  unfolding to_search_items to_search_item looked_up_hits
  to_search_items-stored loads index [] items e = ap (map shown) (sym (some-injective [] items e))
  to_search_items-stored loads index (h ∷ rows) items e =
      elim (Option-cases (to_search_item ops loads false (looked_up index h))) [
        | inl n ↦ absurd (let o : none ≡ some items = rw n at e in cc)
        | inr (i, y) ↦
            elim (Option-cases
              (to_search_items ops loads false (looked_up_hits (suc index) rows))) [
                | inl n ↦ absurd (let o : none ≡ some items = rw (y, n) at e in cc)
                | inr (rest, z) ↦
                    ap (map shown) (sym (some-injective (i ∷ rest) items (rw (y, z) at e)))
                    ∙ ap₂ (λ x xs. x ∷ xs) (with_metadata-stored loads index h h.metadata i refl y)
                        (to_search_items-stored loads (suc index) rows rest z)
              ]
      ]

  -- The items that `get_by_chunk_ids` answers with show the rows of the store, in their order: the chunk_id,
  -- the score, positive or not, and the content.
  pub get_by_chunk_ids-stored :
      (backends : Backends F) (chunk_ids : List String) (scenario_type : String)
      (items : List (SearchItem F))
      → get_by_chunk_ids backends chunk_ids scenario_type ≡ some items
      → map shown items ≡ map stored (backends.get_by_ids chunk_ids scenario_type)
  unfolding get_by_chunk_ids
  get_by_chunk_ids-stored backends chunk_ids scenario_type items e =
      to_search_items-stored backends.loads 1 (backends.get_by_ids chunk_ids scenario_type) items e
