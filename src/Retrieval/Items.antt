-- ===== src/Retrieval/Items.antt =====
-- rag/retriever.py: the items of a search, from its hits.
use bank_reconciliation_agen.Base.{
  ℕ, ◌≡◌, ◌⊎◌, subst, refl, sym, ap, ◌∙◌, Bool, true, false, String, Option, none, some, List, [],
  ◌∷◌, str_eq, All, length, if◌then◌else◌, Bool-cases, Option-cases, some-injective, inl, inr,
  arith,
}
use bank_reconciliation_agen.Base.Table.{count_where}
use bank_reconciliation_agen.Retrieval.{
  Floats, ChunkMetadata, Metadata, full, only_id, id_of, FusedHit,
}
use bank_reconciliation_agen.Retrieval.Hits.{count_id}
use bank_reconciliation_agen.Retrieval.Search.{
  SearchSettings, SearchItem, item_of, with_tags, with_metadata, to_search_item, to_search_items,
  passes_threshold, max_float,
}
use bank_reconciliation_agen.Retrieval.Stages.{IsNamed}

module _ {F : Type 0} (ops : Floats F) where
  -- The score of an item from its hit, where the search lets the hit pass.
  abbrev pub Reaches : SearchSettings F → F → Bool → F → Type 0
  Reaches settings threshold true score =
      ops.le (max_float ops threshold settings.rag_reranker_min_score) score ≡ true
  Reaches settings threshold false score =
      (ops.le threshold score ≡ true)
      ⊎ (ops.lt threshold score ≡ true)
      ⊎ ((d : F) × (ops.eq d ops.zero ≡ true) × (ops.le threshold d ≡ true))

  -- The item of a hit with the metadata of a chunk.
  abbrev IsItem : Bool → FusedHit F → Metadata → SearchItem F → Type 0
  IsItem enabled h metadata item =
      (m : ChunkMetadata) × (tags : List String) × (metadata ≡ full m)
      × (item_of ops enabled h m tags ≡ item)

  with_tags-IsItem :
      (enabled : Bool) (h : FusedHit F) (m : ChunkMetadata) (tags : Option (List String))
      (item : SearchItem F)
      → with_tags ops enabled h m tags ≡ some item
      → IsItem enabled h (full m) item
  with_tags-IsItem enabled h m none item e = absurd (ground arith)
  with_tags-IsItem enabled h m (some tags) item e =
      (m, tags, refl, some-injective (item_of ops enabled h m tags) item e)

  to_search_item-IsItem :
      (loads : String → Option (List String)) (enabled : Bool) (h : FusedHit F)
      (metadata : Metadata) (item : SearchItem F)
      → with_metadata ops loads enabled h metadata ≡ some item
      → IsItem enabled h metadata item
  to_search_item-IsItem loads enabled h (only_id x) item e = absurd (ground arith)
  to_search_item-IsItem loads enabled h (full m) item e =
      with_tags-IsItem enabled h m (loads m.business_tags) item e

  dense-Reaches :
      (settings : SearchSettings F) (threshold : F) (o : Option F) (fusion : F)
      → elim o [ none ↦ ops.lt threshold fusion | some d ↦ ops.le threshold d ] ≡ true
      → Reaches settings threshold false
          (elim o [ none ↦ fusion | some d ↦ if ops.eq d ops.zero then fusion else d ])
  dense-Reaches settings threshold none fusion e = inr (inl e)
  dense-Reaches settings threshold (some d) fusion e = elim (Bool-cases (ops.eq d ops.zero)) [
    | inl y ↦ inr (inr (d, y, e))
    | inr n ↦ rw n (inl e)
  ]

  item-Reaches :
      (settings : SearchSettings F) (threshold : F) (enabled : Bool) (h : FusedHit F)
      (m : ChunkMetadata) (tags : List String)
      → passes_threshold ops settings threshold enabled h ≡ true
      → Reaches settings threshold enabled (item_of ops enabled h m tags).score
  unfolding passes_threshold
  item-Reaches settings threshold true h m tags p = p
  item-Reaches settings threshold false h m tags p =
      dense-Reaches settings threshold h.dense_score h.fusion_score p

  abbrev pub count_item : String → List (SearchItem F) → ℕ
  count_item x items = count_where (λ i. str_eq i.chunk_id x) items

  -- What the items of hits have from them.
  pub record IsFrom (settings : SearchSettings F) (threshold : F) (enabled : Bool)
      (hits : List (FusedHit F)) (items : List (SearchItem F)) : Type 0 where
    pub as_many : length items ≡ length hits
    pub counts_same : (x : String) → count_item x items ≡ count_id ops x hits
    pub reach : All (λ i. Reaches settings threshold enabled i.score) items

  cons-IsFrom :
      (settings : SearchSettings F) (threshold : F) (enabled : Bool) (h : FusedHit F)
      (m : ChunkMetadata) (tags : List String) (hits : List (FusedHit F))
      (items : List (SearchItem F))
      → IsNamed ops h
      → h.metadata ≡ full m
      → passes_threshold ops settings threshold enabled h ≡ true
      → IsFrom settings threshold enabled hits items
      → IsFrom settings threshold enabled (h ∷ hits) (item_of ops enabled h m tags ∷ items)
  unfolding count_where
  cons-IsFrom settings threshold enabled h m tags hits items named e p f =
      let same : m.chunk_id ≡ h.chunk_id = ap id_of (sym e) ∙ named in
      record {
        as_many = omega (arith, f.as_many);
        counts_same = λ x. rw (same, f.counts_same x) refl;
        reach = (item-Reaches settings threshold enabled h m tags p, f.reach);
      }

  pub to_search_items-IsFrom :
      (settings : SearchSettings F) (threshold : F) (enabled : Bool)
      (loads : String → Option (List String)) (hits : List (FusedHit F))
      (items : List (SearchItem F))
      → All (IsNamed ops) hits
      → All (λ h. passes_threshold ops settings threshold enabled h ≡ true) hits
      → to_search_items ops loads enabled hits ≡ some items
      → IsFrom settings threshold enabled hits items
  unfolding to_search_items to_search_item count_where
  to_search_items-IsFrom settings threshold enabled loads [] items named p e =
      rw⁻¹ (some-injective [] items e)
        (record { as_many = refl; counts_same = λ x. refl; reach = tt })
  to_search_items-IsFrom settings threshold enabled loads (h ∷ hits) items named p e =
      elim (Option-cases (to_search_item ops loads enabled h)) [
        | inl n ↦ absurd (let o : none ≡ some items = rw n at e in cc)
        | inr (i, y) ↦ elim (Option-cases (to_search_items ops loads enabled hits)) [
          | inl n ↦ absurd (let o : none ≡ some items = rw (y, n) at e in cc)
          | inr (rest, z) ↦
              let item = to_search_item-IsItem loads enabled h h.metadata i y in
              let whole : i ∷ rest ≡ items = some-injective (i ∷ rest) items (rw (y, z) at e) in
              let tail =
                to_search_items-IsFrom settings threshold enabled loads hits rest named.1 p.1 z in
              subst (IsFrom settings threshold enabled (h ∷ hits))
                (ap (λ j. j ∷ rest) item.3 ∙ whole)
                (cons-IsFrom settings threshold enabled h item.0 item.1 hits rest named.0 item.2 p.0
                  tail)
        ]
      ]
