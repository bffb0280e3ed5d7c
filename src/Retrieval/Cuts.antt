-- ===== src/Retrieval/Cuts.antt =====
-- rag/retriever.py: what `search` keeps of its hits when it ranks, cuts and filters them.
use bank_reconciliation_agen.Base.{
  ℕ, zero, suc, ◌≤◌, ◌≡◌, refl, Bool, true, String, Option, none, some, List, [], ◌∷◌, map, All,
  All-take, is_some, keep, take, length, length-take, if◌then◌else◌, Bool-cases, inl, inr, arith,
}
use bank_reconciliation_agen.Base.Table.{count_where}
use bank_reconciliation_agen.Retrieval.{Floats, FusedHit, rerank, reranked, reranker_key}
use bank_reconciliation_agen.Retrieval.Hits.{count_id}
use bank_reconciliation_agen.Retrieval.Order.{All-sort_hits, count_id-sort_hits}
use bank_reconciliation_agen.Retrieval.Search.{SearchSettings, ranked}
use bank_reconciliation_agen.Retrieval.Stages.{IsNamed, IsStage, map-IsNamed, count_id-map}

module _ {F : Type 0} (ops : Floats F) where
  count_id-take :
      (k : ℕ) (x : String) (hits : List (FusedHit F))
      → count_id ops x (take k hits) ≤ count_id ops x hits
  unfolding count_where
  count_id-take k x [] = omega arith
  count_id-take zero x (h ∷ hits) = omega arith
  count_id-take (suc k) x (h ∷ hits) = ground (arith, count_id-take k x hits)

  take-IsStage :
      (k : ℕ) (n : String → ℕ) (hits : List (FusedHit F))
      → IsStage ops n hits
      → IsStage ops n (take k hits)
  take-IsStage k n hits s = record {
    names_chunk = All-take (IsNamed ops) k hits s.names_chunk;
    bounded = λ x. omega (arith, count_id-take k x hits, s.bounded x);
  }

  pub ranked-IsStage :
      (settings : SearchSettings F) (reranker : Option (String → List String)) (top_k : ℕ)
      (query : String) (n : String → ℕ) (hits : List (FusedHit F))
      → IsStage ops n hits
      → IsStage ops n (ranked ops settings reranker top_k query hits)
  unfolding ranked rerank reranked
  ranked-IsStage settings none top_k query n hits s = take-IsStage top_k n hits s
  ranked-IsStage settings (some tokenize) top_k query n hits s =
      let f = reranked ops tokenize query in
      take-IsStage settings.rag_rerank_top_k n _ (record {
        names_chunk =
            All-sort_hits ops (IsNamed ops) (reranker_key ops) (map f hits)
              (map-IsNamed ops f (λ h e. e) hits s.names_chunk);
        bounded = λ x.
            rw
              (
                count_id-sort_hits ops (reranker_key ops) x (map f hits),
                count_id-map ops f (λ h. refl) x hits,
              )
              (s.bounded x);
      })

  keep-IsNamed :
      (p : FusedHit F → Bool) (hits : List (FusedHit F))
      → All (IsNamed ops) hits
      → All (IsNamed ops) (keep p hits)
  keep-IsNamed p [] t = tt
  keep-IsNamed p (h ∷ hits) t = elim (Bool-cases (p h)) [
    | inl y ↦ rw y (t.0, keep-IsNamed p hits t.1)
    | inr m ↦ rw m (keep-IsNamed p hits t.1)
  ]

  count_id-keep :
      (p : FusedHit F → Bool) (x : String) (hits : List (FusedHit F))
      → count_id ops x (keep p hits) ≤ count_id ops x hits
  unfolding count_where
  count_id-keep p x [] = omega arith
  count_id-keep p x (h ∷ hits) = ground (arith, count_id-keep p x hits)

  pub keep-IsStage :
      (p : FusedHit F → Bool) (n : String → ℕ) (hits : List (FusedHit F))
      → IsStage ops n hits
      → IsStage ops n (keep p hits)
  keep-IsStage p n hits s = record {
    names_chunk = keep-IsNamed p hits s.names_chunk;
    bounded = λ x. omega (arith, count_id-keep p x hits, s.bounded x);
  }

  pub length-ranked :
      (settings : SearchSettings F) (reranker : Option (String → List String)) (top_k : ℕ)
      (query : String) (hits : List (FusedHit F))
      → length (ranked ops settings reranker top_k query hits)
        ≤ (if is_some reranker then settings.rag_rerank_top_k else top_k)
  unfolding ranked rerank
  length-ranked settings none top_k query hits = length-take top_k hits
  length-ranked settings (some tokenize) top_k query hits = length-take settings.rag_rerank_top_k _

  pub length-keep :
      (p : FusedHit F → Bool) (hits : List (FusedHit F)) → length (keep p hits) ≤ length hits
  length-keep p [] = omega arith
  length-keep p (h ∷ hits) = ground (arith, length-keep p hits)

  pub keep-All :
      (p : FusedHit F → Bool) (hits : List (FusedHit F)) → All (λ h. p h ≡ true) (keep p hits)
  keep-All p [] = tt
  keep-All p (h ∷ hits) = elim (Bool-cases (p h)) [
    | inl y ↦ rw y (y, keep-All p hits)
    | inr n ↦ rw n (keep-All p hits)
  ]
