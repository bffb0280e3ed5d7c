-- ===== src/Reconcile/Batch/Writes.antt =====
-- services/reconciliation/batch.py: the runs of a batch one after the other or in the executor, and
-- what they are merged into. The executor runs its calls in any order;
-- `run_workflow r` is what the run of `r` ended with in the batch, however the runs before and beside it went.
use bank_reconciliation_agen.Base.{
  ℕ, ◌+◌, ◌*◌, not, ◌||◌, String, Option, none, some, List, [], ◌∷◌, map, leb, ◌==◌, if◌then◌else◌,
  keep, length,
}
use bank_reconciliation_agen.Base.Int.{pos}
use bank_reconciliation_agen.Amount.{Decimal}
use bank_reconciliation_agen.Reconcile.{MatchResult, is_fixed}
use bank_reconciliation_agen.Reconcile.Batch.{
  WorkflowReply, LedgerRow, FlowBundle, sum, build_flow_bundle,
}

-- `ReconciliationWriteBundle`
pub record WriteBundle : Type 0 where
  pub ledger_rows : List LedgerRow
  pub ai_processed_rows : ℕ
  pub fallback_l2_rows : ℕ
  pub fallback_l3_rows : ℕ
  pub total_prompt_tokens : ℕ
  pub total_completion_tokens : ℕ
  pub saved_prompt_tokens : ℕ
  pub saved_completion_tokens : ℕ

-- `merge_flow_bundles`
unfoldable pub merge_flow_bundles : List FlowBundle → WriteBundle
unfolding sum
merge_flow_bundles bundles = record {
  ledger_rows = map (λ (b : FlowBundle). b.ledger_row) bundles;
  ai_processed_rows = length bundles;
  fallback_l2_rows = sum (λ (b : FlowBundle). b.fallback_l2_rows) bundles;
  fallback_l3_rows = sum (λ (b : FlowBundle). b.fallback_l3_rows) bundles;
  total_prompt_tokens = sum (λ (b : FlowBundle). b.prompt_tokens) bundles;
  total_completion_tokens = sum (λ (b : FlowBundle). b.completion_tokens) bundles;
  saved_prompt_tokens = sum (λ (b : FlowBundle). b.saved_prompt_tokens) bundles;
  saved_completion_tokens = sum (λ (b : FlowBundle). b.saved_completion_tokens) bundles;
}

-- `compute_cost` of core/llm/cost.py: 0.435 and 0.87 dollars for a million tokens.
unfoldable pub compute_cost : ℕ → ℕ → Decimal
compute_cost prompt_tokens completion_tokens = record {
  coefficient = pos (435 * prompt_tokens + 870 * completion_tokens);
  places = 9;
}

-- A bundle in front of those of the later items, if none of them fails.
unfoldable pub prepend {ℓ} : {A : Type ℓ} → Option A → Option (List A) → Option (List A)
prepend none later = none
prepend (some b) none = none
prepend (some b) (some bs) = some (b ∷ bs)

module _ (run_workflow : MatchResult → WorkflowReply) (task : String) where
  -- The loop of `build_write_bundle`, which hands the stream's number from item to item.
  unfoldable pub one_by_one : ℕ → List MatchResult → Option (List FlowBundle)
  unfolding prepend
  one_by_one stream_seq [] = some []
  one_by_one stream_seq (r ∷ results) = elim (build_flow_bundle run_workflow task stream_seq r) [
    | none ↦ none
    | some b ↦ prepend (some b) (one_by_one b.stream_seq results)
  ]

-- `ordered_flow_results`: the results of the futures in their order, or the exception of one.
unfoldable pub ordered_flow_results {ℓ} : {A : Type ℓ} → List (Option A) → Option (List A)
unfolding prepend
ordered_flow_results [] = some []
ordered_flow_results (f ∷ futures) = prepend f (ordered_flow_results futures)

-- `build_write_bundle` without an emitter; none is an exception.
unfoldable pub build_write_bundle :
    ℕ → (MatchResult → WorkflowReply) → String → List MatchResult → Option WriteBundle
unfolding one_by_one ordered_flow_results merge_flow_bundles
build_write_bundle max_concurrency run_workflow task results =
    let pending = keep (λ r. not (is_fixed r)) results in
    let bundles =
      if max_concurrency == 1 || leb (length pending) 1
      then one_by_one run_workflow task 0 pending
      else ordered_flow_results (map (build_flow_bundle run_workflow task 0) pending) in
    elim bundles [ none ↦ none | some bs ↦ some (merge_flow_bundles bs) ]
