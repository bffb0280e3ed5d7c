-- ===== src/Reconcile/Coverage.antt =====
-- The queue of a batch: what it holds, and how it stands to the counts of the summary.
use bank_reconciliation_agen.Base.{
  ℕ, ◌+◌, ◌≡◌, ◌∙◌, subst, true, false, ◌||◌, inl, inr, String, some, List, [], ◌∷◌, map, str_eq,
  eq_iff, if◌then◌else◌, arith, length, All, Bool-cases, Option-cases,
}
use bank_reconciliation_agen.Base.Dict.{get, mem}
use bank_reconciliation_agen.Rules.{auto_fix}
use bank_reconciliation_agen.Router.{classify, all_duplicates}
use bank_reconciliation_agen.Router.Rows.{Row, Calendar, rows_by_flow_id}
use bank_reconciliation_agen.Router.Fuzzy.{BranchResult}
use bank_reconciliation_agen.Router.Core.{flow_ids, ids_of, classify_covers}
use bank_reconciliation_agen.Router.Safety.{IsReconciled, auto_fix-IsReconciled}
use bank_reconciliation_agen.Reconcile.{
  MatchResult, status_of, to_match_result, build_match_results, is_fixed, count,
  summarize_match_results, QueueRow, queue_row, queue_entries,
}

-- The flow_ids that are queued.
unfoldable pub queued_ids : List QueueRow → List String
queued_ids rows = map (λ (r : QueueRow). r.flow_id) rows

-- A batch of results of the router: every status is one of the three that the summary counts.
pub length-queue_entries :
    (id : ℕ) (user task scenario_type : String) (rs : List BranchResult)
    → let results = map to_match_result rs in
      let summary = summarize_match_results results in
      (length results
        ≡ summary.auto_fixed_rows + summary.pending_ai_rows + summary.pending_human_rows)
      × (length (queue_entries id user task scenario_type results)
          ≡ summary.pending_ai_rows + summary.pending_human_rows)
unfolding queue_entries summarize_match_results count to_match_result status_of
length-queue_entries id user task scenario_type [] = (omega arith, omega arith)
length-queue_entries id user task scenario_type (r ∷ rs) =
    let same = length-queue_entries id user task scenario_type rs in
    let next = if is_fixed (to_match_result r) then id else id + 1 in
    let later = length-queue_entries next user task scenario_type rs in
    (ground (arith, same, later), ground (arith, same, later))

-- A flow_id is queued, or its results are all automatic fixes of the router.
queued_or_fixed :
    (id : ℕ) (user task scenario_type x : String) (rs : List BranchResult)
    → mem x (queued_ids (queue_entries id user task scenario_type (map to_match_result rs))) ≡ false
    → All (λ (r : BranchResult). r.flow_id ≡ x → r.action ≡ auto_fix) rs
unfolding queue_entries queued_ids mem to_match_result status_of queue_row
queued_or_fixed id user task scenario_type x [] h = tt
queued_or_fixed id user task scenario_type x (r ∷ rs) h = (
  λ e. ground (arith, eq_iff r.flow_id x),
  queued_or_fixed (if is_fixed (to_match_result r) then id else id + 1) user task scenario_type x rs
      (ground arith),
)

-- What holds of each automatic fix holds of a flow_id whose results are all automatic fixes.
at_id :
    (P : String → Type 0) (x : String) (rs : List BranchResult)
    → mem x (flow_ids rs) ≡ true
    → All (λ (r : BranchResult). r.flow_id ≡ x → r.action ≡ auto_fix) rs
    → All (λ (r : BranchResult). r.action ≡ auto_fix → P r.flow_id) rs
    → P x
unfolding mem flow_ids
at_id P x [] there fixes safe = absurd (ground arith)
at_id P x (r ∷ rs) there fixes safe = elim (Bool-cases (str_eq r.flow_id x)) [
  | inl e ↦
      let same : r.flow_id ≡ x = (eq_iff r.flow_id x).0 e in subst P same (safe.0 (fixes.0 same))
  | inr e ↦ at_id P x rs (ground arith) fixes.1 safe.1
]

results-eq_some :
    (calendar : Calendar) (scenario_type setting : String) (bank_rows clear_rows : List Row)
    (results : List MatchResult)
    → build_match_results calendar scenario_type setting bank_rows clear_rows ≡ some results
    → (rs : List BranchResult) × (classify calendar scenario_type setting bank_rows clear_rows
        ≡ some rs)
      × (results ≡ map to_match_result rs)
unfolding build_match_results
results-eq_some calendar scenario_type setting bank_rows clear_rows results e =
    elim (Option-cases (classify calendar scenario_type setting bank_rows clear_rows)) [
      | inl n ↦ absurd (ground arith)
      | inr (rs, n) ↦ (rs, n, ground arith)
    ]

module _ (calendar : Calendar) (scenario_type setting : String) (bank_rows clear_rows : List Row)
    {results : List MatchResult} where
  -- When the results of a batch are built, a flow_id of either side whose item is not put into the queue
  -- has a row on both sides with equal amounts; outside BANK_CLEARING it is also no suspected
  -- duplicate, and its two summaries are equal and contain no reversal keyword.
  pub queue_covers :
      (id : ℕ) (user task x : String)
      → build_match_results calendar scenario_type setting bank_rows clear_rows ≡ some results
      → (mem x (ids_of bank_rows) || mem x (ids_of clear_rows)) ≡ true
      → mem x (queued_ids (queue_entries id user task scenario_type results)) ≡ false
      → IsReconciled
          (str_eq scenario_type "BANK_CLEARING")
          (get x (rows_by_flow_id bank_rows))
          (get x (rows_by_flow_id clear_rows))
          (mem x (all_duplicates scenario_type bank_rows clear_rows))
  queue_covers id user task x e there absent =
      let (rs, classified, is_map) =
        results-eq_some calendar scenario_type setting bank_rows clear_rows results e in
      let covered =
        classify_covers calendar scenario_type setting bank_rows clear_rows classified in
      at_id
        (λ y.
          IsReconciled (str_eq scenario_type "BANK_CLEARING") (get y (rows_by_flow_id bank_rows))
            (get y (rows_by_flow_id clear_rows))
            (mem y (all_duplicates scenario_type bank_rows clear_rows)))
        x rs (covered.1 x ∙ there)
        (queued_or_fixed id user task scenario_type x rs (
          subst
            (λ (ms : List MatchResult).
              mem x (queued_ids (queue_entries id user task scenario_type ms)) ≡ false)
            is_map absent))
        (auto_fix-IsReconciled calendar scenario_type setting bank_rows clear_rows classified)

  -- When the results of a batch are built, the three counts of the summary add up to the number of
  -- results, and the queue gets as many rows as the counts of the two pending statuses say.
  pub summary_counts :
      (id : ℕ) (user task : String)
      → build_match_results calendar scenario_type setting bank_rows clear_rows ≡ some results
      → let summary = summarize_match_results results in
        (length results
          ≡ summary.auto_fixed_rows + summary.pending_ai_rows + summary.pending_human_rows)
        × (length (queue_entries id user task scenario_type results)
            ≡ summary.pending_ai_rows + summary.pending_human_rows)
  summary_counts id user task e =
      let (rs, classified, is_map) =
        results-eq_some calendar scenario_type setting bank_rows clear_rows results e in
      rw is_map (length-queue_entries id user task scenario_type rs)
