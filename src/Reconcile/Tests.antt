-- ===== src/Reconcile/Tests.antt =====
-- A batch of two pairs and one item on one side.
use bank_reconciliation_agen.Base.{
  ℕ, ◌+◌, ◌≡◌, ◌||◌, refl, true, false, not, String, none, some, List, [], ◌∷◌, str_eq, length,
  keep, any, is_some,
}
use bank_reconciliation_agen.Base.Int.{pos}
use bank_reconciliation_agen.Base.Dict.{get, mem, put}
use bank_reconciliation_agen.Base.Text.{strip}
use bank_reconciliation_agen.Amount.{cents}
use bank_reconciliation_agen.Audit.{validated}
use bank_reconciliation_agen.Rules.{evaluate}
use bank_reconciliation_agen.Rules.Files.{rules_for}
use bank_reconciliation_agen.Router.{classify, all_duplicates}
use bank_reconciliation_agen.Router.Rows.{Cell, words, day, Row, Calendar, rows_by_flow_id}
use bank_reconciliation_agen.Router.Duplicates.{add_to_group}
use bank_reconciliation_agen.Router.Facts.{facts_of}
use bank_reconciliation_agen.Router.Fuzzy.{
  pair_all, pair_one, partner, single, candidates_by_bank, candidates_by_clear, replace_both,
  ids_with_error, has_error,
}
use bank_reconciliation_agen.Router.Core.{ids_of}
use bank_reconciliation_agen.Router.Safety.{IsReconciled}
use bank_reconciliation_agen.Reconcile.{
  ItemStatus, pending_ai, pending_human, auto_fixed, MatchResult, is_fixed, build_match_results,
  to_match_result, status_of, summarize_match_results, queue_entries, queue_row,
}
use bank_reconciliation_agen.Base.Text.{strip}
use bank_reconciliation_agen.Audit.{RagSearchItem}
use bank_reconciliation_agen.Reconcile.Batch.{join_ids, or_none}
use bank_reconciliation_agen.Reconcile.Sources.{
  IsPlain, no_comma, rag_sources, rag_sources-join_ids,
}
use bank_reconciliation_agen.Reconcile.Coverage.{queued_ids, queue_covers, summary_counts}
use bank_reconciliation_agen.Reconcile.Batch.{
  WorkflowReply, agent_error, other_error, build_flow_bundle,
}
use bank_reconciliation_agen.Reconcile.Batch.Writes.{WriteBundle, build_write_bundle}
use bank_reconciliation_agen.Reconcile.Batch.Order.{breaks, has_nan, build_write_bundle-is_some}

abbrev calendar : Calendar
calendar = record { iso_datetime = λ s. none; iso_date = λ s. none }

abbrev cells : String → Cell
cells column = elim (str_eq column "trade_date") [
  | true ↦ day 5 "2026-01-05"
  | false ↦ elim (str_eq column "summary") [ true ↦ words "invoice" | false ↦ words "ACME" ]
]

abbrev row_of : String → ℕ → Row
row_of id amount = record {
  flow_id = id;
  amount = some (record { coefficient = pos amount; places = 2 });
  cell = cells;
}

abbrev bank_rows : List Row
bank_rows = row_of "F1" 1000 ∷ row_of "F2" 2500 ∷ []

abbrev clear_rows : List Row
clear_rows = row_of "F1" 1000 ∷ row_of "F2" 2400 ∷ row_of "F3" 700 ∷ []

abbrev results : List MatchResult
results = elim (build_match_results calendar "BANK_ENTERPRISE" "22:00-02:00" bank_rows clear_rows) [
  | none ↦ []
  | some rs ↦ rs
]

classified :
    build_match_results calendar "BANK_ENTERPRISE" "22:00-02:00" bank_rows clear_rows ≡ some results
unfolding build_match_results classify put pair_all ids_with_error evaluate rules_for facts_of
    add_to_group strip pair_one partner single candidates_by_bank candidates_by_clear replace_both
classified = refl

queued : queued_ids (queue_entries 1 "ann" "TASK_1" "BANK_ENTERPRISE" results) ≡ "F2" ∷ "F3" ∷ []
unfolding build_match_results classify put pair_all ids_with_error evaluate rules_for facts_of
    add_to_group strip pair_one partner single candidates_by_bank candidates_by_clear replace_both
    queue_entries queue_row queued_ids to_match_result status_of has_error
queued = refl

is_there : (mem "F1" (ids_of bank_rows) || mem "F1" (ids_of clear_rows)) ≡ true
unfolding mem ids_of
is_there = refl

is_absent : mem "F1" (queued_ids (queue_entries 1 "ann" "TASK_1" "BANK_ENTERPRISE" results)) ≡ false
unfolding mem
is_absent = rw queued refl

queue_covers_example :
    IsReconciled false
      (get "F1" (rows_by_flow_id bank_rows))
      (get "F1" (rows_by_flow_id clear_rows))
      (mem "F1" (all_duplicates "BANK_ENTERPRISE" bank_rows clear_rows))
queue_covers_example =
    queue_covers calendar "BANK_ENTERPRISE" "22:00-02:00" bank_rows clear_rows 1 "ann" "TASK_1" "F1"
      classified is_there is_absent

summary_counts_example :
    (length results
      ≡ (summarize_match_results results).auto_fixed_rows
        + (summarize_match_results results).pending_ai_rows
        + (summarize_match_results results).pending_human_rows)
    × (length (queue_entries 1 "ann" "TASK_1" "BANK_ENTERPRISE" results)
        ≡ (summarize_match_results results).pending_ai_rows
          + (summarize_match_results results).pending_human_rows)
summary_counts_example =
    summary_counts calendar "BANK_ENTERPRISE" "22:00-02:00" bank_rows clear_rows 1 "ann" "TASK_1"
      classified

-- Three items: one is fixed, one is for a human, and the run of that one fails.
abbrev item_of : String → ItemStatus → MatchResult
item_of id status = record {
  flow_id = id;
  status = status;
  error_type = some "AMOUNT_MISMATCH";
  exception_branch = some "BE-R002";
  bank_amount = some (cents (pos 1000));
  clear_amount = some (cents (pos 900));
  amount_diff = some (cents (pos 100));
  t1_candidate = none;
  fuzzy_candidate = none;
}

abbrev items : List MatchResult
items = item_of "F1" pending_human ∷ item_of "F2" auto_fixed ∷ item_of "F3" pending_ai ∷ []

abbrev runs : MatchResult → WorkflowReply
runs r = agent_error "LLMUnavailable"

abbrev bundle : WriteBundle
bundle = elim (build_write_bundle 4 runs "TASK_1" items) [
  | none ↦ record {
    ledger_rows = [];
    ai_processed_rows = 0;
    fallback_l2_rows = 0;
    fallback_l3_rows = 0;
    total_prompt_tokens = 0;
    total_completion_tokens = 0;
    saved_prompt_tokens = 0;
    saved_completion_tokens = 0;
  }
  | some w ↦ w
]

bundled : build_write_bundle 4 runs "TASK_1" items ≡ some bundle
unfolding build_write_bundle build_flow_bundle validated
bundled = refl

build_write_bundle-is_some_example :
    is_some (build_write_bundle 1 (λ r. other_error) "TASK_1" items)
    ≡ not (any (λ r. breaks other_error || has_nan r) (keep (λ r. not (is_fixed r)) items))
build_write_bundle-is_some_example = build_write_bundle-is_some (λ r. other_error) "TASK_1" 1 items

-- The evidence of two chunks through the ledger.
abbrev chunk : String → RagSearchItem
chunk id = record { chunk_id = id; score = 9000 }

rules-IsPlain : IsPlain "rules-1"
unfolding no_comma strip
rules-IsPlain = record { commas = refl; ends = refl; filled = refl }

cases-IsPlain : IsPlain "case 7"
unfolding no_comma strip
cases-IsPlain = record { commas = refl; ends = refl; filled = refl }

rag_sources-join_ids_example :
    rag_sources (or_none (join_ids (chunk "rules-1" ∷ chunk "case 7" ∷ [])))
    ≡ "rules-1" ∷ "case 7" ∷ []
rag_sources-join_ids_example =
    rag_sources-join_ids (chunk "rules-1" ∷ chunk "case 7" ∷ [])
      (rules-IsPlain, (cases-IsPlain, tt))
