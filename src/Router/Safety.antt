-- ===== src/Router/Safety.antt =====
-- What is matched automatically: nothing single-sided, unequal, duplicated or of a differing narrative.
use bank_reconciliation_agen.Base.{
  ◌≡◌, refl, ◌∙◌, sym, ap, subst, Bool, true, false, String, Option, none, some, List, arith,
  str_eq, inl, inr, Bool-cases, Option-cases, All, ◌++◌,
}
use bank_reconciliation_agen.Base.Dict.{get, keys, mem, sorted_set}
use bank_reconciliation_agen.Amount.{money_eq, to_decimal}
use bank_reconciliation_agen.Rules.{RuleMatch, auto_fix, evaluate}
use bank_reconciliation_agen.Rules.Files.{rules_for, bank_enterprise, bank_clearing}
use bank_reconciliation_agen.Router.{all_duplicates, classify_one, classify}
use bank_reconciliation_agen.Router.Rows.{Row, Calendar, rows_by_flow_id}
use bank_reconciliation_agen.Router.Clock.{in_cutoff_window}
use bank_reconciliation_agen.Router.Facts.{facts_of}
use bank_reconciliation_agen.Router.Fuzzy.{BranchResult, apply_fuzzy_match}
use bank_reconciliation_agen.Router.Outcomes.{
  enterprise_table, clearing_table, narratives_differ, enterprise_outcome, clearing_outcome,
}
use bank_reconciliation_agen.Router.Core.{
  All-core, All-uncore, map-core-apply_fuzzy_match, classify_all-All, classify-eq_some,
}

-- Both rows are there with equal amounts; outside the clearing scenario the flow_id is also no
-- suspected duplicate, and the two summaries agree and speak of no reversal.
pub record IsReconciled (clearing : Bool) (bank clear : Option Row) (duplicate : Bool)
    : Type 0 where
  pub bank_row : Row
  pub clear_row : Row
  pub bank_there : bank ≡ some bank_row
  pub clear_there : clear ≡ some clear_row
  pub equal_amounts : money_eq (to_decimal bank_row.amount) (to_decimal clear_row.amount) ≡ true
  pub no_duplicate : clearing ≡ false → duplicate ≡ false
  pub same_narrative : clearing ≡ false → narratives_differ bank_row clear_row ≡ false

enterprise_auto_fix :
    (bank clear : Option Row) (duplicate : Bool)
    → (enterprise_table bank clear duplicate).action ≡ auto_fix
    → IsReconciled false bank clear duplicate
enterprise_auto_fix bank clear true e = cc
enterprise_auto_fix none none false e = cc
enterprise_auto_fix none (some clear) false e = cc
enterprise_auto_fix (some bank) none false e = cc
enterprise_auto_fix (some bank) (some clear) false e = record {
  bank_row = bank;
  clear_row = clear;
  bank_there = refl;
  clear_there = refl;
  equal_amounts = ground arith;
  no_duplicate = λ _. refl;
  same_narrative = λ _. ground arith;
}

clearing_auto_fix :
    (bank clear : Option Row) (in_cutoff duplicate : Bool)
    → (clearing_table bank clear in_cutoff).action ≡ auto_fix
    → IsReconciled true bank clear duplicate
clearing_auto_fix none none in_cutoff d e = cc
clearing_auto_fix none (some clear) true d e = cc
clearing_auto_fix none (some clear) false d e = cc
clearing_auto_fix (some bank) none in_cutoff d e = cc
clearing_auto_fix (some bank) (some clear) in_cutoff d e = record {
  bank_row = bank;
  clear_row = clear;
  bank_there = refl;
  clear_there = refl;
  equal_amounts = ground arith;
  no_duplicate = λ f. cc;
  same_narrative = λ f. cc;
}

module _ (calendar : Calendar) (scenario_type setting : String) where
  abbrev clearing : Bool
  clearing = str_eq scenario_type "BANK_CLEARING"

  clearing_one :
      (bank_rows : List Row) (id : String) (bank clear : Option Row) (duplicate : Bool)
      (r : BranchResult)
      → clearing ≡ true
      → classify_one calendar scenario_type setting bank_rows id bank clear duplicate ≡ some r
      → (in_cutoff : Bool) × (r.flow_id ≡ id)
        × (r.action
            ≡ (evaluate bank_clearing (facts_of bank clear duplicate (some in_cutoff))).action)
  unfolding classify_one rules_for
  clearing_one bank_rows id bank clear duplicate r c e =
      elim (Option-cases (in_cutoff_window setting clear)) [
        | inl n ↦ absurd (ground arith)
        | inr (b, n) ↦ (b, ground arith, ground arith)
      ]

  enterprise_one :
      (bank_rows : List Row) (id : String) (bank clear : Option Row) (duplicate : Bool)
      (r : BranchResult)
      → clearing ≡ false
      → classify_one calendar scenario_type setting bank_rows id bank clear duplicate ≡ some r
      → (r.flow_id ≡ id)
        × (r.action ≡ (evaluate bank_enterprise (facts_of bank clear duplicate none)).action)
  unfolding classify_one rules_for
  enterprise_one bank_rows id bank clear duplicate r c e = (ground arith, ground arith)

  classify_one-IsReconciled :
      (bank_rows : List Row) (id : String) (bank clear : Option Row) (duplicate : Bool)
      (r : BranchResult)
      → classify_one calendar scenario_type setting bank_rows id bank clear duplicate ≡ some r
      → (r.flow_id ≡ id) × (r.action ≡ auto_fix → IsReconciled clearing bank clear duplicate)
  classify_one-IsReconciled bank_rows id bank clear duplicate r e = elim (Bool-cases clearing) [
    | inl c ↦
        let (b, same_id, act) = clearing_one bank_rows id bank clear duplicate r c e in
        (
          same_id,
          λ fix. rw c (
              clearing_auto_fix bank clear b duplicate (
                ap (λ (m : RuleMatch). m.action) (sym (clearing_outcome bank clear duplicate b))
                ∙ sym act
                ∙ fix)),
        )
    | inr c ↦
        let (same_id, act) = enterprise_one bank_rows id bank clear duplicate r c e in
        (
          same_id,
          λ fix. rw c (
              enterprise_auto_fix bank clear duplicate (
                ap (λ (m : RuleMatch). m.action) (sym (enterprise_outcome bank clear duplicate))
                ∙ sym act
                ∙ fix)),
        )
  ]

  -- Every result of `classify` whose action is AUTO_FIX is of a flow_id that has a row on both sides
  -- with equal amounts, neither of them NaN; outside BANK_CLEARING its flow_id is also among no
  -- side's suspected duplicates, and its two summaries are equal and contain no reversal keyword.
  pub auto_fix-IsReconciled :
      (bank_rows clear_rows : List Row) {rs : List BranchResult}
      → classify calendar scenario_type setting bank_rows clear_rows ≡ some rs
      → All
          (λ r.
            r.action ≡ auto_fix
            → IsReconciled
                (str_eq scenario_type "BANK_CLEARING")
                (get r.flow_id (rows_by_flow_id bank_rows))
                (get r.flow_id (rows_by_flow_id clear_rows))
                (mem r.flow_id (all_duplicates scenario_type bank_rows clear_rows)))
          rs
  auto_fix-IsReconciled bank_rows clear_rows {rs} e =
      let banks = rows_by_flow_id bank_rows in
      let clears = rows_by_flow_id clear_rows in
      let duplicates = all_duplicates scenario_type bank_rows clear_rows in
      let (results, loop, is_fuzzy) =
        classify-eq_some calendar scenario_type setting bank_rows clear_rows rs e in
      let P : BranchResult → Type 0 = λ r.
        r.action ≡ auto_fix
        → IsReconciled clearing (get r.flow_id banks) (get r.flow_id clears)
            (mem r.flow_id duplicates) in
      let before : All P results =
        classify_all-All calendar scenario_type setting bank_rows banks clears duplicates P
          (λ id r one.
            let (same_id, safe) = classify_one-IsReconciled bank_rows id _ _ _ r one in
            rw same_id safe)
          (sorted_set (keys banks ++ keys clears)) results loop in
      rw is_fuzzy (
        All-uncore P (apply_fuzzy_match calendar scenario_type banks clears results) (
          subst (All P)
            (sym (map-core-apply_fuzzy_match calendar scenario_type banks clears results))
            (All-core P results before)))
