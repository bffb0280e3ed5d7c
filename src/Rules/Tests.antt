-- ===== src/Rules/Tests.antt =====
-- The rules on concrete facts.
use bank_reconciliation_agen.Base.{◌≡◌, ◌⊎◌, refl, true, false, some, none, [], ◌∷◌, All}
use bank_reconciliation_agen.Rules.{
  Facts, Rule, boolean, text, evaluate, to_match, matches, load_rules, insert_rule, first_match,
  matches_condition, get_fact, value_eq, exception,
}
use bank_reconciliation_agen.Rules.Files.{bank_enterprise}
use bank_reconciliation_agen.Rules.Choice.{IsChosen, evaluate-chooses}

-- A one-sided item that is suspected as a duplicate.
abbrev facts : Facts
facts =
    ("flow_matched", boolean false)
    ∷ ("amount_equal", boolean false)
    ∷ ("present_side", text "A")
    ∷ ("narrative_or_name_mismatch", boolean false)
    ∷ ("duplicate_suspected", boolean true)
    ∷ []

duplicate_first : evaluate bank_enterprise facts ≡ record {
  rule_id = "BE-R008";
  action = exception;
  error_type = some "DUPLICATE_BOOKING";
  exception_branch = some "BE-R008";
}
unfolding evaluate load_rules insert_rule first_match matches matches_condition get_fact value_eq
duplicate_first = refl

evaluate-chooses_example :
    ((evaluate bank_enterprise facts ≡ to_match none)
      × All (λ q. matches q facts ≡ false) bank_enterprise)
    ⊎ ((r : Rule) × (evaluate bank_enterprise facts ≡ to_match (some r))
        × IsChosen facts bank_enterprise r)
evaluate-chooses_example = evaluate-chooses facts bank_enterprise
