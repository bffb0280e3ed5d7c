-- ===== src/Router/Facts.antt =====
-- The facts that `classify` gives to the rule engine for one flow_id.
use bank_reconciliation_agen.Base.{
  Bool, false, not, ◌&&◌, ◌||◌, String, Option, none, some, List, [], ◌∷◌, str_eq, any, is_some,
}
use bank_reconciliation_agen.Base.Text.{contains}
use bank_reconciliation_agen.Amount.{Money, money_eq}
use bank_reconciliation_agen.Rules.{Facts, Value, null, boolean, text}
use bank_reconciliation_agen.Router.Rows.{Row, normalize_summary, amount_from_row}

-- `REVERSAL_KEYWORDS`
abbrev pub reversal_keywords : List String
reversal_keywords = "冲正" ∷ "红冲" ∷ "退款" ∷ "抹账" ∷ "撤销" ∷ []

-- `_contains_reversal_keyword`
unfoldable pub contains_reversal_keyword : String → Bool
unfolding contains
contains_reversal_keyword s = any (λ keyword. contains keyword s) reversal_keywords

-- `_present_side`: the side that is missing.
unfoldable pub present_side : Option Row → Option Row → Value
present_side none (some clear) = text "A"
present_side (some bank) none = text "B"
present_side _ _ = null

-- `bank_amount == clear_amount` where both are there.
unfoldable pub amounts_equal : Option Money → Option Money → Bool
unfolding money_eq
amounts_equal (some a) (some b) = money_eq a b
amounts_equal _ _ = false

-- `_has_narrative_mismatch`
unfoldable pub has_narrative_mismatch : Option Row → Option Row → Bool
unfolding amount_from_row amounts_equal normalize_summary contains_reversal_keyword
has_narrative_mismatch (some bank) (some clear) =
    let a = normalize_summary (bank.cell "summary") in
    let b = normalize_summary (clear.cell "summary") in
    amounts_equal (amount_from_row (some bank)) (amount_from_row (some clear))
    && (not (str_eq a b) || contains_reversal_keyword a || contains_reversal_keyword b)
has_narrative_mismatch _ _ = false

-- The dict `facts`; the last entry is there in the clearing scenario only.
unfoldable pub facts_of : Option Row → Option Row → Bool → Option Bool → Facts
unfolding amount_from_row amounts_equal present_side has_narrative_mismatch
facts_of bank clear duplicate in_cutoff =
    ("flow_matched", boolean (is_some bank && is_some clear))
    ∷ ("amount_equal", boolean (amounts_equal (amount_from_row bank) (amount_from_row clear)))
    ∷ ("present_side", present_side bank clear)
    ∷ ("narrative_or_name_mismatch", boolean (has_narrative_mismatch bank clear))
    ∷ ("duplicate_suspected", boolean duplicate)
    ∷ elim in_cutoff [ none ↦ [] | some b ↦ ("in_cutoff_window", boolean b) ∷ [] ]
