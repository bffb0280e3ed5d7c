-- ===== src/Audit/Hooks.antt =====
-- services/hooks.py and services/fallback.py: the hooks behind the audit decision.
use Prim.Native.Char.{code}
use Prim.Native.String.{◌++◌ as ◌+++◌}
use bank_reconciliation_agen.Base.{
  ℕ, ◌+◌, Bool, true, false, ◌&&◌, String, Option, none, some, List, [], ◌∷◌, ltb, leb, str_eq,
  if◌then◌else◌, any,
}
use bank_reconciliation_agen.Base.Int.{magnitude}
use bank_reconciliation_agen.Base.Text.{strip}
use bank_reconciliation_agen.Amount.{Money, nan, cents}
use bank_reconciliation_agen.Audit.{
  AuditDecision, pending_human, decision_text, is_auto_fixed, is_pending_human, is_empty,
}

-- `CONFIDENCE_THRESHOLD`
abbrev pub confidence_threshold : ℕ
confidence_threshold = 8500

-- `confidence_is_low`
unfoldable pub confidence_is_low : ℕ → Bool
confidence_is_low confidence = ltb confidence confidence_threshold

-- `l1_requires_l2`
unfoldable pub l1_requires_l2 : AuditDecision → Bool
unfolding confidence_is_low
l1_requires_l2 d = confidence_is_low d.confidence

-- `mark_fallback`: `next_action` is None or "PENDING_HUMAN" at every call.
unfoldable pub mark_fallback : ℕ → Bool → AuditDecision → AuditDecision
mark_fallback level to_human d =
    let marked : AuditDecision = record d {
      fallback_applied = ltb 0 level;
      fallback_level = level;
    } in
    if to_human
    then record marked {
      next_action = "PENDING_HUMAN";
      decision = pending_human;
      ai_suggestion = "PENDING_HUMAN";
    }
    else marked

-- `s.lower()` on ASCII; no other character is lowered to a text that the placeholders hold.
lower : ℕ → ℕ
lower c = if leb b'A' c && leb c b'Z' then c + 32 else c

same_lowered : String → String → Bool
unfolding lower
same_lowered String.[] String.[] = true
same_lowered (String.◌∷◌ c s) (String.◌∷◌ d t) =
    let rest = same_lowered s t in
    leb (lower (code c)) (code d) && leb (code d) (lower (code c)) && rest
same_lowered _ _ = false

-- `_is_placeholder_reason`
unfoldable pub is_placeholder_reason : String → Bool
unfolding same_lowered strip
is_placeholder_reason reason =
    let s = strip reason in
    any (λ word. same_lowered s word)
      ("" ∷ "todo" ∷ "tbd" ∷ "pending" ∷ "placeholder" ∷ "n/a" ∷ "-" ∷ [])

-- `amount_diff is not None and abs(amount_diff) > Decimal("10000")`, in cents. Comparing a `NaN`
-- raises decimal.InvalidOperation: `none`.
unfoldable pub is_large : Option Money → Option Bool
is_large none = some false
is_large (some nan) = none
is_large (some (cents a)) = some (ltb 1000000 (magnitude a))

-- `rag_best_score is None or rag_best_score < 0.5`
unfoldable pub is_weak : Option ℕ → Bool
is_weak none = true
is_weak (some score) = ltb score 5000

unfoldable pub add_if : Bool → String → List String → List String
add_if b name violated = if b then name ∷ violated else violated

-- The four tests of `constraint_hook`, once the first is computed: the names violated.
unfoldable pub violations : Bool → Option ℕ → AuditDecision → List String
unfolding add_if is_placeholder_reason confidence_is_low is_weak
violations large best d = add_if (large && str_eq d.risk_level "LOW") "C3" (
    add_if (is_pending_human d.decision && is_placeholder_reason d.reason) "C4" (
      add_if (is_auto_fixed d.decision && confidence_is_low d.confidence) "C5"
        (add_if (is_auto_fixed d.decision && is_weak best) "C6" [])))

-- `constraint_hook`; `none` is the InvalidOperation.
unfoldable pub constraint_hook : Option Money → Option ℕ → AuditDecision → Option (List String)
unfolding violations is_large
constraint_hook diff best d = elim (is_large diff) [
  | none ↦ none
  | some large ↦ some (violations large best d)
]

-- `decision_hook`
unfoldable pub decision_hook : AuditDecision → List String → String
decision_hook d violated = if is_empty violated then decision_text d.decision else "PENDING_HUMAN"

-- `', '.join(names)`
unfoldable pub join : List String → String
join [] = ""
join (x ∷ []) = x
join (x ∷ y ∷ names) = x +++ (", " +++ join (y ∷ names))

-- The part of `apply_post_hooks` that changes the decision.
unfoldable pub guarded : List String → AuditDecision → AuditDecision
unfolding mark_fallback join decision_hook
guarded [] d = record d { next_action = decision_hook d [] }
guarded (v ∷ vs) d =
    let suffix = "违反约束: " +++ join (v ∷ vs) in
    let blamed : AuditDecision = record d {
      reason = if str_eq d.reason "" then suffix else d.reason +++ ("；" +++ suffix);
    } in
    mark_fallback (if ltb d.fallback_level 1 then 1 else d.fallback_level) true blamed
