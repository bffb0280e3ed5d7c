-- ===== src/Workflow/Guard.antt =====
-- What the post hooks promise of every run of the workflow.
use bank_reconciliation_agen.Base.{
  ℕ, ◌≤◌, ◌<◌, ◌≡◌, ◌≢◌, refl, ◌∙◌, sym, ap, Bool, true, false, Option, none, some, List, [], ◌∷◌,
  arith, leb, any, str_eq, String, ◌&&◌, eq_iff, Bool-cases, Option-cases, some-injective, inl, inr,
  max,
}
use bank_reconciliation_agen.Base.Int.{ℤ, magnitude}
use bank_reconciliation_agen.Amount.{Money, nan, cents}
use bank_reconciliation_agen.Audit.{
  auto_fixed, pending_human, decision_text, AuditDecision, RagSearchItem, best_of, is_auto_fixed,
  is_pending_human,
}
use bank_reconciliation_agen.Audit.Hooks.{
  constraint_hook, violations, guarded, is_large, is_weak, mark_fallback, confidence_is_low,
  confidence_threshold, is_placeholder_reason, decision_hook, add_if,
}
use bank_reconciliation_agen.Workflow.States.{State, Run, finished, raised, unless}
use bank_reconciliation_agen.Workflow.Audits.{best_score, apply_post_hooks}

-- A property of the state that a run returns.
abbrev pub On {ℓ} : (State → Type ℓ) → Run → Type ℓ
On P (finished s) = P s
On P raised = Unit

pub On-unless {ℓ} : (P : State → Type ℓ) (b : Bool) (r : Run) → On P r → On P (unless b r)
unfolding unless
On-unless P true r h = tt
On-unless P false r h = h

-- Some item has at least half of the full score.
abbrev pub has_good_item : List RagSearchItem → Bool
has_good_item items = any (λ item. leb 5000 item.score) items

-- The decision is the one reported; and if it fixes the item automatically then it is at least 0.85
-- sure, some item of the evidence scores at least 0.5, and the amount difference is not NaN and, where
-- there is one and the risk is LOW, at most 10000.00.
pub record IsGuarded (s : State) : Type 0 where
  pub decision : AuditDecision
  pub is_decision : s.audit_decision ≡ some decision
  pub is_action : s.next_action ≡ decision_text decision.decision
  pub is_confidence : s.confidence ≡ some decision.confidence
  pub is_level : s.fallback_level ≡ decision.fallback_level
  pub is_sure : decision.decision ≡ auto_fixed → confidence_threshold ≤ decision.confidence
  pub is_grounded : decision.decision ≡ auto_fixed → has_good_item s.rag_context ≡ true
  pub is_number : decision.decision ≡ auto_fixed → s.amount_diff ≢ some nan
  pub is_small :
      (a : ℤ)
      → decision.decision ≡ auto_fixed
      → decision.risk_level ≡ "LOW"
      → s.amount_diff ≡ some (cents a)
      → magnitude a ≤ 1000000

best_of-good :
    (best : ℕ) (items : List RagSearchItem)
    → 5000 ≤ best_of best items
    → best < 5000
    → has_good_item items ≡ true
unfolding best_of
best_of-good best [] big small = ground arith
best_of-good best (x ∷ xs) big small = elim (Bool-cases (leb 5000 x.score)) [
  | inl e ↦ rw e refl
  | inr e ↦ rw e (best_of-good (max best x.score) xs big (ground arith))
]

best_score-good :
    (items : List RagSearchItem) → is_weak (best_score items) ≡ false → has_good_item items ≡ true
unfolding best_score is_weak
best_score-good [] e = ground arith
best_score-good (x ∷ xs) e = elim (Bool-cases (leb 5000 x.score)) [
  | inl f ↦ rw f refl
  | inr f ↦ rw f (best_of-good x.score xs (ground arith) (ground arith))
]

add_if-none :
    (b : Bool) (name : String) (names : List String)
    → add_if b name names ≡ []
    → (b ≡ false) × (names ≡ [])
unfolding add_if
add_if-none b name names e = ground arith

violations-none :
    (large : Bool) (best : Option ℕ) (d : AuditDecision)
    → violations large best d ≡ []
    → d.decision ≡ auto_fixed
    → (confidence_threshold ≤ d.confidence)
      × (is_weak best ≡ false)
      × ((large && str_eq d.risk_level "LOW") ≡ false)
unfolding violations confidence_is_low
violations-none large best d e fixed =
    let c6s = add_if (is_auto_fixed d.decision && is_weak best) "C6" [] in
    let c5s = add_if (is_auto_fixed d.decision && confidence_is_low d.confidence) "C5" c6s in
    let c4s = add_if (is_pending_human d.decision && is_placeholder_reason d.reason) "C4" c5s in
    let c3 = add_if-none (large && str_eq d.risk_level "LOW") "C3" c4s e in
    let c4 =
      add_if-none (is_pending_human d.decision && is_placeholder_reason d.reason) "C4" c5s c3.1 in
    let c5 =
      add_if-none (is_auto_fixed d.decision && confidence_is_low d.confidence) "C5" c6s c4.1 in
    let c6 = add_if-none (is_auto_fixed d.decision && is_weak best) "C6" [] c5.1 in
    (ground (arith, c5.0, fixed), ground (arith, c6.0, fixed), c3.0)

is_large-number :
    (diff : Option Money) (large : Bool) → is_large diff ≡ some large → diff ≢ some nan
unfolding is_large
is_large-number none large e = λ f. cc
is_large-number (some nan) large e = λ f. cc
is_large-number (some (cents a)) large e = λ f. cc

is_large-small :
    (a : ℤ) (large : Bool)
    → is_large (some (cents a)) ≡ some large
    → large ≡ false
    → magnitude a ≤ 1000000
unfolding is_large
is_large-small a large e small = ground arith

guarded-blamed :
    (v : String) (vs : List String) (d : AuditDecision)
    → ((guarded (v ∷ vs) d).decision ≡ pending_human)
      × ((guarded (v ∷ vs) d).next_action ≡ "PENDING_HUMAN")
unfolding guarded mark_fallback
guarded-blamed v vs d = (refl, refl)

-- A decision for a human.
pub held :
    (d : AuditDecision) (s : State)
    → s.audit_decision ≡ some d
    → d.decision ≡ pending_human
    → s.next_action ≡ "PENDING_HUMAN"
    → s.confidence ≡ some d.confidence
    → s.fallback_level ≡ d.fallback_level
    → IsGuarded s
held d s is_d human action conf level = record {
  decision = d;
  is_decision = is_d;
  is_action = rw human action;
  is_confidence = conf;
  is_level = level;
  is_sure = λ f. cc;
  is_grounded = λ f. cc;
  is_number = λ f. cc;
  is_small = λ a f. cc;
}

constraint_hook-raises :
    (diff : Option Money) (best : Option ℕ) (d : AuditDecision)
    → is_large diff ≡ none
    → constraint_hook diff best d ≡ none
unfolding constraint_hook
constraint_hook-raises diff best d e = rw (e, constraint_hook)

constraint_hook-names :
    (diff : Option Money) (best : Option ℕ) (d : AuditDecision) (large : Bool)
    → is_large diff ≡ some large
    → constraint_hook diff best d ≡ some (violations large best d)
unfolding constraint_hook
constraint_hook-names diff best d large e = rw (e, constraint_hook)

none_not_some : (vs : List String) → none ≢ some vs
none_not_some vs e = cc

-- `constraint_hook` ends with a list of violations; with none of them, the decision is sound.
constraint_hook-none :
    (diff : Option Money) (best : Option ℕ) (d : AuditDecision)
    → constraint_hook diff best d ≡ some []
    → d.decision ≡ auto_fixed
    → (confidence_threshold ≤ d.confidence)
      × (is_weak best ≡ false)
      × (diff ≢ some nan)
      × ((a : ℤ) → d.risk_level ≡ "LOW" → diff ≡ some (cents a) → magnitude a ≤ 1000000)
constraint_hook-none diff best d e fixed = elim (Option-cases (is_large diff)) [
  | inl f ↦ absurd (none_not_some [] (sym (constraint_hook-raises diff best d f) ∙ e))
  | inr (large, f) ↦
      let sound =
        violations-none large best d
          (some-injective _ _ (sym (constraint_hook-names diff best d large f) ∙ e)) fixed in
      (
        sound.0,
        sound.1,
        is_large-number diff large f,
        λ a low is_a.
            is_large-small a large (ap is_large (sym is_a) ∙ f)
              (ground (arith, sound.2, low, eq_iff d.risk_level "LOW")),
      )
]

-- Whatever decision the hooks are given, what they leave is guarded.
pub apply_post_hooks-IsGuarded :
    (d : AuditDecision) (s : State) → On IsGuarded (apply_post_hooks d s)
unfolding apply_post_hooks guarded decision_hook mark_fallback
apply_post_hooks-IsGuarded d s =
    elim (Option-cases (constraint_hook s.amount_diff (best_score s.rag_context) d)) [
      | inl e ↦ rw (e, On) tt
      | inr (v ∷ vs, e) ↦ rw (e, On) (held (guarded (v ∷ vs) d) _ refl refl refl refl refl)
      | inr ([], e) ↦
          let sound = constraint_hook-none s.amount_diff (best_score s.rag_context) d e in
          rw (e, On)
            (record {
              decision = guarded [] d;
              is_decision = refl;
              is_action = refl;
              is_confidence = refl;
              is_level = refl;
              is_sure = λ f. (sound f).0;
              is_grounded = λ f. best_score-good s.rag_context (sound f).1;
              is_number = λ f. (sound f).2;
              is_small = λ a f low is_a. (sound f).3 a low is_a;
            })
    ]
