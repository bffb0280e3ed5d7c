-- ===== src/Rules/Choice.antt =====
-- Which rule `evaluate` answers with, said of the file and not of the sorted list.
use bank_reconciliation_agen.Base.{
  ◌≤◌, ◌<◌, ◌≡◌, refl, ◌∙◌, ap, true, false, ◌&&◌, ◌⊎◌, inl, inr, Option, none, some, List, [], ◌∷◌,
  ◌++◌, arith, leb, if◌then◌else◌, All, All-map, Bool-cases, Option-cases,
}
use bank_reconciliation_agen.Rules.{
  Facts, Rule, matches, first_match, to_match, insert_rule, load_rules, evaluate,
}

abbrev IsSorted : List Rule → Type 0
IsSorted [] = Unit
IsSorted (r ∷ rules) = All (λ q. r.priority ≤ q.priority) rules × IsSorted rules

All-insert_rule :
    (P : Rule → Type 0) (r : Rule) (rules : List Rule)
    → P r
    → All P rules
    → All P (insert_rule r rules)
unfolding insert_rule
All-insert_rule P r [] h p = (h, tt)
All-insert_rule P r (q ∷ rules) h p = elim (Bool-cases (leb r.priority q.priority)) [
  | inl e ↦ rw e (h, p)
  | inr e ↦ rw e (p.0, All-insert_rule P r rules h p.1)
]

All-le_trans :
    (r q : Rule) (rules : List Rule)
    → r.priority ≤ q.priority
    → All (λ x. q.priority ≤ x.priority) rules
    → All (λ x. r.priority ≤ x.priority) rules
All-le_trans r q [] h p = tt
All-le_trans r q (x ∷ rules) h p = (omega arith, All-le_trans r q rules h p.1)

insert_rule-IsSorted :
    (r : Rule) (rules : List Rule) → IsSorted rules → IsSorted (insert_rule r rules)
unfolding insert_rule
insert_rule-IsSorted r [] h = (tt, tt)
insert_rule-IsSorted r (q ∷ rules) h = elim (Bool-cases (leb r.priority q.priority)) [
  | inl e ↦ rw e ((ground arith, All-le_trans r q rules (ground arith) h.0), h)
  | inr e ↦ rw e (
    All-insert_rule (λ x. q.priority ≤ x.priority) r rules (ground arith) h.0,
    insert_rule-IsSorted r rules h.1,
  )
]

load_rules-IsSorted : (file : List Rule) → IsSorted (load_rules file)
unfolding load_rules
load_rules-IsSorted [] = tt
load_rules-IsSorted (r ∷ file) = insert_rule-IsSorted r (load_rules file) (load_rules-IsSorted file)

module _ (facts : Facts) where
  -- The better of a rule and the choice among the rules after it in the file.
  pick : Rule → Option Rule → Option Rule
  pick r none = if matches r facts then some r else none
  pick r (some q) = if matches r facts && leb r.priority q.priority then some r else some q

  first_match-ge :
      (k : Rule) (rules : List Rule) (q : Rule)
      → All (λ x. k.priority ≤ x.priority) rules
      → first_match facts rules ≡ some q
      → k.priority ≤ q.priority
  unfolding first_match
  first_match-ge k [] q h e = cc
  first_match-ge k (r ∷ rules) q h e = ground (arith, first_match-ge k rules q h.1)

  -- A rule inserted among sorted ones changes the first match as `pick` says.
  first_match-insert_rule :
      (r : Rule) (rules : List Rule)
      → IsSorted rules
      → first_match facts (insert_rule r rules) ≡ pick r (first_match facts rules)
  unfolding first_match insert_rule pick
  first_match-insert_rule r [] h = refl
  first_match-insert_rule r (q ∷ rules) h = elim (Option-cases (first_match facts rules)) [
    | inl e ↦ ground (arith, first_match-insert_rule r rules h.1)
    | inr (x, e) ↦
        ground (arith, first_match-insert_rule r rules h.1, first_match-ge q rules x h.0 e)
  ]

  best : List Rule → Option Rule
  unfolding pick
  best [] = none
  best (r ∷ file) = pick r (best file)

  first_match-load_rules : (file : List Rule) → first_match facts (load_rules file) ≡ best file
  unfolding load_rules best first_match
  first_match-load_rules [] = refl
  first_match-load_rules (r ∷ file) =
      first_match-insert_rule r (load_rules file) (load_rules-IsSorted file)
      ∙ ap (pick r) (first_match-load_rules file)

  -- The rule `r` of the file applies, every applicable rule above it in the file has a greater
  -- priority number, and no applicable rule below it has a smaller one.
  pub record IsChosen (file : List Rule) (r : Rule) : Type 0 where
    pub above : List Rule
    pub below : List Rule
    pub in_file : file ≡ above ++ r ∷ below
    pub applies : matches r facts ≡ true
    pub above_later : All (λ q. matches q facts ≡ true → r.priority < q.priority) above
    pub below_later : All (λ q. matches q facts ≡ true → r.priority ≤ q.priority) below

  best-none : (file : List Rule) → best file ≡ none → All (λ q. matches q facts ≡ false) file
  unfolding best
  best-none [] e = tt
  best-none (r ∷ file) e = elim (Option-cases (best file)) [
    | inl b ↦ (ground arith, best-none file b)
    | inr (q, b) ↦ absurd (ground arith)
  ]

  -- How the best of a longer file came about.
  best-cons :
      (q r : Rule) (file : List Rule)
      → best (q ∷ file) ≡ some r
      → ((q ≡ r)
          × (matches q facts ≡ true)
          × ((best file ≡ none) ⊎ ((x : Rule) × (best file ≡ some x) × (q.priority ≤ x.priority))))
        ⊎ ((best file ≡ some r) × (matches q facts ≡ true → r.priority < q.priority))
  unfolding best
  best-cons q r file e = elim (Option-cases (best file)) [
    | inl b ↦ inl (ground arith, ground arith, inl b)
    | inr (x, b) ↦ elim (Bool-cases (matches q facts && leb q.priority x.priority)) [
      | inl m ↦ inl (ground arith, ground arith, inr (x, b, ground arith))
      | inr m ↦ inr (ground arith, ground arith)
    ]
  ]

  best-le :
      (file : List Rule) (q : Rule)
      → best file ≡ some q
      → All (λ x. matches x facts ≡ true → q.priority ≤ x.priority) file
  unfolding best
  best-le [] q e = tt
  best-le (r ∷ file) q e = elim (best-cons r q file e) [
    | inl (same, m, inl b) ↦ (
      λ _. ground arith,
      All-map (λ x. matches x facts ≡ false) (λ x. matches x facts ≡ true → q.priority ≤ x.priority)
          (λ x f t. ground arith) file (best-none file b),
    )
    | inl (same, m, inr (x, b, le)) ↦ (
      λ _. ground arith,
      All-map (λ y. matches y facts ≡ true → x.priority ≤ y.priority)
          (λ y. matches y facts ≡ true → q.priority ≤ y.priority) (λ y f t. ground (arith, f t))
          file (best-le file x b),
    )
    | inr (b, lt) ↦ (λ m. omega (arith, lt m), best-le file q b)
  ]

  best-IsChosen : (file : List Rule) (r : Rule) → best file ≡ some r → IsChosen file r
  unfolding best
  best-IsChosen [] r e = cc
  best-IsChosen (q ∷ file) r e = elim (best-cons q r file e) [
    | inl (same, m, _) ↦ record {
      above = [];
      below = file;
      in_file = ap (λ x. x ∷ file) same;
      applies = rw (← same) m;
      above_later = tt;
      below_later = (best-le (q ∷ file) r e).1;
    }
    | inr (b, lt) ↦
        let ih = best-IsChosen file r b in
        record {
          above = q ∷ ih.above;
          below = ih.below;
          in_file = ap (λ x. q ∷ x) ih.in_file;
          applies = ih.applies;
          above_later = (lt, ih.above_later);
          below_later = ih.below_later;
        }
  ]

  -- The engine, whose rules are sorted as they are loaded, answers with the rule of the file that
  -- applies with the least priority number, the one higher up in the file where two have it; and
  -- with the match `NONE` / `UNCLASSIFIED` just where no rule of the file applies.
  pub evaluate-chooses :
      (file : List Rule)
      → ((evaluate file facts ≡ to_match none) × All (λ q. matches q facts ≡ false) file)
        ⊎ ((r : Rule) × (evaluate file facts ≡ to_match (some r)) × IsChosen file r)
  unfolding evaluate
  evaluate-chooses file = elim (Option-cases (best file)) [
    | inl b ↦ inl (ap to_match (first_match-load_rules file ∙ b), best-none file b)
    | inr (r, b) ↦ inr (r, ap to_match (first_match-load_rules file ∙ b), best-IsChosen file r b)
  ]
