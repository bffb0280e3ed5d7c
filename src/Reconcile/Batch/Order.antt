-- ===== src/Reconcile/Batch/Order.antt =====
-- A batch in the executor joins what its runs ended with in their order, and its ledger rows are those of its queue.
use bank_reconciliation_agen.Base.{
  ℕ, ◌+◌, ◌≡◌, refl, ◌∙◌, sym, ap, ap₂, subst, Bool, true, false, not, ◌⊎◌, inl, inr, String,
  Option, none, some, some-injective, List, [], ◌∷◌, map, if◌then◌else◌, ◌||◌, Bool-cases, arith,
  keep, length, All, is_some, is_none, any, length-map, Option-cases,
}
use bank_reconciliation_agen.Reconcile.{MatchResult, is_fixed, QueueRow, queue_row, queue_entries}
use bank_reconciliation_agen.Reconcile.Coverage.{queued_ids}
use bank_reconciliation_agen.Base.Int.{pos}
use bank_reconciliation_agen.Amount.{Money, cents}
use bank_reconciliation_agen.Audit.{AuditDecision, validated}
use bank_reconciliation_agen.Reconcile.Batch.{
  Answer, WorkflowReply, answered, agent_error, other_error, agent_error_workflow_state,
  error_decision, LedgerRow, FlowBundle, answer_of, ledger_row_of, bundle_of, build_flow_bundle,
  row_fits, fitting_bundle, is_nan, or_nan, ledger_discrepancy_amount, abs_money,
}
use bank_reconciliation_agen.Reconcile.Batch.Writes.{
  WriteBundle, merge_flow_bundles, prepend, one_by_one, ordered_flow_results, build_write_bundle,
}

WorkflowReply-cases :
    (o : WorkflowReply)
    → ((a : Answer) × (o ≡ answered a))
      ⊎ (((name : String) × (o ≡ agent_error name)) ⊎ (o ≡ other_error))
WorkflowReply-cases (answered a) = inl (a, refl)
WorkflowReply-cases (agent_error name) = inr (inl (name, refl))
WorkflowReply-cases other_error = inr (inr refl)

-- An amount of the item is NaN.
abbrev pub has_nan : MatchResult → Bool
has_nan r = or_nan r.bank_amount || or_nan r.clear_amount || or_nan r.amount_diff

-- What makes a batch fail: another exception, evidence that does not validate, or a decision that is missing
-- or does not validate.
abbrev pub breaks : WorkflowReply → Bool
breaks (answered a) =
    not a.is_readable || (elim a.audit_decision [ none ↦ true | some d ↦ is_none (validated d) ])
breaks (agent_error name) = false
breaks other_error = true

row_fits-amounts :
    (bank clear diff : Option Money)
    → not (
        or_nan bank
        || or_nan clear
        || is_nan (elim diff [
          | some d ↦ abs_money d
          | none ↦ elim bank [
            | some b ↦ b
            | none ↦ elim clear [ some c ↦ c | none ↦ cents (pos 0) ]
          ]
        ]))
      ≡ not (or_nan bank || or_nan clear || or_nan diff)
unfolding abs_money
row_fits-amounts bank clear diff = ground arith

row_fits-ledger_row_of :
    (task : String) (r : MatchResult) (a : Answer) (d : AuditDecision)
    → row_fits (ledger_row_of task r a d) ≡ not (has_nan r)
unfolding row_fits ledger_row_of ledger_discrepancy_amount abs_money
row_fits-ledger_row_of task r a d = row_fits-amounts r.bank_amount r.clear_amount r.amount_diff

fitting_bundle-is_some :
    (task : String) (n : ℕ) (r : MatchResult) (a : Answer) (d : AuditDecision)
    → is_some (fitting_bundle task n r a d) ≡ not (has_nan r)
unfolding fitting_bundle
fitting_bundle-is_some task n r a d = elim (Bool-cases (has_nan r)) [
  | inl e ↦ let f = row_fits-ledger_row_of task r a d in rw (fitting_bundle, f, e) refl
  | inr e ↦ let f = row_fits-ledger_row_of task r a d in rw (fitting_bundle, f, e) refl
]

fitting_bundle-eq_some :
    (task : String) (n : ℕ) (r : MatchResult) (a : Answer) (d : AuditDecision) (b : FlowBundle)
    → fitting_bundle task n r a d ≡ some b
    → bundle_of task n r a d ≡ b
unfolding fitting_bundle
fitting_bundle-eq_some task n r a d b e = elim (Bool-cases (row_fits (ledger_row_of task r a d))) [
  | inl y ↦ some-injective _ _ (rw (fitting_bundle, y) at e)
  | inr y ↦ absurd (let o : none ≡ some b = rw (fitting_bundle, y) at e in cc)
]

prepend-eq_some {ℓ} :
    {A : Type ℓ} (first : Option A) (later : Option (List A)) (bs : List A)
    → prepend first later ≡ some bs
    → (b : A) × (rest : List A) × (first ≡ some b) × (later ≡ some rest) × (bs ≡ b ∷ rest)
unfolding prepend
prepend-eq_some none later bs e = absurd (ground arith)
prepend-eq_some (some b) none bs e = absurd (ground arith)
prepend-eq_some (some b) (some rest) bs e = (b, rest, refl, refl, sym (some-injective _ _ e))

merged-ids :
    (bs : List FlowBundle)
    → map (λ (l : LedgerRow). l.flow_id) (merge_flow_bundles bs).ledger_rows
      ≡ map (λ (b : FlowBundle). b.ledger_row.flow_id) bs
unfolding merge_flow_bundles
merged-ids [] = refl
merged-ids (b ∷ bs) = ap (λ ids. b.ledger_row.flow_id ∷ ids) (merged-ids bs)

merged-eq_some :
    (o : Option (List FlowBundle)) (w : WriteBundle)
    → elim o [ none ↦ none | some bs ↦ some (merge_flow_bundles bs) ] ≡ some w
    → (bs : List FlowBundle) × (o ≡ some bs)
      × (map (λ (l : LedgerRow). l.flow_id) w.ledger_rows
          ≡ map (λ (b : FlowBundle). b.ledger_row.flow_id) bs)
      × (w.ai_processed_rows ≡ length bs)
      × (w.ledger_rows ≡ map (λ (b : FlowBundle). b.ledger_row) bs)
unfolding merge_flow_bundles
merged-eq_some none w e = absurd (ground arith)
merged-eq_some (some bs) w e =
    let same : merge_flow_bundles bs ≡ w = some-injective _ _ e in
    (
      bs,
      refl,
      ap (λ (v : WriteBundle). map (λ (l : LedgerRow). l.flow_id) v.ledger_rows) (sym same)
          ∙ merged-ids bs,
      ap (λ (v : WriteBundle). v.ai_processed_rows) (sym same),
      ap (λ (v : WriteBundle). v.ledger_rows) (sym same),
    )

length-queued_ids : (rows : List QueueRow) → length (queued_ids rows) ≡ length rows
unfolding queued_ids
length-queued_ids rows = length-map (λ (r : QueueRow). r.flow_id) rows

queued_ids-keep :
    (id : ℕ) (user task scenario_type : String) (results : List MatchResult)
    → queued_ids (queue_entries id user task scenario_type results)
      ≡ map (λ (r : MatchResult). r.flow_id) (keep (λ r. not (is_fixed r)) results)
unfolding queued_ids queue_entries queue_row
queued_ids-keep id user task scenario_type [] = refl
queued_ids-keep id user task scenario_type (r ∷ results) =
    ground
      (arith, queued_ids-keep (if is_fixed r then id else id + 1) user task scenario_type results)

module _ (run_workflow : MatchResult → WorkflowReply) (task : String) where
  -- A bundle has the number it was given, and its ledger row the keys of its item.
  build_flow_bundle-keys :
      (stream_seq : ℕ) (r : MatchResult) (b : FlowBundle)
      → build_flow_bundle run_workflow task stream_seq r ≡ some b
      → (b.stream_seq ≡ stream_seq)
        × (b.ledger_row.flow_id ≡ r.flow_id)
        × (b.ledger_row.task_id ≡ task)
  unfolding build_flow_bundle bundle_of ledger_row_of
  build_flow_bundle-keys stream_seq r b e = elim (Option-cases (answer_of r (run_workflow r))) [
    | inl n ↦ absurd (ground arith)
    | inr (a, n) ↦ elim (Bool-cases a.is_readable) [
      | inr h ↦ absurd (ground arith)
      | inl h ↦ elim (Option-cases a.audit_decision) [
        | inl m ↦ absurd (ground arith)
        | inr (d, m) ↦ elim (Option-cases (validated d)) [
          | inl k ↦ absurd (ground arith)
          | inr (v, k) ↦
              let same =
                fitting_bundle-eq_some task stream_seq r a v b
                  (rw (build_flow_bundle, n, h, m, k) at e) in
              (
                ap (λ (c : FlowBundle). c.stream_seq) (sym same),
                ap (λ (c : FlowBundle). c.ledger_row.flow_id) (sym same),
                ap (λ (c : FlowBundle). c.ledger_row.task_id) (sym same),
              )
        ]
      ]
    ]
  ]

  one_by_one-ordered :
      (results : List MatchResult)
      → one_by_one run_workflow task 0 results
        ≡ ordered_flow_results (map (build_flow_bundle run_workflow task 0) results)
  unfolding one_by_one ordered_flow_results
  one_by_one-ordered [] = refl
  one_by_one-ordered (r ∷ results) = elim (Option-cases (build_flow_bundle run_workflow task 0 r)) [
    | inl e ↦ rw (one_by_one, e, prepend) refl
    | inr (b, e) ↦
        rw (one_by_one, e, (build_flow_bundle-keys 0 r b e).0, one_by_one-ordered results) refl
  ]

  -- The ledger rows of bundles that are made of a list of items.
  ordered-ids :
      (results : List MatchResult) (bs : List FlowBundle)
      → ordered_flow_results (map (build_flow_bundle run_workflow task 0) results) ≡ some bs
      → map (λ (b : FlowBundle). b.ledger_row.flow_id) bs
        ≡ map (λ (r : MatchResult). r.flow_id) results
  unfolding ordered_flow_results
  ordered-ids [] bs e =
      ap (map (λ (b : FlowBundle). b.ledger_row.flow_id)) (sym (some-injective _ _ e))
  ordered-ids (r ∷ results) bs e =
      let (b, rest, first, others, is_cons) =
        prepend-eq_some (build_flow_bundle run_workflow task 0 r) _ bs e in
      rw is_cons (ap₂ ◌∷◌ (build_flow_bundle-keys 0 r b first).1 (ordered-ids results rest others))

  ordered-task :
      (results : List MatchResult) (bs : List FlowBundle)
      → ordered_flow_results (map (build_flow_bundle run_workflow task 0) results) ≡ some bs
      → All (λ (l : LedgerRow). l.task_id ≡ task) (map (λ (b : FlowBundle). b.ledger_row) bs)
  unfolding ordered_flow_results
  ordered-task [] bs e =
      subst
        (λ (cs : List FlowBundle).
          All (λ (l : LedgerRow). l.task_id ≡ task) (map (λ (b : FlowBundle). b.ledger_row) cs))
        (some-injective _ _ e) tt
  ordered-task (r ∷ results) bs e =
      let (b, rest, first, others, is_cons) =
        prepend-eq_some (build_flow_bundle run_workflow task 0 r) _ bs e in
      rw is_cons ((build_flow_bundle-keys 0 r b first).2, ordered-task results rest others)

  build_flow_bundle-is_some :
      (r : MatchResult)
      → is_some (build_flow_bundle run_workflow task 0 r)
        ≡ not (breaks (run_workflow r) || has_nan r)
  unfolding build_flow_bundle answer_of agent_error_workflow_state validated
  build_flow_bundle-is_some r = elim (WorkflowReply-cases (run_workflow r)) [
    | inl (a, e) ↦ elim (Bool-cases a.is_readable) [
      | inr h ↦ rw (build_flow_bundle, e, h) refl
      | inl h ↦ elim (Option-cases a.audit_decision) [
        | inl n ↦ rw (build_flow_bundle, e, h, n) refl
        | inr (d, n) ↦ elim (Option-cases (validated d)) [
          | inl k ↦ rw (build_flow_bundle, e, h, n, k) refl
          | inr (v, k) ↦ rw (build_flow_bundle, e, h, n, k) (fitting_bundle-is_some task 0 r a v)
        ]
      ]
    ]
    | inr (inl (name, e)) ↦
        rw (build_flow_bundle, e)
          (fitting_bundle-is_some task 0 r (agent_error_workflow_state r name)
            (error_decision r name))
    | inr (inr e) ↦ rw (build_flow_bundle, e) refl
  ]

  ordered_flow_results-is_some :
      (results : List MatchResult)
      → is_some (ordered_flow_results (map (build_flow_bundle run_workflow task 0) results))
        ≡ not (any (λ r. breaks (run_workflow r) || has_nan r) results)
  unfolding ordered_flow_results prepend
  ordered_flow_results-is_some [] = refl
  ordered_flow_results-is_some (r ∷ results) =
      ground (arith, build_flow_bundle-is_some r, ordered_flow_results-is_some results)

  build_write_bundle-eq :
      (max_concurrency : ℕ) (results : List MatchResult)
      → build_write_bundle max_concurrency run_workflow task results
        ≡ elim (ordered_flow_results
            (map (build_flow_bundle run_workflow task 0) (keep (λ r. not (is_fixed r)) results))) [
              | none ↦ none
              | some bs ↦ some (merge_flow_bundles bs)
            ]
  unfolding build_write_bundle
  build_write_bundle-eq max_concurrency results =
      rw (build_write_bundle, one_by_one-ordered (keep (λ r. not (is_fixed r)) results))
        (ground arith)

  -- A batch yields its bundle exactly if no pending item has an amount that is NaN, and no run of a pending item
  -- ends with an exception other than AGENT_PROCESSING_ERRORS, with evidence that does not validate, or with a
  -- decision that is missing or does not validate.
  pub build_write_bundle-is_some :
      (max_concurrency : ℕ) (results : List MatchResult)
      → is_some (build_write_bundle max_concurrency run_workflow task results)
        ≡ not
            (any (λ r. breaks (run_workflow r) || has_nan r) (keep (λ r. not (is_fixed r)) results))
  build_write_bundle-is_some max_concurrency results =
      let pending = keep (λ r. not (is_fixed r)) results in
      rw (build_write_bundle-eq max_concurrency results)
        (ground (arith, ordered_flow_results-is_some pending))

  -- Where a batch yields its bundle, the ledger rows are of the items in the queue, in its order, and
  -- the count of processed rows is the length of the queue.
  pub ledger_follows_queue :
      (max_concurrency id : ℕ) (user scenario_type : String) (results : List MatchResult)
      {w : WriteBundle}
      → build_write_bundle max_concurrency run_workflow task results ≡ some w
      → (map (λ (l : LedgerRow). l.flow_id) w.ledger_rows
          ≡ queued_ids (queue_entries id user task scenario_type results))
        × (w.ai_processed_rows ≡ length (queue_entries id user task scenario_type results))
  ledger_follows_queue max_concurrency id user scenario_type results {w} e =
      let entries = queue_entries id user task scenario_type results in
      let (bs, ordered, ids, processed, _) =
        merged-eq_some _ w (sym (build_write_bundle-eq max_concurrency results) ∙ e) in
      let same : map (λ (b : FlowBundle). b.ledger_row.flow_id) bs ≡ queued_ids entries =
        ordered-ids _ bs ordered ∙ sym (queued_ids-keep id user task scenario_type results) in
      (
        ids ∙ same,
        processed
            ∙ sym (length-map (λ (b : FlowBundle). b.ledger_row.flow_id) bs)
            ∙ ap length same
            ∙ length-queued_ids entries,
      )

  -- Every ledger row of a batch is of its task.
  pub ledger_rows-task :
      (max_concurrency : ℕ) (results : List MatchResult) (w : WriteBundle)
      → build_write_bundle max_concurrency run_workflow task results ≡ some w
      → All (λ (l : LedgerRow). l.task_id ≡ task) w.ledger_rows
  ledger_rows-task max_concurrency results w e =
      let (bs, ordered, _, _, rows) =
        merged-eq_some _ w (sym (build_write_bundle-eq max_concurrency results) ∙ e) in
      rw rows (ordered-task _ bs ordered)
