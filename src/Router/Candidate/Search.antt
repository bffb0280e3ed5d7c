-- ===== src/Router/Candidate/Search.antt =====
-- The T+1 candidate is the first bank row that fits, and there is one if a row fits.
use bank_reconciliation_agen.Base.{
  ℕ, ◌+◌, ◌≡◌, ◌≢◌, refl, ap, Bool, true, false, ◌⊎◌, inl, inr, Option, none, some, String, List,
  [], ◌∷◌, ◌++◌, arith, All, Bool-cases,
}
use bank_reconciliation_agen.Amount.{Money}
use bank_reconciliation_agen.Router.Rows.{Row, Calendar, t1_parse_date}
use bank_reconciliation_agen.Router.Candidate.{
  T1Candidate, t1_amount, t1_reference_values, is_candidate, first_candidate, search_rows,
  find_t1_candidate,
}

module _ (calendar : Calendar) where
  -- `c` is made of a row that passes `test`, and no row above it does.
  pub record IsFirst (test : Row → Bool) (date : ℕ) (rows : List Row) (c : T1Candidate)
      : Type 0 where
    pub above : List Row
    pub row : Row
    pub below : List Row
    pub in_rows : rows ≡ above ++ row ∷ below
    pub fits : test row ≡ true
    pub above_unfit : All (λ r. test r ≡ false) above
    pub shown : c ≡ record { flow_id = row.flow_id; accounting_date = date }

  abbrev pub Outcome : (Row → Bool) → ℕ → List Row → Option T1Candidate → Type 0
  Outcome test date rows none = All (λ r. test r ≡ false) rows
  Outcome test date rows (some c) = IsFirst test date rows c

  first_candidate-Outcome :
      (amount : Money) (date : ℕ) (references : List String) (rows : List Row)
      → Outcome
          (is_candidate calendar amount date references)
          date
          rows
          (first_candidate calendar amount date references rows)
  unfolding first_candidate
  first_candidate-Outcome amount date references [] = tt
  first_candidate-Outcome amount date references (row ∷ rows) =
      elim (Bool-cases (is_candidate calendar amount date references row)) [
        | inl e ↦ rw e (record {
          above = [];
          row = row;
          below = rows;
          in_rows = refl;
          fits = e;
          above_unfit = tt;
          shown = refl;
        })
        | inr e ↦ rw e (
            later e (first_candidate calendar amount date references rows)
              (first_candidate-Outcome amount date references rows))
      ]
    where
      later :
          is_candidate calendar amount date references row ≡ false
          → (o : Option T1Candidate)
          → Outcome (is_candidate calendar amount date references) date rows o
          → Outcome (is_candidate calendar amount date references) date (row ∷ rows) o
      later e none h = (e, h)
      later e (some c) h = record {
        above = row ∷ h.above;
        row = h.row;
        below = h.below;
        in_rows = ap (λ rs. row ∷ rs) h.in_rows;
        fits = h.fits;
        above_unfit = (e, h.above_unfit);
        shown = h.shown;
      }

  search_rows-nonempty :
      (amount : Money) (date : ℕ) (references : List String) (rows : List Row)
      → references ≢ []
      → search_rows calendar (some amount) (some date) references rows
        ≡ first_candidate calendar amount (date + 1) references rows
  unfolding search_rows
  search_rows-nonempty amount date [] rows h = absurd (h refl)
  search_rows-nonempty amount date (r ∷ rs) rows h = refl

  search_rows-lacking :
      (o : Option Money) (d : Option ℕ) (references : List String) (rows : List Row)
      → (o ≡ none) ⊎ (d ≡ none) ⊎ (references ≡ [])
      → search_rows calendar o d references rows ≡ none
  unfolding search_rows
  search_rows-lacking none d references rows h = refl
  search_rows-lacking (some a) none references rows h = refl
  search_rows-lacking (some a) (some d) [] rows h = refl
  search_rows-lacking (some a) (some d) (r ∷ rs) rows h = absurd (ground arith)

  -- For a clearing row that has an amount, a trade date and at least one reference: the answer is the
  -- first bank row of equal amount, of the accounting date one day after the trade date, and with a
  -- common reference, or None if no bank row is such. A clearing row that lacks one has no candidate.
  pub find_t1_candidate-Outcome :
      (clear : Row) (bank_rows : List Row)
      → ((amount : Money) (date : ℕ)
          → t1_amount clear ≡ some amount
          → t1_parse_date calendar (clear.cell "trade_date") ≡ some date
          → t1_reference_values clear ≢ []
          → Outcome
              (is_candidate calendar amount (date + 1) (t1_reference_values clear))
              (date + 1)
              bank_rows
              (find_t1_candidate calendar clear bank_rows))
        × ((t1_amount clear ≡ none)
              ⊎ (t1_parse_date calendar (clear.cell "trade_date") ≡ none)
              ⊎ (t1_reference_values clear ≡ [])
            → find_t1_candidate calendar clear bank_rows ≡ none)
  unfolding find_t1_candidate
  find_t1_candidate-Outcome clear bank_rows = (
    λ amount date ea ed ne.
        rw (ea, ed)
          (rw (search_rows-nonempty amount date (t1_reference_values clear) bank_rows ne)
            (first_candidate-Outcome amount (date + 1) (t1_reference_values clear) bank_rows)),
    λ h. search_rows-lacking _ _ _ bank_rows h,
  )
