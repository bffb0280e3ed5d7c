-- ===== src/Base/Table.antt =====
-- A table of the database as the list of its rows, and the statements that the services run on it.
use Prim.Native.Nat.{ℕ, suc, ◌+◌, ◌≤◌}
use mathlib.Core.Path.{◌≡◌, refl}
use mathlib.Core.Logic.{inl, inr}
use mathlib.Core.Bool.{Bool, true, false, ◌&&◌}
use mathlib.Core.Option.{Option, none, some, map}
use mathlib.Core.List.{List, [], ◌∷◌, ◌++◌}
use native.Mathlib.Omega.{arith}
use bank_reconciliation_agen.Base.Lists.{keep, All}
use bank_reconciliation_agen.Base.Tests.{if◌then◌else◌, Bool-cases}

module _ {ℓ} {A : Type ℓ} where
  -- `select(table).where(p)` and `.first()`
  unfoldable pub select_first : (A → Bool) → List A → Option A
  select_first p [] = none
  select_first p (r ∷ rows) = if p r then some r else select_first p rows

  -- `update(table).where(p).values(f)`
  unfoldable pub update_where : (A → Bool) → (A → A) → List A → List A
  update_where p f [] = []
  update_where p f (r ∷ rows) = (if p r then f r else r) ∷ update_where p f rows

  -- `delete(table).where(p)`
  unfoldable pub delete_where : (A → Bool) → List A → List A
  delete_where p [] = []
  delete_where p (r ∷ rows) = let rest = delete_where p rows in if p r then rest else r ∷ rest

  -- `insert(table)` of rows, behind the others.
  abbrev pub insert : List A → List A → List A
  insert new rows = rows ++ new

  -- `result.rowcount > 0` of a statement with the condition `p`.
  unfoldable pub any_row : (A → Bool) → List A → Bool
  any_row p [] = false
  any_row p (r ∷ rows) = if p r then true else any_row p rows

  -- The rows of `p` are rows of `q`, or none of them is.
  pub select_first-deleted :
      (p : A → Bool) (rows : List A) → select_first p (delete_where p rows) ≡ none
  unfolding select_first delete_where
  select_first-deleted p [] = refl
  select_first-deleted p (r ∷ rows) = ground (arith, select_first-deleted p rows)

  -- Where no row satisfies both conditions, what is deleted by one is not found by the other.
  pub select_first-delete_other :
      (p q : A → Bool)
      → ((r : A) → q r ≡ true → p r ≡ false)
      → (rows : List A) → select_first q (delete_where p rows) ≡ select_first q rows
  unfolding select_first delete_where
  select_first-delete_other p q apart [] = refl
  select_first-delete_other p q apart (r ∷ rows) =
      ground (arith, apart r, select_first-delete_other p q apart rows)

  pub select_first-append :
      (p : A → Bool) (rows new : List A)
      → select_first p (rows ++ new)
        ≡ elim (select_first p rows) [ none ↦ select_first p new | some r ↦ some r ]
  unfolding select_first
  select_first-append p [] new = refl
  select_first-append p (r ∷ rows) new = ground (arith, select_first-append p rows new)

  -- An update of the rows that are kept apart by `key` and chosen by `guard` among them.
  pub select_first-update :
      (key guard : A → Bool) (f : A → A)
      → ((r : A) → key (f r) ≡ key r)
      → (rows : List A)
      → select_first key (update_where (λ r. key r && guard r) f rows)
        ≡ map (λ r. if guard r then f r else r) (select_first key rows)
  unfolding select_first update_where
  select_first-update key guard f same [] = refl
  select_first-update key guard f same (r ∷ rows) =
      ground (arith, same r, select_first-update key guard f same rows)

  pub select_first-update_other :
      (p q : A → Bool) (f : A → A)
      → ((r : A) → q (f r) ≡ q r)
      → ((r : A) → q r ≡ true → p r ≡ false)
      → (rows : List A) → select_first q (update_where p f rows) ≡ select_first q rows
  unfolding select_first update_where
  select_first-update_other p q f same apart [] = refl
  select_first-update_other p q f same apart (r ∷ rows) =
      ground (arith, same r, apart r, select_first-update_other p q f same apart rows)

  -- `select(count()).where(p)`
  unfoldable pub count_where : (A → Bool) → List A → ℕ
  count_where p [] = 0
  count_where p (r ∷ rows) = if p r then suc (count_where p rows) else count_where p rows

  pub count_where-deleted : (p : A → Bool) (rows : List A) → count_where p (delete_where p rows) ≡ 0
  unfolding count_where delete_where
  count_where-deleted p [] = refl
  count_where-deleted p (r ∷ rows) = ground (arith, count_where-deleted p rows)

  pub count_where-delete :
      (p q : A → Bool) (rows : List A) → count_where q (delete_where p rows) ≤ count_where q rows
  unfolding count_where delete_where
  count_where-delete p q [] = omega arith
  count_where-delete p q (r ∷ rows) = ground (arith, count_where-delete p q rows)

  pub count_where-append :
      (p : A → Bool) (rows new : List A)
      → count_where p (rows ++ new) ≡ count_where p rows + count_where p new
  unfolding count_where
  count_where-append p [] new = omega arith
  count_where-append p (r ∷ rows) new = ground (arith, count_where-append p rows new)

  pub count_where-update :
      (p q : A → Bool) (f : A → A)
      → ((r : A) → q (f r) ≡ q r)
      → (rows : List A) → count_where q (update_where p f rows) ≡ count_where q rows
  unfolding count_where update_where
  count_where-update p q f same [] = refl
  count_where-update p q f same (r ∷ rows) =
      ground (arith, same r, count_where-update p q f same rows)

  pub any_row-none :
      (key guard : A → Bool) (rows : List A)
      → count_where key rows ≡ 0
      → any_row (λ r. key r && guard r) rows ≡ false
  unfolding any_row count_where
  any_row-none key guard [] zeros = refl
  any_row-none key guard (r ∷ rows) zeros = ground (arith, any_row-none key guard rows)

  -- Where at most one row has the key, the statement touches a row if the row found by the key fits.
  pub any_row-select_first :
      (key guard : A → Bool) (rows : List A)
      → count_where key rows ≤ 1
      → any_row (λ r. key r && guard r) rows
        ≡ elim (select_first key rows) [ none ↦ false | some r ↦ guard r ]
  unfolding any_row count_where select_first
  any_row-select_first key guard [] single = refl
  any_row-select_first key guard (r ∷ rows) single =
      ground (arith, any_row-none key guard rows, any_row-select_first key guard rows)

  pub count_where-deleted_part :
      (p q : A → Bool)
      → ((r : A) → q r ≡ true → p r ≡ true)
      → (rows : List A) → count_where q (delete_where p rows) ≡ 0
  unfolding count_where delete_where
  count_where-deleted_part p q part [] = refl
  count_where-deleted_part p q part (r ∷ rows) =
      ground (arith, part r, count_where-deleted_part p q part rows)

  pub update_where-none :
      (key guard : A → Bool) (f : A → A) (rows : List A)
      → count_where key rows ≡ 0
      → update_where (λ r. key r && guard r) f rows ≡ rows
  unfolding count_where update_where
  update_where-none key guard f [] zeros = refl
  update_where-none key guard f (r ∷ rows) zeros =
      ground (arith, update_where-none key guard f rows)

  -- The update of the one row that a key finds changes a count by what it changes of that row.
  pub count_where-update_one :
      (key guard p : A → Bool) (f : A → A) (r : A) (rows : List A)
      → count_where key rows ≤ 1
      → select_first key rows ≡ some r
      → guard r ≡ true
      → count_where p (update_where (λ r. key r && guard r) f rows) + (if p r then 1 else 0)
        ≡ count_where p rows + (if p (f r) then 1 else 0)
  unfolding count_where update_where select_first
  count_where-update_one key guard p f r [] single there fits = absurd (ground arith)
  count_where-update_one key guard p f r (q ∷ rows) single there fits = elim (Bool-cases (key q)) [
    | inl e ↦
        let rest : count_where key rows ≡ 0 = ground arith in
        let same : q ≡ r = ground arith in
        let fits_q : guard q ≡ true = rw same fits in
        let others = update_where-none key guard f rows rest in
        rw (← same, e, fits_q, others) (ground arith)
    | inr e ↦ ground (arith, count_where-update_one key guard p f r rows)
  ]

  -- The rows that satisfy a condition, where others are deleted and inserted.
  pub keep-delete_other :
      (p q : A → Bool)
      → ((r : A) → q r ≡ true → p r ≡ false)
      → (rows : List A) → keep q (delete_where p rows) ≡ keep q rows
  unfolding delete_where
  keep-delete_other p q apart [] = refl
  keep-delete_other p q apart (r ∷ rows) = ground (arith, apart r, keep-delete_other p q apart rows)

  pub keep-append_other :
      (q : A → Bool) (rows new : List A)
      → All (λ r. q r ≡ false) new
      → keep q (rows ++ new) ≡ keep q rows
  keep-append_other q [] [] others = refl
  keep-append_other q [] (r ∷ new) others = rw others.0 (keep-append_other q [] new others.1)
  keep-append_other q (r ∷ rows) new others = ground (arith, keep-append_other q rows new others)
