-- ===== src/Base/Pages.antt =====
-- `offset((page - 1) * page_size).limit(page_size)` on the rows of a statement.
use Prim.Native.Nat.{ℕ, zero, suc, ◌+◌, ◌-◌, ◌*◌, ◌≤◌}
use mathlib.Core.Path.{◌≡◌, refl, ap, ◌∙◌}
use mathlib.Core.List.{List, [], ◌∷◌, ◌++◌}
use native.Mathlib.Omega.{arith}
use bank_reconciliation_agen.Base.Lists.{take, length}

module _ {ℓ} {A : Type ℓ} where
  -- `xs[n:]`
  abbrev pub drop : ℕ → List A → List A
  drop n [] = []
  drop zero (x ∷ xs) = x ∷ xs
  drop (suc n) (x ∷ xs) = drop n xs

  -- Pages count from 1.
  unfoldable pub page_of : ℕ → ℕ → List A → List A
  page_of page page_size rows = take page_size (drop ((page - 1) * page_size) rows)

  -- The first `n` pages behind one another.
  unfoldable pub pages_upto : ℕ → ℕ → List A → List A
  unfolding page_of
  pages_upto zero page_size rows = []
  pages_upto (suc n) page_size rows = pages_upto n page_size rows ++ page_of (suc n) page_size rows

  take-add : (m n : ℕ) (xs : List A) → take m xs ++ take n (drop m xs) ≡ take (m + n) xs
  take-add m n [] = refl
  take-add zero n (x ∷ xs) = let e : 0 + n ≡ n = omega arith in rw e refl
  take-add (suc m) n (x ∷ xs) =
      let e : suc m + n ≡ suc (m + n) = omega arith in rw e (ap (λ ys. x ∷ ys) (take-add m n xs))

  take-all : (n : ℕ) (xs : List A) → length xs ≤ n → take n xs ≡ xs
  take-all n [] h = refl
  take-all zero (x ∷ xs) h = absurd (omega arith)
  take-all (suc n) (x ∷ xs) h = ap (λ ys. x ∷ ys) (take-all n xs (omega arith))

  pages_upto-take : (n size : ℕ) (rows : List A) → pages_upto n size rows ≡ take (n * size) rows
  unfolding pages_upto
  pages_upto-take zero size [] = refl
  pages_upto-take zero size (x ∷ rows) = let e : 0 * size ≡ 0 = omega arith in rw e refl
  pages_upto-take (suc n) size rows =
      let less : suc n - 1 ≡ n = omega arith in
      let sum : n * size + size ≡ suc n * size = grind arith in
      rw (less, pages_upto-take n size rows)
        (take-add (n * size) size rows ∙ ap (λ k. take k rows) sum)

  -- Enough pages behind one another are all the rows, each once and in order.
  pub pages_upto-all :
      (n size : ℕ) (rows : List A) → length rows ≤ n * size → pages_upto n size rows ≡ rows
  pages_upto-all n size rows h = pages_upto-take n size rows ∙ take-all (n * size) rows h
