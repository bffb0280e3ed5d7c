-- ===== src/Reconcile/Sources.antt =====
-- The column `rag_source` of the ledger: `build_flow_bundle` writes the chunk_ids of the evidence into it,
-- `ReviewService._rag_sources` and `evidence_from_rag_source` take them apart again.
use Prim.Native.Char.{Char, code}
use Prim.Native.String.{◌++◌ as ◌+++◌}
use Prim.Native.String.append
use bank_reconciliation_agen.Base.{
  ◌≡◌, refl, Bool, true, false, String, Option, none, some, List, [], ◌∷◌, map, ◌==◌, str_eq,
  eq_iff, if◌then◌else◌, arith, All, Bool-cases, inl, inr,
}
use bank_reconciliation_agen.Base.Text.{strip, lstrip, is_space}
use bank_reconciliation_agen.Audit.{RagSearchItem}
use bank_reconciliation_agen.Reconcile.Batch.{join_ids, or_none}

unfoldable put_head : Char → List String → List String
put_head c [] = String.◌∷◌ c "" ∷ []
put_head c (p ∷ parts) = String.◌∷◌ c p ∷ parts

-- `s.split(",")`
unfoldable pub split_commas : String → List String
unfolding put_head
split_commas String.[] = "" ∷ []
split_commas (String.◌∷◌ c s) =
    let rest = split_commas s in if code c == 44 then "" ∷ rest else put_head c rest

-- `[part.strip() for part in parts if part.strip()]`
unfoldable pub stripped : List String → List String
unfolding strip
stripped [] = []
stripped (p ∷ parts) =
    let rest = stripped parts in if str_eq (strip p) "" then rest else strip p ∷ rest

-- The sources of `_rag_sources`.
unfoldable pub rag_sources : Option String → List String
unfolding split_commas stripped
rag_sources none = []
rag_sources (some s) = if str_eq s "" then [] else stripped (split_commas s)

-- `"," not in s`
unfoldable pub no_comma : String → Bool
no_comma String.[] = true
no_comma (String.◌∷◌ c s) = let rest = no_comma s in if code c == 44 then false else rest

-- A text without commas, without white space at its ends, and not empty.
pub record IsPlain (s : String) : Type 0 where
  pub commas : no_comma s ≡ true
  pub ends : strip s ≡ s
  pub filled : str_eq s "" ≡ false

split_commas-plain : (s : String) → no_comma s ≡ true → split_commas s ≡ s ∷ []
unfolding split_commas put_head no_comma
split_commas-plain String.[] e = refl
split_commas-plain (String.◌∷◌ c s) e = elim (Bool-cases (code c == 44)) [
  | inl k ↦ absurd (ground arith)
  | inr k ↦ rw (k, split_commas-plain s (ground arith)) refl
]

comma : (t : String) → split_commas ("," +++ t) ≡ "" ∷ split_commas t
unfolding split_commas
comma t = rw (append.cons, append.nil t) refl

comma_space : (t : String) → (", " +++ t) ≡ ("," +++ (" " +++ t))
comma_space t = rw (append.cons, append.cons, append.nil t, append.cons, append.nil) refl

split_commas-append :
    (s t : String) → no_comma s ≡ true → split_commas (s +++ ("," +++ t)) ≡ s ∷ split_commas t
unfolding split_commas put_head no_comma
split_commas-append String.[] t e = rw (append.nil ("," +++ t), comma t) refl
split_commas-append (String.◌∷◌ c s) t e = elim (Bool-cases (code c == 44)) [
  | inl k ↦ absurd (ground arith)
  | inr k ↦ rw (append.cons c s ("," +++ t), k, split_commas-append s t (ground arith)) refl
]

strip-space : (c : Char) (s : String) → is_space (code c) ≡ true → strip (String.◌∷◌ c s) ≡ strip s
unfolding strip lstrip
strip-space c s e = rw e refl

stripped-put_head :
    (c : Char)
    → is_space (code c) ≡ true
    → (parts : List String) → stripped (put_head c parts) ≡ stripped parts
unfolding stripped put_head
stripped-put_head c e [] = rw (strip-space c "" e) refl
stripped-put_head c e (p ∷ parts) = rw (strip-space c p e) refl

-- A space in front of a text changes its first part only, and that not once it is stripped.
stripped-space : (s : String) → stripped (split_commas (" " +++ s)) ≡ stripped (split_commas s)
unfolding stripped split_commas put_head is_space
stripped-space s = rw (append.cons, append.nil s) (stripped-put_head _ refl (split_commas s))

sources-plain : (s : String) → IsPlain s → stripped (split_commas s) ≡ s ∷ []
unfolding stripped
sources-plain s plain = rw (split_commas-plain s plain.commas, plain.ends, plain.filled) refl

sources-join :
    (i : RagSearchItem) (items : List RagSearchItem)
    → IsPlain i.chunk_id
    → All (λ (j : RagSearchItem). IsPlain j.chunk_id) items
    → stripped (split_commas (join_ids (i ∷ items)))
      ≡ map (λ (j : RagSearchItem). j.chunk_id) (i ∷ items)
unfolding join_ids stripped
sources-join i [] plain plains = sources-plain i.chunk_id plain
sources-join i (j ∷ items) plain plains =
    let rest = join_ids (j ∷ items) in
    rw
      (
        comma_space rest,
        split_commas-append i.chunk_id (" " +++ rest) plain.commas,
        stripped,
        plain.ends,
        plain.filled,
        stripped-space rest,
        sources-join j items plains.0 plains.1,
      )
      refl

filled-append : (s t : String) → str_eq s "" ≡ false → str_eq (s +++ t) "" ≡ false
filled-append String.[] t e = absurd (ground arith)
filled-append (String.◌∷◌ c s) t e =
    rw (append.cons c s t) (elim (Bool-cases (str_eq (String.◌∷◌ c (s +++ t)) "")) [
      | inl k ↦ absurd (cc_of ((eq_iff (String.◌∷◌ c (s +++ t)) "").0 k))
      | inr k ↦ k
    ])
  where
    cc_of : String.◌∷◌ c (s +++ t) ≡ "" → ⊥
    cc_of h = cc

filled-join :
    (i : RagSearchItem) (items : List RagSearchItem)
    → IsPlain i.chunk_id
    → str_eq (join_ids (i ∷ items)) "" ≡ false
unfolding join_ids
filled-join i [] plain = plain.filled
filled-join i (j ∷ items) plain =
    filled-append i.chunk_id (", " +++ join_ids (j ∷ items)) plain.filled

-- What the ledger keeps of the evidence is read back as it was: the sources of the column are the
-- chunk_ids in their order, where none of them is empty, contains a comma, or begins or ends with
-- white space.
pub rag_sources-join_ids :
    (items : List RagSearchItem)
    → All (λ (j : RagSearchItem). IsPlain j.chunk_id) items
    → rag_sources (or_none (join_ids items)) ≡ map (λ (j : RagSearchItem). j.chunk_id) items
unfolding rag_sources or_none join_ids
rag_sources-join_ids [] plains = refl
rag_sources-join_ids (i ∷ items) plains =
    let filled = filled-join i items plains.0 in
    rw (or_none, filled, rag_sources, filled) (sources-join i items plains.0 plains.1)
