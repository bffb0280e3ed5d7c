-- ===== src/Trace/Frames.antt =====
-- What `validate_trace_snapshot` reads of a span, and the invariant of a recorder's spans in these terms.
use mathlib.Core.List.{map-append}
use bank_reconciliation_agen.Base.{
  ℕ, suc, ◌+◌, ◌≡◌, refl, Bool, true, false, String, Option, none, some, List, [], ◌∷◌, ◌++◌, map,
  str_eq, eq_iff, any, All, All-append, All-map, length, length-map, if◌then◌else◌, Bool-cases, inl,
  inr, arith,
}
use bank_reconciliation_agen.Base.Table.{update_where}
use bank_reconciliation_agen.Trace.{SpanType, is_workflow, is_last}
use bank_reconciliation_agen.Trace.Snapshot.{counts_from}
use bank_reconciliation_agen.Trace.Builder.{SpanBuilder}
use bank_reconciliation_agen.Trace.Recorder.{TraceRecorder, current_parent_id}

pub record Frame : Type 0 where
  pub trace_id : String
  pub span_id : String
  pub parent_span_id : Option String
  pub user_id : String
  pub task_id : String
  pub flow_id : String
  pub sequence_no : ℕ
  pub span_type : SpanType

abbrev pub frame : SpanBuilder → Frame
frame b = record {
  trace_id = b.fields.trace_id;
  span_id = b.fields.span_id;
  parent_span_id = b.fields.parent_span_id;
  user_id = b.fields.user_id;
  task_id = b.fields.task_id;
  flow_id = b.fields.flow_id;
  sequence_no = b.fields.sequence_no;
  span_type = b.fields.span_type;
}

abbrev pub numbers : List Frame → List ℕ
numbers fs = map (λ f. f.sequence_no) fs

abbrev pub has_id : List Frame → String → Bool
has_id fs p = any (λ f. str_eq f.span_id p) fs

abbrev pub HasParent : List Frame → Option String → Type 0
HasParent fs none = Unit
HasParent fs (some p) = has_id fs p ≡ true

abbrev pub is_one : Bool → ℕ
is_one b = if b then 1 else 0

abbrev pub terminals : List Frame → ℕ
terminals [] = 0
terminals (f ∷ fs) = is_one (is_last f.span_type) + terminals fs

-- The first span is the root, and no other one is.
abbrev pub IsRooted : List Frame → Type 0
IsRooted [] = ⊥
IsRooted (f ∷ fs) =
    (is_workflow f.span_type ≡ true)
    × (f.parent_span_id ≡ none)
    × All (λ g. is_workflow g.span_type ≡ false) fs

-- The identity that a recorder gives to its spans.
pub record Owner : Type 0 where
  pub trace_id : String
  pub user_id : String
  pub task_id : String
  pub flow_id : String

abbrev pub owner : TraceRecorder → Owner
owner r = record {
  trace_id = r.trace_id;
  user_id = r.user_id;
  task_id = r.task_id;
  flow_id = r.flow_id;
}

pub record IsOf (r : Owner) (f : Frame) : Type 0 where
  pub trace : f.trace_id ≡ r.trace_id
  pub user : f.user_id ≡ r.user_id
  pub task : f.task_id ≡ r.task_id
  pub flow : f.flow_id ≡ r.flow_id

-- `k` of the spans are terminal ones, and `stack` is of ids of spans.
pub record IsFitting (r : Owner) (k : ℕ) (stack : List String) (fs : List Frame) : Type 0 where
  pub rooted : IsRooted fs
  pub numbered : counts_from 1 (numbers fs) ≡ true
  pub parents : All (λ f. HasParent fs f.parent_span_id) fs
  pub stacked : All (λ p. has_id fs p ≡ true) stack
  pub owned : All (IsOf r) fs
  pub ended : terminals fs ≡ k

any-append {ℓ} :
    {A : Type ℓ} (p : A → Bool) (xs ys : List A) → any p xs ≡ true → any p (xs ++ ys) ≡ true
any-append p [] ys e = cc
any-append p (x ∷ xs) ys e = elim (Bool-cases (p x)) [
  | inl y ↦ rw y refl
  | inr n ↦ rw n (any-append p xs ys (rw n at e))
]

any-last {ℓ} :
    {A : Type ℓ} (p : A → Bool) (xs : List A) (y : A) → p y ≡ true → any p (xs ++ y ∷ []) ≡ true
any-last p [] y e = rw e refl
any-last p (x ∷ xs) y e = elim (Bool-cases (p x)) [
  | inl t ↦ rw t refl
  | inr n ↦ rw n (any-last p xs y e)
]

counts_from-append :
    (n : ℕ) (ks : List ℕ) (m : ℕ)
    → m ≡ n + length ks
    → counts_from n ks ≡ true
    → counts_from n (ks ++ m ∷ []) ≡ true
unfolding counts_from
counts_from-append n [] m e h = ground arith
counts_from-append n (k ∷ ks) m e h =
    ground (arith, counts_from-append (suc n) ks m (omega (arith, e)))

terminals-append :
    (fs : List Frame) (f : Frame)
    → terminals (fs ++ f ∷ []) ≡ terminals fs + is_one (is_last f.span_type)
terminals-append [] f = omega arith
terminals-append (g ∷ fs) f = omega (arith, terminals-append fs f)

IsRooted-append :
    (fs : List Frame) (f : Frame)
    → is_workflow f.span_type ≡ false
    → IsRooted fs
    → IsRooted (fs ++ f ∷ [])
IsRooted-append [] f e h = absurd h
IsRooted-append (g ∷ fs) f e h =
    (h.0, h.1, All-append (λ g. is_workflow g.span_type ≡ false) fs (f ∷ []) h.2 (e, tt))

HasParent-append :
    (fs gs : List Frame) (p : Option String) → HasParent fs p → HasParent (fs ++ gs) p
HasParent-append fs gs none h = tt
HasParent-append fs gs (some p) h = any-append (λ f. str_eq f.span_id p) fs gs h

current_parent-HasParent :
    (fs : List Frame) (stack : List String)
    → All (λ p. has_id fs p ≡ true) stack
    → HasParent fs (current_parent_id stack)
current_parent-HasParent fs [] h = tt
current_parent-HasParent fs (p ∷ stack) h = h.0

-- A new span behind the others, whose parent is the innermost open one.
pub IsFitting-append :
    (r : Owner) (k : ℕ) (stack : List String) (fs : List Frame) (f : Frame)
    → is_workflow f.span_type ≡ false
    → f.sequence_no ≡ suc (length fs)
    → f.parent_span_id ≡ current_parent_id stack
    → IsOf r f
    → IsFitting r k stack fs
    → IsFitting r (k + is_one (is_last f.span_type)) stack (fs ++ f ∷ [])
IsFitting-append r k stack fs f inner next parent of h = record {
  rooted = IsRooted-append fs f inner h.rooted;
  numbered = rw (map-append (λ (f : Frame). f.sequence_no) fs (f ∷ [])) (
      counts_from-append 1 (numbers fs) f.sequence_no
        (omega (arith, next, length-map (λ (f : Frame). f.sequence_no) fs)) h.numbered);
  parents =
      All-append (λ g. HasParent (fs ++ f ∷ []) g.parent_span_id) fs (f ∷ [])
        (All-map _ _ (λ g. HasParent-append fs (f ∷ []) g.parent_span_id) fs h.parents)
        (
          HasParent-append fs (f ∷ []) f.parent_span_id
              (rw parent (current_parent-HasParent fs stack h.stacked)),
          tt,
        );
  stacked = All-map _ _ (λ p. any-append (λ g. str_eq g.span_id p) fs (f ∷ [])) stack h.stacked;
  owned = All-append (IsOf r) fs (f ∷ []) h.owned (of, tt);
  ended = omega (arith, terminals-append fs f, h.ended);
}

-- An open span's id joins the stack once its span is there.
pub IsFitting-push :
    (r : Owner) (k : ℕ) (stack : List String) (fs : List Frame) (f : Frame)
    → IsFitting r k stack (fs ++ f ∷ [])
    → IsFitting r k (f.span_id ∷ stack) (fs ++ f ∷ [])
IsFitting-push r k stack fs f h = record {
  rooted = h.rooted;
  numbered = h.numbered;
  parents = h.parents;
  stacked = (any-last (λ g. str_eq g.span_id f.span_id) fs f ((eq_iff _ _).1 refl), h.stacked);
  owned = h.owned;
  ended = h.ended;
}

-- An update that keeps what the frames hold.
pub update_where-frames :
    (p : SpanBuilder → Bool) (f : SpanBuilder → SpanBuilder)
    → ((b : SpanBuilder) → frame (f b) ≡ frame b)
    → (bs : List SpanBuilder) → map frame (update_where p f bs) ≡ map frame bs
unfolding update_where
update_where-frames p f e [] = refl
update_where-frames p f e (b ∷ bs) = elim (Bool-cases (p b)) [
  | inl y ↦ rw (y, e b, update_where-frames p f e bs) refl
  | inr n ↦ rw (n, update_where-frames p f e bs) refl
]
