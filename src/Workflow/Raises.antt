-- ===== src/Workflow/Raises.antt =====
-- When the post hooks raise.
use bank_reconciliation_agen.Base.{Bool, false, ◌≡◌, ◌≢◌, refl, Option, none, some, List, String}
use bank_reconciliation_agen.Amount.{Money, nan, cents}
use bank_reconciliation_agen.Audit.{AuditDecision}
use bank_reconciliation_agen.Audit.Hooks.{constraint_hook, is_large}
use bank_reconciliation_agen.Workflow.States.{State, Run, finished, raised, unless}
use bank_reconciliation_agen.Workflow.Audits.{best_score, conclude, apply_post_hooks}

-- A run that returns a state.
abbrev pub Returns : Run → Type 0
Returns (finished s) = Unit
Returns raised = ⊥

pub unless-Returns : (b : Bool) (r : Run) → b ≡ false → Returns r → Returns (unless b r)
unfolding unless
unless-Returns b r e h = rw e h

pub state_of : (r : Run) → Returns r → (s : State) × (r ≡ finished s)
state_of (finished s) h = (s, refl)
state_of raised h = absurd h

constraint_hook-some :
    (diff : Option Money) (best : Option _) (d : AuditDecision)
    → diff ≢ some nan
    → (names : List String) × (constraint_hook diff best d ≡ some names)
unfolding constraint_hook is_large
constraint_hook-some none best d number = (_, refl)
constraint_hook-some (some nan) best d number = absurd (number refl)
constraint_hook-some (some (cents a)) best d number = (_, refl)

apply_post_hooks-Returns :
    (d : AuditDecision) (s : State) → s.amount_diff ≢ some nan → Returns (apply_post_hooks d s)
unfolding apply_post_hooks
apply_post_hooks-Returns d s number =
    let (names, e) = constraint_hook-some s.amount_diff (best_score s.rag_context) d number in
    rw (e, Returns) tt

pub conclude-Returns :
    (path : String) (d : AuditDecision) (s : State)
    → s.amount_diff ≢ some nan
    → Returns (conclude path d s)
unfolding conclude
conclude-Returns path d s number =
    apply_post_hooks-Returns d (record s { fallback_path = some path }) number
