-- ===== src/Tasks/Tests.antt =====
-- A table with the tasks of two users.
use bank_reconciliation_agen.Base.{
  ◌≡◌, refl, true, some, List, [], ◌∷◌, arith, eq_iff, str_eq, Bool-cases, inl, inr,
}
use bank_reconciliation_agen.Base.Table.{update_where, any_row, count_where}
use bank_reconciliation_agen.Tasks.{
  queued, running, TaskRow, Upload, new_row, is_task, update_task, mark_attempt_started,
}
use bank_reconciliation_agen.Tasks.Refinement.{IsUnique, IsRefined, start, run-IsRefined}

abbrev upload : Upload
upload = record {
  scenario_type = "BANK_CLEARING";
  total_bank_rows = 3;
  total_clear_rows = 2;
  auto_fixed_rows = 1;
  pending_ai_rows = 0;
  pending_human_rows = 2;
  status = queued;
  force_requeue_count = 0;
}

abbrev table : List TaskRow
table = new_row "ann" "TASK_1" upload ∷ new_row "bob" "TASK_1" upload ∷ []

table-IsUnique : IsUnique table
unfolding count_where is_task new_row
table-IsUnique user task = elim (Bool-cases (str_eq "ann" user)) [
  | inl e ↦ rw (← (eq_iff "ann" user).0 e) (ground arith)
  | inr e ↦ rw e (ground arith)
]

started_row :
    mark_attempt_started "bob" "TASK_1" 1 table
    ≡ some (
      true,
      new_row "ann" "TASK_1" upload
          ∷ record (new_row "bob" "TASK_1" upload) { status = running; job_attempt = 1 }
          ∷ [],
    )
unfolding mark_attempt_started update_task any_row update_where is_task new_row
started_row = refl

run-IsRefined_example : IsRefined "bob" "TASK_1" (start 1) table
run-IsRefined_example = run-IsRefined "bob" "TASK_1" (start 1) table table-IsUnique
