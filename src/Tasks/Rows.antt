-- ===== src/Tasks/Rows.antt =====
-- The row that a table of tasks has for one task, through the statements on it.
use bank_reconciliation_agen.Base.{◌≡◌, refl, ◌∙◌, sym, ap, Bool, true, false, String, some, List}
use bank_reconciliation_agen.Tasks.{
  TaskRow, is_task, Upload, new_row, replace_task, get_task, update_task,
}
use bank_reconciliation_agen.Tasks.Refinement.{
  IsUnique, amend, replace_task-IsChange, replace_task-get_task, update_task-IsChange,
  update_task-get_task,
}

-- The table has at most one row for each task, and for this one it has `r`.
pub record Has (user task : String) (rows : List TaskRow) (r : TaskRow) : Type 0 where
  pub unique : IsUnique rows
  pub found : get_task user task rows ≡ some r

pub Has-replace_task :
    (user task : String) (rows : List TaskRow)
    → IsUnique rows
    → (u : Upload) → Has user task (replace_task user task u rows) (new_row user task u)
Has-replace_task user task rows unique u = record {
  unique = (replace_task-IsChange user task rows unique u).unique;
  found = replace_task-get_task user task rows unique u;
}

module _ (user task : String) (rows : List TaskRow) (r : TaskRow) (has : Has user task rows r)
    (guard : TaskRow → Bool) (values : TaskRow → TaskRow)
    (same : (other that : String) (q : TaskRow)
      → is_task other that (values q) ≡ is_task other that q) where
  amended : amend guard values (some r) ≡ (
    (update_task user task guard values rows).0,
    get_task user task (update_task user task guard values rows).1,
  )
  amended =
      ap (amend guard values) (sym has.found)
      ∙ update_task-get_task user task rows has.unique guard values same

  Has-amended :
      (touched : Bool) (q : TaskRow)
      → amend guard values (some r) ≡ (touched, some q)
      → ((update_task user task guard values rows).0 ≡ touched)
        × Has user task (update_task user task guard values rows).1 q
  Has-amended touched q e =
      let changed = sym amended ∙ e in
      (
        ap (λ p. p.0) changed,
        record {
          unique = (update_task-IsChange user task rows has.unique guard values same).unique;
          found = ap (λ p. p.1) changed;
        },
      )

  pub Has-update_task :
      guard r ≡ true
      → ((update_task user task guard values rows).0 ≡ true)
        × Has user task (update_task user task guard values rows).1 (values r)
  Has-update_task fits = Has-amended true (values r) (rw fits refl)

  pub Has-kept :
      guard r ≡ false
      → ((update_task user task guard values rows).0 ≡ false)
        × Has user task (update_task user task guard values rows).1 r
  Has-kept fails = Has-amended false r (rw fails refl)
