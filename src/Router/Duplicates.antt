-- ===== src/Router/Duplicates.antt =====
-- `_duplicate_flow_ids`: the rows of one side that share amount and party.
use bank_reconciliation_agen.Base.{
  Bool, true, false, ◌&&◌, String, Option, none, some, List, [], ◌∷◌, ◌++◌, leb, str_eq,
  if◌then◌else◌, length,
}
use bank_reconciliation_agen.Amount.{Money, to_decimal, money_eq}
use bank_reconciliation_agen.Router.Rows.{Row, to_optional_string}

abbrev pub Key : Type 0
Key = Money × Option String

abbrev pub Groups : Type 0
Groups = List (Key × List String)

unfoldable pub same_text : Option String → Option String → Bool
same_text none none = true
same_text (some s) (some t) = str_eq s t
same_text _ _ = false

-- Equality of dictionary keys. Two `NaN` are two objects, so no two of them are one key.
unfoldable pub same_key : Key → Key → Bool
unfolding money_eq same_text
same_key k j = money_eq k.0 j.0 && same_text k.1 j.1

unfoldable pub key_of : String → Row → Key
unfolding to_decimal to_optional_string
key_of party_column row = (to_decimal row.amount, to_optional_string (row.cell party_column))

-- `groups.setdefault(key, []).append(flow_id)`
unfoldable pub add_to_group : Key → String → Groups → Groups
unfolding same_key
add_to_group key id [] = (key, id ∷ []) ∷ []
add_to_group key id ((k, ids) ∷ groups) =
    let rest = add_to_group key id groups in
    if same_key k key then (k, ids ++ id ∷ []) ∷ groups else (k, ids) ∷ rest

unfoldable pub group_rows : String → List Row → Groups → Groups
unfolding key_of
group_rows party_column [] groups = groups
group_rows party_column (row ∷ rows) groups =
    group_rows party_column rows (add_to_group (key_of party_column row) row.flow_id groups)

-- The set comprehension at the end.
unfoldable pub large_groups : Groups → List String
large_groups [] = []
large_groups ((k, ids) ∷ groups) =
    let rest = large_groups groups in if leb 2 (length ids) then ids ++ rest else rest

-- `_duplicate_flow_ids`
unfoldable pub duplicate_flow_ids : String → List Row → List String
unfolding group_rows large_groups
duplicate_flow_ids party_column rows = large_groups (group_rows party_column rows [])
