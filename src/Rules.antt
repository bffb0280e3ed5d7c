-- ===== src/Rules.antt =====
-- services/rule_engine.py: conditions, rules, and `RuleEngine.evaluate` over the rules of a file.
-- A file's text is read by the YAML and pydantic libraries: the model begins with the list of rules
-- in the order of the file (Rules/Files.antt has the two lists of rules/*.yaml).
pub mod Files
pub mod Choice
mod Tests
use bank_reconciliation_agen.Base.{
  ℕ, Bool, true, false, not, String, Option, none, some, List, [], ◌∷◌, leb, if◌then◌else◌, all,
  str_eq,
}

-- The values that facts and conditions hold; `null` is None, which a missing fact reads as.
pub data Value : Type 0 where
  null : Value
  boolean : Bool → Value
  text : String → Value

unfoldable pub value_eq : Value → Value → Bool
value_eq null null = true
value_eq (boolean true) (boolean b) = b
value_eq (boolean false) (boolean b) = not b
value_eq (text s) (text t) = str_eq s t
value_eq _ _ = false

abbrev pub Facts : Type 0
Facts = List (String × Value)

-- `facts.get(field)`
unfoldable pub get_fact : String → Facts → Value
get_fact k [] = null
get_fact k ((j, v) ∷ facts) = if str_eq j k then v else get_fact k facts

pub data Operator : Type 0 where
  eq neq : Operator

-- `RuleCondition`
pub record RuleCondition : Type 0 where
  pub field : String
  pub operator : Operator
  pub value : Value

pub data Action : Type 0 where
  auto_fix exception : Action

-- `Rule`; the name is not read by any code.
pub record Rule : Type 0 where
  pub id : String
  pub priority : ℕ
  pub conditions : List RuleCondition
  pub action : Action
  pub error_type : Option String
  pub exception_branch : Option String

-- `RuleMatch`
pub record RuleMatch : Type 0 where
  pub rule_id : String
  pub action : Action
  pub error_type : Option String
  pub exception_branch : Option String

-- `RuleEngine._matches_condition`
unfoldable pub matches_condition : RuleCondition → Facts → Bool
unfolding value_eq get_fact
matches_condition c facts = elim c.operator [
  | eq ↦ value_eq (get_fact c.field facts) c.value
  | neq ↦ not (value_eq (get_fact c.field facts) c.value)
]

unfoldable pub matches : Rule → Facts → Bool
unfolding matches_condition
matches r facts = all (λ c. matches_condition c facts) r.conditions

-- The loop of `evaluate` up to its first return.
unfoldable pub first_match : Facts → List Rule → Option Rule
first_match facts [] = none
first_match facts (r ∷ rules) = if matches r facts then some r else first_match facts rules

abbrev pub to_match : Option Rule → RuleMatch
to_match none = record {
  rule_id = "NONE";
  action = exception;
  error_type = some "UNCLASSIFIED";
  exception_branch = none;
}
to_match (some r) = record {
  rule_id = r.id;
  action = r.action;
  error_type = r.error_type;
  exception_branch = r.exception_branch;
}

-- `sorted(rules, key=lambda rule: rule.priority)`, which keeps the order of equal keys.
unfoldable pub insert_rule : Rule → List Rule → List Rule
insert_rule r [] = r ∷ []
insert_rule r (q ∷ rules) =
    let rest = insert_rule r rules in if leb r.priority q.priority then r ∷ q ∷ rules else q ∷ rest

unfoldable pub load_rules : List Rule → List Rule
unfolding insert_rule
load_rules [] = []
load_rules (r ∷ file) = insert_rule r (load_rules file)

-- `RuleEngine(path).evaluate(facts)`, for the rules of the file at that path.
unfoldable pub evaluate : List Rule → Facts → RuleMatch
unfolding load_rules first_match matches
evaluate file facts = to_match (first_match facts (load_rules file))
