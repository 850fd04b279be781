-- ===== src/Policy/Conditions.antt =====
-- The conditions of a policy: `_get_attribute_value`, `_resolve_value`, `_evaluate_condition` and
-- `_evaluate_conditions` of swx_core/services/policy/policy_engine.py, and `get_attribute` of
-- actor.py, resource.py and context.py. `none` is an exception that a comparison raises.
use swx.Prelude.{
  ℕ, ◌≡◌, refl, arith, Bool, true, false, not, ◌||◌, ◌&&◌, Option, none, some, List, [], ◌∷◌, any,
  if◌then◌else◌, ◌==◌, nat_eq,
}
use mathlib.Core.Option
use swx.Prelude.Dict.{lookup}
use swx.Prelude.Text.{Text, codes, text_eq, starts_with, drop}
use swx.Policy.Model.{ConditionOperator, Python, Condition, ConditionResult, Subjects}

-- `path.split(".")`
abbrev push : ℕ → List Text → List Text
push c [] = (c ∷ []) ∷ []
push c (part ∷ parts) = (c ∷ part) ∷ parts

abbrev pub split_dots : Text → List Text
split_dots [] = [] ∷ []
split_dots (c ∷ s) = let parts = split_dots s in if c == b'.' then [] ∷ parts else push c parts

-- `ConditionOperator(operator)`
abbrev operators : List (Text × ConditionOperator)
operators =
    (codes "eq", ConditionOperator.equals)
    ∷ (codes "ne", ConditionOperator.not_equals)
    ∷ (codes "in", ConditionOperator.is_in)
    ∷ (codes "not_in", ConditionOperator.is_not_in)
    ∷ (codes "gt", ConditionOperator.greater_than)
    ∷ (codes "gte", ConditionOperator.greater_than_or_equal)
    ∷ (codes "lt", ConditionOperator.less_than)
    ∷ (codes "lte", ConditionOperator.less_than_or_equal)
    ∷ (codes "contains", ConditionOperator.contains)
    ∷ (codes "starts_with", ConditionOperator.starts_with)
    ∷ (codes "exists", ConditionOperator.exists)
    ∷ (codes "not_exists", ConditionOperator.not_exists)
    ∷ []

unfoldable pub parse_operator : Text → Option ConditionOperator
parse_operator text = lookup text operators

abbrev is_existence : ConditionOperator → Bool
is_existence ConditionOperator.exists = true
is_existence ConditionOperator.not_exists = true
is_existence _ = false

module _ (P : Python) where
  open P use {
    Value, none_value, is_none, eq, less, less_or_equal, as_text, as_list, in_text, starts_text,
    member, datetime_part,
  }

  -- `Actor.get_attribute` and `Resource.get_attribute`, from the parts of the path.
  unfoldable pub get_attribute : Value → List Text → Value
  get_attribute value [] = value
  get_attribute value (part ∷ parts) =
      let next = member value part in
      let rest = get_attribute next parts in if is_none next then none_value else rest

  -- `PolicyContext.get_attribute`
  unfoldable pub get_context_attribute : Value → List Text → Value
  get_context_attribute value [] = value
  get_context_attribute value (part ∷ parts) =
      let next = member value part in
      let rest = get_context_attribute next parts in
      if is_none next
      then none_value
      else elim (datetime_part next part) [ none ↦ rest | some v ↦ v ]

  unfoldable pub get_attribute_value : Subjects P → Text → Value
  unfolding get_attribute get_context_attribute
  get_attribute_value s path =
      if starts_with path (codes "actor.")
      then get_attribute s.actor (split_dots (drop 6 path))
      else if starts_with path (codes "resource.")
      then get_attribute s.resource (split_dots (drop 9 path))
      else if starts_with path (codes "context.")
      then get_context_attribute s.context (split_dots (drop 8 path))
      else none_value

  abbrev is_reference : Text → Bool
  is_reference path =
      starts_with path (codes "actor.")
      || (starts_with path (codes "resource.") || starts_with path (codes "context."))

  abbrev resolve_text : Subjects P → Value → Option Text → Value
  resolve_text s value none = value
  resolve_text s value (some path) = if is_reference path then get_attribute_value s path else value

  unfoldable pub resolve_value : Subjects P → Value → Value
  resolve_value s value = resolve_text s value (as_text value)

  -- `actual in expected`, of a list.
  abbrev pub in_list : Value → List Value → Bool
  in_list actual = any (eq actual)

  abbrev pub contained : Value → Value → Option (List Value) → Option Text → Option Bool
  contained actual expected (some items) text = some (in_list expected items)
  contained actual expected none (some text) = in_text expected text
  contained actual expected none none = some false

  abbrev pub begins : Value → Option Text → Option Bool
  begins expected none = some false
  begins expected (some text) = starts_text text expected

  -- The comparison of an operator that is known, of a value that is not missing.
  unfoldable pub compare_by : ConditionOperator → Value → Value → Option Bool
  compare_by ConditionOperator.equals actual expected = some (eq actual expected)
  compare_by ConditionOperator.not_equals actual expected = some (not (eq actual expected))
  compare_by ConditionOperator.is_in actual expected =
      some (elim (as_list expected) [ none ↦ false | some items ↦ in_list actual items ])
  compare_by ConditionOperator.is_not_in actual expected =
      some (elim (as_list expected) [ none ↦ false | some items ↦ not (in_list actual items) ])
  compare_by ConditionOperator.greater_than actual expected = less expected actual
  compare_by ConditionOperator.greater_than_or_equal actual expected = less_or_equal expected actual
  compare_by ConditionOperator.less_than actual expected = less actual expected
  compare_by ConditionOperator.less_than_or_equal actual expected = less_or_equal actual expected
  compare_by ConditionOperator.contains actual expected =
      contained actual expected (as_list actual) (as_text actual)
  compare_by ConditionOperator.starts_with actual expected = begins expected (as_text actual)
  compare_by ConditionOperator.exists actual expected = some (not (is_none actual))
  compare_by ConditionOperator.not_exists actual expected = some (is_none actual)

  abbrev pub compare_known : Option ConditionOperator → Value → Value → Option Bool
  compare_known none actual expected = some false
  compare_known (some op) actual expected =
      if is_none actual && not (is_existence op) then some false else compare_by op actual expected

  unfoldable pub evaluate_condition : Value → Text → Value → Option Bool
  unfolding parse_operator compare_by
  evaluate_condition actual operator expected =
      compare_known (parse_operator operator) actual expected

  abbrev pub judged : Subjects P → Condition P → Bool → ConditionResult P
  judged s c result = record {
    attribute = c.attribute;
    operator = c.operator;
    expected = resolve_value s c.value;
    actual = get_attribute_value s c.attribute;
    result = result;
  }

  unfoldable pub evaluate_conditions :
      Subjects P → List (Condition P) → Option (List (ConditionResult P))
  evaluate_conditions s [] = some []
  evaluate_conditions s (c ∷ cs) =
      let rest = evaluate_conditions s cs in
      elim (evaluate_condition (get_attribute_value s c.attribute) c.operator
        (resolve_value s c.value)) [
          | none ↦ none
          | some result ↦ Option.map (λ results. judged s c result ∷ results) rest
        ]

  -- A missing attribute fails closed: whatever the operator, known or not, and the value that the
  -- policy expects, the only condition that a missing attribute meets is `not_exists`.
  pub evaluate_condition-missing :
      (actual : Value) (operator : Text) (expected : Value)
      → is_none actual ≡ true
      → evaluate_condition actual operator expected ≡ some true
      → parse_operator operator ≡ some ConditionOperator.not_exists
  unfolding evaluate_condition
  evaluate_condition-missing actual operator expected missing h =
      missing_cases (parse_operator operator) h
    where
      missing_cases :
          (op : Option ConditionOperator)
          → compare_known op actual expected ≡ some true
          → op ≡ some ConditionOperator.not_exists
      missing_cases none h = cc
      missing_cases (some ConditionOperator.not_exists) h = refl
      missing_cases (some ConditionOperator.exists) h = ground arith
      missing_cases (some op) h = absurd (ground arith)
