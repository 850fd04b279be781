-- ===== src/Policy/Tests.antt =====
-- The policy engine at concrete policies, over a small universe of Python objects.
use mathlib.Core.Option
use swx.Prelude.{
  ◌≡◌, refl, Bool, true, false, Option, none, some, List, [], ◌∷◌, if◌then◌else◌, ◌==◌, any, not,
}
use swx.Prelude.Int.{pos, negsuc}
use swx.Prelude.Text.{Text, codes, text_beq, text_eq}
use swx.Policy.Model.{
  PolicyEffect, ConditionOperator, allowed, denied, Python, Policy, Subjects,
  PolicyEvaluationResult,
}
use swx.Policy.Actions.{Matches, matches_action, matches_action_iff}
use swx.Policy.Conditions.{
  evaluate_condition, evaluate_conditions, get_attribute_value, resolve_value, parse_operator,
  evaluate_condition-missing,
}
use swx.Policy.Engine.{evaluate, find_policies, nothing_found}
use swx.Policy.Decision.{evaluate_decides, denies, grants}
use swx.Policy.Registry.{
  Registry, register, registered, get_by_resource_type, get_by_resource_type_stale,
}

data Thing : Type 0 where
  nothing : Thing
  flag : Bool → Thing
  text : Text → Thing
  user : Bool → Text → Thing

abbrev thing_eq : Thing → Thing → Bool
thing_eq (flag a) (flag b) = if a then b else not b
thing_eq (text a) (text b) = text_beq a b
thing_eq nothing nothing = true
thing_eq _ _ = false

abbrev thing_member : Thing → Text → Thing
thing_member (user superuser team) part =
    if part == codes "is_superuser"
    then flag superuser
    else if part == codes "team_id"
    then text team
    else nothing
thing_member _ part = nothing

abbrev thing_text : Thing → Option Text
thing_text (text t) = some t
thing_text _ = none

abbrev is_nothing : Thing → Bool
is_nothing nothing = true
is_nothing _ = false

abbrev objects : Python
objects = record {
  Value = Thing;
  none_value = nothing;
  is_none = is_nothing;
  eq = thing_eq;
  less = λ a b. none;
  less_or_equal = λ a b. none;
  as_text = thing_text;
  as_list = λ a. none;
  in_text = λ a t. none;
  starts_text = λ t a. none;
  member = thing_member;
  datetime_part = λ a part. none;
  none_is_none = refl;
}

abbrev bypass : Policy objects
bypass = record {
  policy_id = codes "superuser.bypass";
  effect = PolicyEffect.allow;
  action_pattern = codes "*";
  resource_type = codes "*";
  conditions =
      record { attribute = codes "actor.is_superuser"; operator = codes "eq"; value = flag true }
      ∷ [];
  priority = pos 1000;
  enabled = true;
}

abbrev same_team : Policy objects
same_team = record {
  policy_id = codes "team.foreign";
  effect = PolicyEffect.deny;
  action_pattern = codes "team:*";
  resource_type = codes "team";
  conditions =
      record {
        attribute = codes "actor.team_id";
        operator = codes "ne";
        value = text (codes "resource.team_id");
      }
      ∷ [];
  priority = negsuc 0;
  enabled = true;
}

abbrev asking : Text → Subjects objects
asking team = record {
  actor = user true (codes "a");
  resource = user false team;
  context = nothing;
}

matches_action_iff_example : Matches (codes "team:update") (codes "team:*")
unfolding matches_action
matches_action_iff_example = (matches_action_iff (codes "team:update") (codes "team:*")).0 refl

-- A superuser of another team: the denial has the lowest priority and wins.
evaluate_denied :
    Option.map
      (λ r. r.decision)
      (evaluate objects
        (bypass ∷ [])
        (same_team ∷ [])
        (asking (codes "b"))
        (codes "team:update")
        (codes "team"))
    ≡ some denied
unfolding evaluate evaluate_conditions evaluate_condition get_attribute_value resolve_value
    matches_action
evaluate_denied = refl

abbrev unwrap : Option (PolicyEvaluationResult objects) → PolicyEvaluationResult objects
unwrap none = nothing_found objects
unwrap (some r) = r

-- What the request above is answered.
abbrev refused : PolicyEvaluationResult objects
refused = unwrap (
    evaluate objects (bypass ∷ []) (same_team ∷ []) (asking (codes "b")) (codes "team:update")
      (codes "team"))

abbrev found_here : List (Policy objects)
found_here =
    find_policies objects (bypass ∷ []) (same_team ∷ []) (codes "team:update") (codes "team")

evaluate_decides_example : refused.decision ≡ (
    if any (denies objects (asking (codes "b")) (codes "team:update")) found_here
    then denied
    else if any (grants objects (asking (codes "b")) (codes "team:update")) found_here
    then allowed
    else denied)
unfolding evaluate evaluate_conditions evaluate_condition get_attribute_value resolve_value
    matches_action
evaluate_decides_example =
    evaluate_decides objects (asking (codes "b")) (codes "team:update") (bypass ∷ [])
      (same_team ∷ []) (codes "team") refl

evaluate_condition-missing_example :
    parse_operator (codes "not_exists") ≡ some ConditionOperator.not_exists
unfolding evaluate_condition
evaluate_condition-missing_example =
    evaluate_condition-missing objects nothing (codes "not_exists") (flag true) refl refl

abbrev empty_registry : Registry objects
empty_registry = record { policies = []; action_index = []; resource_index = [] }

abbrev moved : Policy objects
moved = record same_team { resource_type = [] }

abbrev once : Registry objects
once = registered objects same_team empty_registry

get_by_resource_type_stale_example :
    any
      (λ x. x.resource_type == [])
      (get_by_resource_type objects (registered objects moved once) (codes "team"))
    ≡ true
unfolding register
get_by_resource_type_stale_example =
    get_by_resource_type_stale objects same_team moved empty_registry once
      (registered objects moved once) refl (λ e. cc) refl refl
