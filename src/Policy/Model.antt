-- ===== src/Policy/Model.antt =====
-- The data of the policy engine: swx_core/models/policy.py, and the values of Python that
-- conditions compare. A policy is a record whether it comes from the table or from the registry.
use swx.Prelude.{Bool, Option, List, true, ◌≡◌}
use swx.Prelude.Int.{ℤ}
use swx.Prelude.Text.{Text}

pub data PolicyEffect : Type 0 where
  allow deny conditional_allow : PolicyEffect
  -- A system policy's definition can hold any text.
  unknown : Text → PolicyEffect

pub data ConditionOperator : Type 0 where
  equals not_equals is_in is_not_in greater_than greater_than_or_equal : ConditionOperator
  less_than less_than_or_equal contains starts_with exists not_exists : ConditionOperator

pub data PolicyDecision : Type 0 where
  allowed denied : PolicyDecision

-- What the engine uses of Python's objects. An operation that can raise a `TypeError` answers
-- `none` when it does.
pub record Python : Type 1 where
  pub Value : Type 0
  pub none_value : Value
  pub is_none : Value → Bool
  pub eq : Value → Value → Bool
  pub less : Value → Value → Option Bool
  pub less_or_equal : Value → Value → Option Bool
  -- `isinstance(value, str)` and `isinstance(value, list)`, with what the object holds.
  pub as_text : Value → Option Text
  pub as_list : Value → Option (List Value)
  -- `expected in actual` and `actual.startswith(expected)`, for a text `actual`.
  pub in_text : Value → Text → Option Bool
  pub starts_text : Text → Value → Option Bool
  -- `value.get(part)` of a dictionary, else `getattr(value, part)`, else `None`.
  pub member : Value → Text → Value
  -- The attribute of a datetime that a part of a context's path names.
  pub datetime_part : Value → Text → Option Value
  pub none_is_none : is_none none_value ≡ true

-- What a policy compares: a path, an operator's text and a value or a reference.
pub record Condition (P : Python) : Type 0 where
  pub attribute : Text
  pub operator : Text
  pub value : P.Value

pub record Policy (P : Python) : Type 0 where
  pub policy_id : Text
  pub effect : PolicyEffect
  pub action_pattern : Text
  pub resource_type : Text
  pub conditions : List (Condition P)
  pub priority : ℤ
  pub enabled : Bool

-- The actor, the resource and the context of a request, as the objects that paths start from.
pub record Subjects (P : Python) : Type 0 where
  pub actor : P.Value
  pub resource : P.Value
  pub context : P.Value

pub record ConditionResult (P : Python) : Type 0 where
  pub attribute : Text
  pub operator : Text
  pub expected : P.Value
  pub actual : P.Value
  pub result : Bool

pub record Evaluation (P : Python) : Type 0 where
  pub policy_id : Text
  pub effect : PolicyEffect
  pub conditions : List (ConditionResult P)
  pub matched : Bool

pub data Reason : Type 0 where
  no_policies_found no_allow_matched allow_matched : Reason
  explicitly_denied : Text → Reason

pub record PolicyEvaluationResult (P : Python) : Type 0 where
  pub decision : PolicyDecision
  pub policy_id : Option Text
  pub evaluations : List (Evaluation P)
  pub reason : Reason
