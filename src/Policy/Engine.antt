-- ===== src/Policy/Engine.antt =====
-- `PolicyEngine.evaluate` and `_find_policies` of swx_core/services/policy/policy_engine.py. The
-- table of policies and the registered definitions are arguments; `none` is an exception.
use swx.Prelude.{
  Bool, true, false, ◌&&◌, ◌||◌, Option, none, some, List, [], ◌∷◌, ◌++◌, all, filter, map,
  if◌then◌else◌, ◌==◌,
}
use swx.Prelude.Int.{ltb_ℤ}
use swx.Prelude.Text.{Text, text_eq}
use swx.Policy.Model.{
  PolicyEffect, allowed, denied, Python, Policy, Subjects, ConditionResult, Evaluation, Reason,
  PolicyEvaluationResult,
}
use swx.Policy.Actions.{matches_action, star}
use swx.Policy.Conditions.{evaluate_conditions}

abbrev pub is_deny : PolicyEffect → Bool
is_deny PolicyEffect.deny = true
is_deny _ = false

abbrev pub is_allow : PolicyEffect → Bool
is_allow PolicyEffect.allow = true
is_allow PolicyEffect.conditional_allow = true
is_allow _ = false

module _ (P : Python) where
  -- `policies.sort(key=lambda p: p.priority, reverse=True)`: stable, the highest priority first.
  abbrev pub insert_policy : Policy P → List (Policy P) → List (Policy P)
  insert_policy p [] = p ∷ []
  insert_policy p (q ∷ qs) =
      if ltb_ℤ p.priority q.priority then q ∷ insert_policy p qs else p ∷ q ∷ qs

  unfoldable pub sort_policies : List (Policy P) → List (Policy P)
  sort_policies [] = []
  sort_policies (p ∷ ps) = insert_policy p (sort_policies ps)

  abbrev pub concerns : Text → Text → Bool
  concerns resource_type type = type == resource_type || type == star

  -- A system policy is always enabled.
  abbrev pub system_policy : Policy P → Policy P
  system_policy p = record p { enabled = true }

  unfoldable pub find_policies : List (Policy P) → List (Policy P) → Text → Text → List (Policy P)
  find_policies registered table action resource_type =
      map system_policy (
        filter
          (λ p. concerns resource_type p.resource_type && matches_action action p.action_pattern)
          registered)
      ++ filter (λ p. matches_action action p.action_pattern)
          (filter (λ p. concerns resource_type p.resource_type && p.enabled) table)

  abbrev pub passed : List (ConditionResult P) → Bool
  passed = all (λ r. r.result)

  abbrev pub evaluation_of : Policy P → List (ConditionResult P) → Evaluation P
  evaluation_of p results = record {
    policy_id = p.policy_id;
    effect = p.effect;
    conditions = results;
    matched = passed results;
  }

  abbrev pub explicit_denial : Policy P → List (Evaluation P) → PolicyEvaluationResult P
  explicit_denial p evaluations = record {
    decision = denied;
    policy_id = some p.policy_id;
    evaluations = evaluations;
    reason = Reason.explicitly_denied p.policy_id;
  }

  abbrev pub final_decision : Bool → List (Evaluation P) → PolicyEvaluationResult P
  final_decision true evaluations = record {
    decision = allowed;
    policy_id = none;
    evaluations = evaluations;
    reason = Reason.allow_matched;
  }
  final_decision false evaluations = record {
    decision = denied;
    policy_id = none;
    evaluations = evaluations;
    reason = Reason.no_allow_matched;
  }

  -- The policy is enabled and its pattern fits.
  abbrev pub applies : Text → Policy P → Bool
  applies action p = p.enabled && matches_action action p.action_pattern

  -- The loop over the sorted policies, with `evaluations` and `allow_policy_matched`.
  unfoldable pub evaluate_each :
      Subjects P
      → Text
      → List (Policy P)
      → List (Evaluation P)
      → Bool
      → Option (PolicyEvaluationResult P)
  evaluate_each s action [] evaluations allow = some (final_decision allow evaluations)
  evaluate_each s action (p ∷ ps) evaluations allow = elim (applies action p) [
    | false ↦ evaluate_each s action ps evaluations allow
    | true ↦ elim (evaluate_conditions P s p.conditions) [
      | none ↦ none
      | some results ↦
          let evaluations' = evaluations ++ evaluation_of p results ∷ [] in
          elim (is_deny p.effect && passed results) [
            | true ↦ some (explicit_denial p evaluations')
            | false ↦
                evaluate_each s action ps evaluations'
                  (allow || (is_allow p.effect && passed results))
          ]
    ]
  ]

  abbrev pub nothing_found : PolicyEvaluationResult P
  nothing_found = record {
    decision = denied;
    policy_id = none;
    evaluations = [];
    reason = Reason.no_policies_found;
  }

  abbrev pub evaluate_found :
      Subjects P → Text → List (Policy P) → Option (PolicyEvaluationResult P)
  evaluate_found s action [] = some nothing_found
  evaluate_found s action (p ∷ ps) = evaluate_each s action (sort_policies (p ∷ ps)) [] false

  unfoldable pub evaluate :
      List (Policy P)
      → List (Policy P)
      → Subjects P
      → Text
      → Text
      → Option (PolicyEvaluationResult P)
  unfolding find_policies evaluate_each sort_policies
  evaluate registered table s action resource_type =
      evaluate_found s action (find_policies registered table action resource_type)
