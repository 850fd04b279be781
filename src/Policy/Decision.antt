-- ===== src/Policy/Decision.antt =====
-- The decision of `PolicyEngine.evaluate` (swx_core/services/policy/policy_engine.py) does not
-- depend on priorities: a denial that fires wins, and without one an allowance has to fire.
use swx.Prelude.{
  ◌≡◌, refl, ap, sym, ◌∙◌, arith, Bool, true, false, ◌&&◌, ◌||◌, Option, none, some, List, [], ◌∷◌,
  ◌++◌, any, if◌then◌else◌, Bool-cases, Option-cases, inl, inr,
}
use mathlib.Core.Option.{some-injective}
use swx.Prelude.Text.{Text}
use swx.Policy.Model.{
  PolicyDecision, allowed, denied, Python, Policy, Subjects, ConditionResult, Evaluation,
  PolicyEvaluationResult,
}
use swx.Policy.Conditions.{evaluate_conditions}
use swx.Policy.Engine.{
  is_deny, is_allow, insert_policy, sort_policies, find_policies, passed, evaluation_of, applies,
  evaluate_each, evaluate, evaluate_found,
}

module _ (P : Python) (s : Subjects P) (action : Text) where
  abbrev all_passed : Option (List (ConditionResult P)) → Bool
  all_passed none = false
  all_passed (some results) = passed P results

  -- An enabled policy whose pattern fits the action and whose conditions all hold.
  abbrev pub fires : Policy P → Bool
  fires p = applies P action p && all_passed (evaluate_conditions P s p.conditions)

  abbrev pub denies : Policy P → Bool
  denies p = fires p && is_deny p.effect

  abbrev pub grants : Policy P → Bool
  grants p = fires p && is_allow p.effect

  -- The decision without any order: one denial that fires, or one allowance and no such denial.
  abbrev pub decide : Bool → List (Policy P) → PolicyDecision
  decide allow ps =
      if any denies ps then denied else if allow || any grants ps then allowed else denied

  evaluate_each-decide :
      (ps : List (Policy P)) (evaluations : List (Evaluation P)) (allow : Bool)
      {r : PolicyEvaluationResult P}
      → evaluate_each P s action ps evaluations allow ≡ some r
      → r.decision ≡ decide allow ps
  unfolding evaluate_each
  evaluate_each-decide [] evaluations true h = λ i. (sym (some-injective _ _ h) i).decision
  evaluate_each-decide [] evaluations false h = λ i. (sym (some-injective _ _ h) i).decision
  evaluate_each-decide (p ∷ ps) evaluations allow h = elim (Bool-cases (applies P action p)) [
    | inl on ↦ elim (Option-cases (evaluate_conditions P s p.conditions)) [
      | inl raised ↦ absurd (cc (rw (on, raised, evaluate_each) at h))
      | inr (results, e) ↦ elim (Bool-cases (is_deny p.effect && passed P results)) [
        | inl fired ↦
            ground (arith, on, e, fired, some-injective _ _ (rw (on, e, fired, evaluate_each) at h))
        | inr quiet ↦ ground (
          arith,
          on,
          e,
          quiet,
          evaluate_each-decide ps (evaluations ++ evaluation_of P p results ∷ [])
              (allow || (is_allow p.effect && passed P results))
              (rw (on, e, quiet, evaluate_each) at h),
        )
      ]
    ]
    | inr off ↦ rw off (evaluate_each-decide ps evaluations allow (rw (off, evaluate_each) at h))
  ]

  any-insert_policy :
      (test : Policy P → Bool) (p : Policy P) (qs : List (Policy P))
      → any test (insert_policy P p qs) ≡ (test p || any test qs)
  any-insert_policy test p [] = refl
  any-insert_policy test p (q ∷ qs) = ground (arith, any-insert_policy test p qs)

  any-sort_policies :
      (test : Policy P → Bool) (ps : List (Policy P)) → any test (sort_policies P ps) ≡ any test ps
  unfolding sort_policies
  any-sort_policies test [] = refl
  any-sort_policies test (p ∷ ps) =
      any-insert_policy test p (sort_policies P ps)
      ∙ ap (λ b. test p || b) (any-sort_policies test ps)

  decide-sort_policies :
      (ps : List (Policy P)) → decide false (sort_policies P ps) ≡ decide false ps
  decide-sort_policies ps = rw (any-sort_policies denies ps, any-sort_policies grants ps)

  evaluate_found-decide :
      (ps : List (Policy P)) {r : PolicyEvaluationResult P}
      → evaluate_found P s action ps ≡ some r
      → r.decision ≡ decide false ps
  evaluate_found-decide [] h = λ i. (sym (some-injective _ _ h) i).decision
  evaluate_found-decide (p ∷ ps) h =
      evaluate_each-decide (sort_policies P (p ∷ ps)) [] false h ∙ decide-sort_policies (p ∷ ps)

  module _ (registered table : List (Policy P)) (resource_type : Text) where
    abbrev found : List (Policy P)
    found = find_policies P registered table action resource_type

    -- What `evaluate` answers is decided by the policies found in whatever order: denied if a denial
    -- among them fires, else allowed exactly if an allowance or a conditional one fires.
    pub evaluate_decides :
        {r : PolicyEvaluationResult P}
        → evaluate P registered table s action resource_type ≡ some r
        → r.decision
          ≡ (if any denies found then denied else if any grants found then allowed else denied)
    unfolding evaluate
    evaluate_decides h = evaluate_found-decide found h
