-- ===== src/Policy/Registry.antt =====
-- `PolicyRegistry` of swx_core/services/policy/policy_registry.py: the definitions by their id, and
-- the two indexes. `none` is the `ValueError` of a definition without an id.
use swx.Prelude.{
  ◌≡◌, ◌≢◌, ◌∙◌, ap, arith, true, Option, none, some, List, [], ◌∷◌, ◌++◌, any, filter, map,
  if◌then◌else◌, ◌==◌, beq_refl, beq_ne, any-append, Bool-cases, Option-cases, inl, inr, subst,
}
use mathlib.Core.Option.{some-injective}
use swx.Prelude.Dict.{lookup, insert, lookup-insert}
use swx.Prelude.Text.{Text, text_eq}
use swx.Policy.Model.{Python, Policy}
use swx.Policy.Actions.{matches_action}

module _ (P : Python) where
  pub record Registry : Type 0 where
    pub policies : List (Text × Policy P)
    pub action_index : List (Text × List Text)
    pub resource_index : List (Text × List Text)

  abbrev pub ids_of : Option (List Text) → List Text
  ids_of none = []
  ids_of (some ids) = ids

  -- `if key not in index: index[key] = []`, then `index[key].append(policy_id)`.
  abbrev pub indexed : Text → Text → List (Text × List Text) → List (Text × List Text)
  indexed key id index = insert key (ids_of (lookup key index) ++ id ∷ []) index

  abbrev pub registered : Policy P → Registry → Registry
  registered p r = record {
    policies = insert p.policy_id p r.policies;
    action_index = indexed p.action_pattern p.policy_id r.action_index;
    resource_index = indexed p.resource_type p.policy_id r.resource_index;
  }

  unfoldable pub register : Policy P → Registry → Option Registry
  register p r = if p.policy_id == [] then none else some (registered p r)

  unfoldable pub get : Registry → Text → Option (Policy P)
  get r id = lookup id r.policies

  unfoldable pub list_all : Registry → List (Policy P)
  list_all r = map (λ e. e.1) r.policies

  unfoldable pub get_by_action : Registry → Text → List (Policy P)
  get_by_action r action = filter (λ p. matches_action action p.action_pattern) (list_all r)

  abbrev pub known : List (Text × Policy P) → List Text → List (Policy P)
  known policies [] = []
  known policies (id ∷ ids) =
      let rest = known policies ids in elim (lookup id policies) [ none ↦ rest | some p ↦ p ∷ rest ]

  unfoldable pub get_by_resource_type : Registry → Text → List (Policy P)
  get_by_resource_type r type = known r.policies (ids_of (lookup type r.resource_index))

  -- Registering a definition with an id answers it under its id and leaves the others as they were.
  pub get-register :
      (p : Policy P) (r r' : Registry) (id : Text)
      → register p r ≡ some r'
      → get r' id ≡ (if p.policy_id == id then some p else get r id)
  unfolding register get
  get-register p r r' id h = elim (Bool-cases (p.policy_id == [])) [
    | inl unnamed ↦ absurd (cc (rw unnamed at h))
    | inr named ↦
        subst (λ x. get x id ≡ (if p.policy_id == id then some p else get r id))
          (some-injective _ _ (rw named at h)) (lookup-insert id p.policy_id p r.policies)
  ]

  registered_lem : (p : Policy P) (r r' : Registry) → register p r ≡ some r' → registered p r ≡ r'
  unfolding register
  registered_lem p r r' h = elim (Bool-cases (p.policy_id == [])) [
    | inl unnamed ↦ absurd (cc (rw unnamed at h))
    | inr named ↦ some-injective _ _ (rw named at h)
  ]

  known-append :
      (policies : List (Text × Policy P)) (id : Text) (q : Policy P) (ids : List Text)
      → lookup id policies ≡ some q
      → known policies (ids ++ id ∷ []) ≡ known policies ids ++ q ∷ []
  known-append policies id q [] h = rw (known, h)
  known-append policies id q (i ∷ ids) h = elim (Option-cases (lookup i policies)) [
    | inl gone ↦ rw (known, gone) (known-append policies id q ids h)
    | inr (x, there) ↦ rw (known, there) (ap (◌∷◌ x) (known-append policies id q ids h))
  ]

  -- A definition that is registered again under its id, with another resource type, is still
  -- returned for the resource type that it had before.
  pub get_by_resource_type_stale :
      (p q : Policy P) (r r' r'' : Registry)
      → q.policy_id ≡ p.policy_id
      → q.resource_type ≢ p.resource_type
      → register p r ≡ some r'
      → register q r' ≡ some r''
      → any (λ x. x.resource_type == q.resource_type) (get_by_resource_type r'' p.resource_type)
        ≡ true
  unfolding get_by_resource_type get
  get_by_resource_type_stale p q r r' r'' same other h k =
      let stored : lookup q.policy_id r''.policies ≡ some q =
        get-register q r' r'' q.policy_id k ∙ rw (beq_refl q.policy_id) in
      let ids : lookup p.resource_type r''.resource_index
          ≡ some (ids_of (lookup p.resource_type r.resource_index) ++ p.policy_id ∷ []) =
        subst
          (λ x.
            lookup p.resource_type x.resource_index
            ≡ some (ids_of (lookup p.resource_type r.resource_index) ++ p.policy_id ∷ []))
          (registered_lem q r' r'' k)
          (lookup-insert p.resource_type q.resource_type _ r'.resource_index
            ∙ rw (beq_ne q.resource_type p.resource_type other) (
                subst
                  (λ x.
                    lookup p.resource_type x.resource_index
                    ≡ some (ids_of (lookup p.resource_type r.resource_index) ++ p.policy_id ∷ []))
                  (registered_lem p r r' h)
                  (lookup-insert p.resource_type p.resource_type _ r.resource_index
                    ∙ rw (beq_refl p.resource_type)))) in
      rw (ids, ← same)
        (rw (known-append r''.policies q.policy_id q _ stored, any-append)
          (ground (arith, beq_refl q.resource_type)))
