-- ===== src/Policy/Finding.antt =====
-- Which policies `_find_policies` of swx_core/services/policy/policy_engine.py finds.
use swx.Prelude.{◌≡◌, ◌⊎◌, Bool, true, ◌&&◌, List, [], ◌∷◌, filter}
use swx.Prelude.Text.{Text, text_eq}
use swx.Policy.Model.{Python, Policy}
use swx.Policy.Actions.{matches_action, star, Matches}
use swx.Policy.Engine.{concerns}

-- `x in xs`
abbrev pub Among : {A : Type 0} → A → List A → Type 0
Among x [] = ⊥
Among x (y ∷ ys) = (y ≡ x) ⊎ Among x ys

module _ (P : Python) (registered table : List (Policy P)) (action resource_type : Text) where
  -- A policy's resource type is the request's or the wildcard, and its pattern fits the action.
  abbrev pub Applies : Policy P → Type 0
  Applies p =
      ((p.resource_type ≡ resource_type) ⊎ (p.resource_type ≡ star))
      × Matches action p.action_pattern

  -- A registered definition that applies, as an enabled policy, or an enabled row that applies.
  pub data Applicable (p : Policy P) : Type 0 where
    system :
        (q : Policy P)
        → Among q registered
        → Applies q
        → p ≡ record q { enabled = true }
        → Applicable p
    stored : Among p table → p.enabled ≡ true → Applies p → Applicable p

  abbrev concerned : Policy P → Bool
  concerned p = concerns P resource_type p.resource_type

  abbrev fits : Policy P → Bool
  fits p = matches_action action p.action_pattern

  abbrev definitions : List (Policy P)
  definitions = filter (λ p. concerned p && fits p) registered

  abbrev rows : List (Policy P)
  rows = filter (λ p. concerned p && p.enabled) table
