-- ===== src/Guards/Origin.antt =====
-- Where the users of `GuardManager.authenticate` of swx_core/guards/guard_manager.py come from.
use swx.Prelude.{
  Bool, true, false, Option, none, some, List, [], ◌∷◌, String, string_eq, ◌==◌, ◌≡◌, ◌⊎◌, inl, inr,
  refl, sym, subst, if◌then◌else◌,
}
use mathlib.Core.Option.{some-injective}
use swx.Prelude.Dict.{lookup}
use swx.Guards.Manager.{
  AuthenticatedUser, Tried, answered, raised, Guard, GuardManager, or_default, not_registered,
  guard, through, fallen_back, fall_back, after_default, authenticate,
}

module _ {R W : Type 0} (request : R) (u : AuthenticatedUser) where
  abbrev pub IsUser : Tried (Option AuthenticatedUser) × W → Type 0
  IsUser (answered (some v), w) = v ≡ u
  IsUser (answered none, w) = ⊥
  IsUser (raised e, w) = ⊥

  -- One of the guards answers the user, in some world.
  abbrev pub Vouched : List (String × Guard R W) → Type 0
  Vouched [] = ⊥
  Vouched ((name, g) ∷ guards) = ((w : W) × IsUser (g.authenticate request w)) ⊎ Vouched guards

  from_fallen_back :
      (guards : List (String × Guard R W)) (g : Guard R W) (w0 : W)
      (next : W → Tried (Option AuthenticatedUser) × W) (o : Tried (Option AuthenticatedUser) × W)
      → (IsUser o → IsUser (g.authenticate request w0))
      → ((w : W) → IsUser (next w) → Vouched guards)
      → IsUser (fallen_back next o)
      → ((w : W) × IsUser (g.authenticate request w)) ⊎ Vouched guards
  from_fallen_back guards g w0 next (answered (some v), w) here later h = inl (w0, here h)
  from_fallen_back guards g w0 next (answered none, w) here later h = inr (later w h)
  from_fallen_back guards g w0 next (raised e, w) here later h = inr (later w h)

  fall_back-Vouched :
      (default : String) (guards : List (String × Guard R W)) (w : W)
      → IsUser (fall_back default guards request w)
      → Vouched guards
  unfolding fall_back
  fall_back-Vouched default [] w h = h
  fall_back-Vouched default ((name, g) ∷ guards) w h =
      skipping (name == default) (λ w'. fall_back-Vouched default guards w') h
    where
      tried : Bool → Tried (Option AuthenticatedUser) × W
      tried b = elim b [
        | true ↦ fall_back default guards request w
        | false ↦ fallen_back (λ w'. fall_back default guards request w') (g.authenticate request w)
      ]

      skipping :
          (b : Bool)
          → ((w' : W) → IsUser (fall_back default guards request w') → Vouched guards)
          → IsUser (tried b)
          → Vouched ((name, g) ∷ guards)
      skipping true later k = inr (later w k)
      skipping false later k =
          from_fallen_back guards g w (λ w'. fall_back default guards request w')
            (g.authenticate request w) (λ x. x) later k

  from_lookup :
      (name : String) (guards : List (String × Guard R W)) (g : Guard R W) (w : W)
      → lookup name guards ≡ some g
      → IsUser (g.authenticate request w)
      → Vouched guards
  from_lookup name [] g w e h = absurd (let n : none ≡ some g = e in cc)
  from_lookup name ((n, g') ∷ guards) g w e h =
      found (n == name) (λ q. from_lookup name guards g w q h) e
    where
      found :
          (b : Bool)
          → (lookup name guards ≡ some g → Vouched guards)
          → (if b then some g' else lookup name guards) ≡ some g
          → Vouched ((n, g') ∷ guards)
      found true later q =
          inl (w, subst (λ x. IsUser (x.authenticate request w)) (sym (some-injective _ _ q)) h)
      found false later q = inr (later q)

  from_guard :
      (name : Option String) (m : GuardManager R W) (w : W)
      → IsUser (through (λ g. g.authenticate request) (guard name m) w)
      → Vouched m.guards
  unfolding guard
  from_guard name m w h = found (lookup (or_default name m.default_guard) m.guards) refl h
    where
      found :
          (o : Option (Guard R W))
          → lookup (or_default name m.default_guard) m.guards ≡ o
          → IsUser (
              through
                (λ g. g.authenticate request)
                (elim o as (λ _. Tried (Guard R W)) [ none ↦ not_registered | some g ↦ answered g ])
                w)
          → Vouched m.guards
      found none e k = absurd k
      found (some g) e k = from_lookup (or_default name m.default_guard) m.guards g w e k

  from_default :
      (m : GuardManager R W) (o : Tried (Option AuthenticatedUser) × W)
      → (IsUser o → Vouched m.guards)
      → IsUser (after_default m request o)
      → Vouched m.guards
  from_default m (answered (some v), w) here h = here h
  from_default m (answered none, w) here h = fall_back-Vouched m.default_guard m.guards w h
  from_default m (raised e, w) here h = absurd h

  -- `authenticate` answers a user only if one of the registered guards answers that user to the
  -- request.
  pub authenticate-Vouched :
      (name : Option String) (m : GuardManager R W) (w : W)
      → IsUser (authenticate request name m w)
      → Vouched m.guards
  unfolding authenticate guard
  authenticate-Vouched name m w h = either (or_default name "" == "") h
    where
      by_default : Tried (Option AuthenticatedUser) × W
      by_default =
          after_default m request
            (through (λ g. g.authenticate request) (guard (some m.default_guard) m) w)

      by_name : Tried (Option AuthenticatedUser) × W
      by_name = through (λ g. g.authenticate request) (guard name m) w

      either : (b : Bool) → IsUser (if b then by_default else by_name) → Vouched m.guards
      either true k =
          from_default m (through (λ g. g.authenticate request) (guard (some m.default_guard) m) w)
            (from_guard (some m.default_guard) m w) k
      either false k = from_guard name m w k
