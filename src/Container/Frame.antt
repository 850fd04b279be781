-- ===== src/Container/Frame.antt =====
-- What code that runs inside `Container.make` leaves as it found it.
use swx.Prelude.{
  ◌≡◌, refl, ◌∙◌, ap, Bool, true, false, ◌||◌, some, List, ◌∷◌, String, string_eq, ◌==◌,
}
use swx.Prelude.Dict.{lookup}
use swx.Container.Model.{Container, Result, ok, err, and_then}
use swx.Container.Make.{on_stack}

-- Only the singletons, the scoped instances and the world have changed, no singleton has changed or
-- gone, and no key of `held` has become or ceased to be one.
pub record Kept {V W : Type 0} (held : List String) (c c' : Container V W) : Type 0 where
  pub frame : c' ≡ record c {
    instances = c'.instances;
    scoped_instances = c'.scoped_instances;
    world = c'.world;
  }
  pub grows : (j : String) (v : V) → lookup j c.instances ≡ some v → lookup j c'.instances ≡ some v
  pub still : (j : String) → on_stack j held ≡ true → lookup j c'.instances ≡ lookup j c.instances

module _ {V W : Type 0} where
  pub Kept-refl : (held : List String) (c : Container V W) → Kept held c c
  Kept-refl held c = record { frame = refl; grows = λ j v h. h; still = λ j h. refl }

  pub Kept-trans :
      (held : List String) (a b c : Container V W) → Kept held a b → Kept held b c → Kept held a c
  Kept-trans held a b c p q = record {
    frame =
        q.frame
        ∙ ap {A = Container V W}
            (λ s. record s {
              instances = c.instances;
              scoped_instances = c.scoped_instances;
              world = c.world;
            })
            p.frame;
    grows = λ j v h. q.grows j v (p.grows j v h);
    still = λ j h. q.still j h ∙ p.still j h;
  }

  -- Fewer keys held.
  pub Kept-weaken :
      (k : String) (held : List String) (c c' : Container V W)
      → Kept (k ∷ held) c c'
      → Kept held c c'
  Kept-weaken k held c c' p = record {
    frame = p.frame;
    grows = p.grows;
    still = λ j h. p.still j (rw h (any_true (k == j)));
  }
    where
      any_true : (b : Bool) → (b || true) ≡ true
      any_true true = refl
      any_true false = refl

  pub Kept-stack :
      (held : List String) (c c' : Container V W) → Kept held c c' → c'.build_stack ≡ c.build_stack
  Kept-stack held c c' p = ap (λ s. s.build_stack) p.frame

  -- What follows a call keeps what the call and it keep; after an exception nothing follows.
  pub Kept-and_then :
      {A B : Type 0} (held : List String) (c : Container V W)
      (f : A → Container V W → Result B × Container V W) (o : Result A × Container V W)
      → Kept held c o.1
      → ((a : A) (c' : Container V W) → Kept held c c' → Kept held c (f a c').1)
      → Kept held c (and_then f o).1
  Kept-and_then held c f (ok a, c') p q = q a c' p
  Kept-and_then held c f (err e, c') p q = p
