-- ===== src/Events/Equality.antt =====
-- The `==` of `ListenerRegistration`, of swx_core/events/dispatcher.py, is equality.
use swx.Prelude.{
  Bool, true, ◌&&◌, Option, none, some, ◌≡◌, ◌↔◌, refl, subst, arith, Hashable, ◌==◌, eqb_iff,
  beq_refl, string_eq,
}
use swx.Prelude.Int.{ℤ_beq, ℤ_beq_iff}
use swx.Prelude.Text.{Text, text_eq, text_beq_iff}
use swx.Events.Model.{ListenerRegistration}
use swx.Events.Bus.{option_beq, bool_beq, same_registration}

bool_beq_iff : (a b : Bool) → (bool_beq a b ≡ true) ↔ (a ≡ b)
bool_beq_iff a b = ground arith

option_beq_iff : (a b : Option Text) → (option_beq a b ≡ true) ↔ (a ≡ b)
option_beq_iff none none = ((λ h. refl), (λ h. refl))
option_beq_iff none (some t) = ((λ h. absurd (cc)), (λ h. absurd (cc)))
option_beq_iff (some s) none = ((λ h. absurd (cc)), (λ h. absurd (cc)))
option_beq_iff (some s) (some t) = ground (arith, text_beq_iff s t)

all_seven :
    (a b c d e f g : Bool)
    → (a && b && c && d && e && f && g) ≡ true
    → (a ≡ true) × (b ≡ true) × (c ≡ true) × (d ≡ true) × (e ≡ true) × (f ≡ true) × (g ≡ true)
all_seven a b c d e f g h = ground (arith, h)

module _ {L : Type 0} ⦃same : Hashable L⦄ where
  same_fields : (r s : ListenerRegistration L) → same_registration r s ≡ true → r ≡ s
  same_fields r s h =
      let (a, b, c, d, e, f, g) =
        all_seven (r.listener == s.listener) (ℤ_beq r.priority s.priority)
          (bool_beq r.queueable s.queueable) (r.queue_name == s.queue_name)
          (bool_beq r.async_listener s.async_listener) (bool_beq r.once s.once)
          (option_beq r.pattern s.pattern) h in
      λ i. record {
        listener = (eqb_iff r.listener s.listener).0 a i;
        priority = (ℤ_beq_iff r.priority s.priority).0 b i;
        queueable = (bool_beq_iff r.queueable s.queueable).0 c i;
        queue_name = (eqb_iff r.queue_name s.queue_name).0 d i;
        async_listener = (bool_beq_iff r.async_listener s.async_listener).0 e i;
        once = (bool_beq_iff r.once s.once).0 f i;
        pattern = (option_beq_iff r.pattern s.pattern).0 g i;
      }

  same_self : (r : ListenerRegistration L) → same_registration r r ≡ true
  same_self r =
      rw
        (
          beq_refl r.listener,
          (ℤ_beq_iff r.priority r.priority).1 refl,
          (bool_beq_iff r.queueable r.queueable).1 refl,
          beq_refl r.queue_name,
          (bool_beq_iff r.async_listener r.async_listener).1 refl,
          (bool_beq_iff r.once r.once).1 refl,
          (option_beq_iff r.pattern r.pattern).1 refl,
        )
        refl

  pub same_registration_iff :
      (r s : ListenerRegistration L) → (same_registration r s ≡ true) ↔ (r ≡ s)
  same_registration_iff r s =
      (same_fields r s, (λ e. subst (λ x. same_registration r x ≡ true) e (same_self r)))
