-- ===== src/Guards/Tests.antt =====
-- A manager of two guards.
use swx.Prelude.{true, false, Option, none, some, List, [], ◌∷◌, String, ◌≡◌, refl}
use swx.Guards.Manager.{
  AuthenticatedUser, Tried, answered, raised, Guard, GuardManager, new_manager, register, guard,
  fall_back, authenticate, has_role,
}

abbrev ada : AuthenticatedUser
ada = record {
  id = "1";
  email = "ada@example.org";
  type = "api_key";
  roles = "editor" ∷ [];
  permissions = [];
  is_superuser = false;
  is_active = true;
  metadata = [];
}

abbrev guard_of : Tried (Option AuthenticatedUser) → Guard String (List String)
guard_of answer = record {
  authenticate = λ request w. (answer, request ∷ w);
  create_token = λ user claims w. (answered user.id, w);
  revoke_token = λ token w. (answered false, w);
  revoke_all_tokens_for_user = none;
}

manager : GuardManager String (List String)
unfolding register
manager = register "api_key" (guard_of (answered (some ada))) (
    register "session" (guard_of (raised "expired"))
      (register "jwt" (guard_of (answered none)) (new_manager "jwt")))

falls_back : authenticate "get" none manager [] ≡ (answered (some ada), "get" ∷ "get" ∷ "get" ∷ [])
unfolding authenticate manager guard fall_back
falls_back = refl

unknown_guard : authenticate "get" (some "oauth") manager [] ≡ (raised "not registered", [])
unfolding authenticate manager guard fall_back
unknown_guard = refl

ada_edits : has_role ada "editor" ≡ true
unfolding has_role
ada_edits = refl
