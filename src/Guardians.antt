-- ===== src/Guardians.antt =====
-- GuardianService.ensure_guardian_can_register_for_child (app/modules/guardians/service.py).
use event_platform_backend.Prelude.{ℕ, Option, none, some, ◌&&◌, ◌==◌, select}
use event_platform_backend.Store.{child_key}
use event_platform_backend.Table.{get}
use event_platform_backend.Session.{
  Action, query, lift, or_raise, pure, scalar_one_or_none, ◌>>=◌, ◌>>◌,
}
use event_platform_backend.Session.Errors.{child_profile_not_found, guardian_authorization}

ensure_guardian_can_register_for_child : ℕ → ℕ → Action (Unit {0})
ensure_guardian_can_register_for_child guardian_user_id child_id = do
  child ← query (λ d. get child_id d.children)
  or_raise child (child_profile_not_found "Child profile not found.")
  rows ← query λ d.
      select (λ r. r.guardian_user_id == guardian_user_id && r.child_id == child_id) d.relationships
  relationship ← lift (scalar_one_or_none rows)
  or_raise relationship (guardian_authorization "You are not authorized to register this child.")
  pure tt

-- if child_id is not None: await ensure_guardian_can_register_for_child(...)
unfoldable pub ensure_child : ℕ → Option ℕ → Action (Unit {0})
unfolding ensure_guardian_can_register_for_child
ensure_child actor_id none = pure tt
ensure_child actor_id (some child_id) = ensure_guardian_can_register_for_child actor_id child_id
