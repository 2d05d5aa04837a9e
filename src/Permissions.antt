-- ===== src/Permissions.antt =====
-- app/core/permissions.py: what an account may do by its role assignments.
pub mod Grants
pub mod Tests
use event_platform_backend.Prelude.{
  ℕ, Bool, true, false, ◌&&◌, Option, none, some, List, [], ◌∷◌, ◌==◌, opt_eq, if◌then◌else◌,
  select,
}
use event_platform_backend.Models.Rbac.{
  RoleName, RoleAssignment, super_admin, operations_admin, event_manager, is_global_role,
  is_scoped_role, is_active_assignment,
}
use event_platform_backend.Store.{Db}

unfoldable pub get_active_assignments : ℕ → Db → List RoleAssignment
get_active_assignments user_id d =
    select (λ a. a.user_id == user_id && is_active_assignment a.status) d.assignments

-- The loops of the two tests, over the assignments that are active.
any_global : (RoleName → Bool) → List RoleAssignment → Bool
any_global allowed [] = false
any_global allowed (a ∷ rest) =
    if allowed a.role && is_global_role a.role && opt_eq a.event_id none
    then true
    else any_global allowed rest

pub any_scoped : (RoleName → Bool) → (RoleName → Bool) → ℕ → List RoleAssignment → Bool
any_scoped allowed allow_global event_id [] = false
any_scoped allowed allow_global event_id (a ∷ rest) =
    if allow_global a.role && opt_eq a.event_id none
    then true
    else if allowed a.role && is_scoped_role a.role && opt_eq a.event_id (some event_id)
    then true
    else any_scoped allowed allow_global event_id rest

unfoldable pub user_has_global_role : ℕ → (RoleName → Bool) → Db → Bool
unfolding get_active_assignments any_global
user_has_global_role user_id allowed d = any_global allowed (get_active_assignments user_id d)

-- `allow_global` is empty where the source passes None.
unfoldable pub user_has_scoped_role : ℕ → (RoleName → Bool) → ℕ → (RoleName → Bool) → Db → Bool
unfolding get_active_assignments any_scoped
user_has_scoped_role user_id allowed event_id allow_global d =
    any_scoped allowed allow_global event_id (get_active_assignments user_id d)

pub scoped_ids : (RoleName → Bool) → List RoleAssignment → List ℕ
scoped_ids allowed [] = []
scoped_ids allowed (a ∷ rest) =
    let ids = scoped_ids allowed rest in
    if allowed a.role then elim a.event_id [ none ↦ ids | some e ↦ e ∷ ids ] else ids

-- The set that the source returns, as the list of its members, perhaps repeated.
unfoldable pub user_scoped_event_ids : ℕ → (RoleName → Bool) → Db → List ℕ
unfolding get_active_assignments scoped_ids
user_scoped_event_ids user_id allowed d = scoped_ids allowed (get_active_assignments user_id d)

-- {RoleName.SUPER_ADMIN, RoleName.OPERATIONS_ADMIN}
abbrev pub platform_admins : RoleName → Bool
platform_admins super_admin = true
platform_admins operations_admin = true
platform_admins _ = false

-- {RoleName.EVENT_MANAGER}
abbrev pub managers : RoleName → Bool
managers event_manager = true
managers _ = false
