-- ===== src/Permissions/Grants.antt =====
-- The tests of app/core/permissions.py against the assignments that they should find.
use event_platform_backend.Prelude.{
  ℕ, ◌≡◌, refl, Bool, true, false, ◌⊎◌, ◌↔◌, ◌&&◌, none, some, List, [], ◌∷◌, arith, ◌==◌,
  opt_eq_iff, select,
}
use event_platform_backend.Models.Rbac.{
  RoleName, RoleAssignment, is_scoped_role, is_active_assignment,
}
use event_platform_backend.Store.{Db}
use event_platform_backend.Permissions.{
  user_has_scoped_role, user_scoped_event_ids, managers, any_scoped, scoped_ids,
  get_active_assignments,
}
use event_platform_backend.Prelude.{contains_id}

-- Some assignment of the table meets `P`.
abbrev pub Some : (RoleAssignment → Type 0) → List RoleAssignment → Type 0
Some P [] = ⊥
Some P (a ∷ rest) = P a ⊎ Some P rest

-- An active assignment of the account that opens the event: a platform-wide one of a bypassing role,
-- or one of an allowed scoped role for this very event.
abbrev pub Opens : ℕ → (RoleName → Bool) → ℕ → (RoleName → Bool) → RoleAssignment → Type 0
Opens user_id allowed event_id allow_global a =
    (a.user_id ≡ user_id)
    × (is_active_assignment a.status ≡ true)
    × (((allow_global a.role ≡ true) × (a.event_id ≡ none))
        ⊎ ((allowed a.role ≡ true) × (is_scoped_role a.role ≡ true) × (a.event_id ≡ some event_id)))

module _ (user_id : ℕ) (allowed : RoleName → Bool) (event_id : ℕ)
    (allow_global : RoleName → Bool) where
  abbrev held : RoleAssignment → Bool
  held a = a.user_id == user_id && is_active_assignment a.status

  any_scoped_iff :
      (rows : List RoleAssignment)
      → (any_scoped allowed allow_global event_id (select held rows) ≡ true)
        ↔ Some (Opens user_id allowed event_id allow_global) rows
  unfolding any_scoped
  any_scoped_iff [] = ground arith
  any_scoped_iff (a ∷ rest) = ground (
    arith,
    any_scoped_iff rest,
    opt_eq_iff a.event_id none,
    opt_eq_iff a.event_id (some event_id),
  )

  -- user_has_scoped_role grants access exactly when some active assignment of the account opens the
  -- event.
  pub user_has_scoped_role_iff :
      (d : Db)
      → (user_has_scoped_role user_id allowed event_id allow_global d ≡ true)
        ↔ Some (Opens user_id allowed event_id allow_global) d.assignments
  unfolding user_has_scoped_role get_active_assignments
  user_has_scoped_role_iff d = any_scoped_iff d.assignments

module _ (event_id : ℕ) where
  scoped_ids-managers :
      (rows : List RoleAssignment)
      → contains_id (scoped_ids managers rows) event_id
        ≡ any_scoped managers (λ role. false) event_id rows
  unfolding scoped_ids any_scoped
  scoped_ids-managers [] = refl
  scoped_ids-managers (a ∷ rest) = ground (arith, scoped_ids-managers rest)

  -- The list of the events of an event manager and the test for one event agree.
  pub scoped_events_agree :
      (user_id : ℕ) (d : Db)
      → contains_id (user_scoped_event_ids user_id managers d) event_id
        ≡ user_has_scoped_role user_id managers event_id (λ role. false) d
  unfolding user_has_scoped_role user_scoped_event_ids
  scoped_events_agree user_id d = scoped_ids-managers (get_active_assignments user_id d)
