-- ===== src/Models/Rbac.antt =====
-- app/modules/rbac/models.py: the roles, and the assignments of roles to users.
use event_platform_backend.Prelude.{ℕ, Bool, true, false, Option}

pub data RoleName : Type 0 where
  super_admin operations_admin finance_admin finance_operator finance_auditor event_manager
        event_coordinator staff_lead staff_member :
      RoleName

pub data AssignmentStatus : Type 0 where
  active revoked : AssignmentStatus

-- `role` is the name of the joined Role row, whose names are unique; assigned_by is left out.
pub record RoleAssignment : Type 0 where
  pub id : ℕ
  pub user_id : ℕ
  pub role : RoleName
  pub event_id : Option ℕ
  pub status : AssignmentStatus
  pub revoked_at : Option ℕ

-- GLOBAL_ROLES
abbrev pub is_global_role : RoleName → Bool
is_global_role super_admin = true
is_global_role operations_admin = true
is_global_role finance_admin = true
is_global_role finance_operator = true
is_global_role finance_auditor = true
is_global_role _ = false

-- SCOPED_ROLES
abbrev pub is_scoped_role : RoleName → Bool
is_scoped_role event_manager = true
is_scoped_role event_coordinator = true
is_scoped_role staff_lead = true
is_scoped_role staff_member = true
is_scoped_role _ = false

abbrev pub is_active_assignment : AssignmentStatus → Bool
is_active_assignment active = true
is_active_assignment revoked = false
