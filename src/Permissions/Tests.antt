-- ===== src/Permissions/Tests.antt =====
-- Access of concrete accounts.
use event_platform_backend.Prelude.{◌≡◌, ◌↔◌, true, false, none, some, [], ◌∷◌}
use event_platform_backend.Models.Rbac.{event_manager, staff_lead, active, revoked}
use event_platform_backend.Store.{Db, empty_db}
use event_platform_backend.Permissions.{
  user_has_scoped_role, user_scoped_event_ids, managers, platform_admins,
}
use event_platform_backend.Prelude.{contains_id}
use event_platform_backend.Permissions.Grants.{
  Some, Opens, user_has_scoped_role_iff, scoped_events_agree,
}

-- Account 7 manages event 1, no longer manages event 2, and leads staff at event 3.
abbrev roles : Db
roles = record empty_db {
  assignments =
      record {
        id = 1;
        user_id = 7;
        role = event_manager;
        event_id = some 1;
        status = active;
        revoked_at = none;
      }
      ∷ record {
        id = 2;
        user_id = 7;
        role = event_manager;
        event_id = some 2;
        status = revoked;
        revoked_at = none;
      }
      ∷ record {
        id = 3;
        user_id = 7;
        role = staff_lead;
        event_id = some 3;
        status = active;
        revoked_at = none;
      }
      ∷ [];
}

user_has_scoped_role_iff_example :
    (user_has_scoped_role 7 managers 1 platform_admins roles ≡ true)
    ↔ Some (Opens 7 managers 1 platform_admins) roles.assignments
user_has_scoped_role_iff_example = user_has_scoped_role_iff 7 managers 1 platform_admins roles

scoped_events_agree_example :
    contains_id (user_scoped_event_ids 7 managers roles) 2
    ≡ user_has_scoped_role 7 managers 2 (λ role. false) roles
scoped_events_agree_example = scoped_events_agree 2 7 roles
