-- ===== src/Events/ManagerTests.antt =====
-- The change of the manager of a concrete event.
use event_platform_backend.Prelude.{◌≡◌, refl, true, false, [], ◌∷◌}
use event_platform_backend.Events.{get_event}
use event_platform_backend.Events.Manager.{
  new_assignment, ended, manager_assignments, select_assignment, selected_or_new,
  assign_event_manager,
}
use event_platform_backend.Models.People.{User}
use event_platform_backend.Permissions.{user_has_global_role, get_active_assignments}
use event_platform_backend.Registrations.Window.{update_event}
use event_platform_backend.Scenario.{open_event, admin, session}
use event_platform_backend.Session.{Session, err, ◌>>=◌, now, uuid4, modify, write_audit_log}
use event_platform_backend.Session.Errors.{validation_error}
use event_platform_backend.Store.{empty_db}
use event_platform_backend.Tickets.Care.{get_user}

abbrev account : User
account = record { id = 9; is_event_manager = true; is_active = true }

-- Account 8 manages event 1.
abbrev managed : Session
managed = session (record empty_db {
  events = open_event ∷ [];
  users = account ∷ record account { id = 10; is_active = false } ∷ [];
  assignments = admin ∷ new_assignment 60 1 8 ∷ [];
})

replaced_manager :
    (assign_event_manager 1 9 4 managed).1.db.assignments
    ≡ admin ∷ ended 200 (new_assignment 60 1 8) ∷ new_assignment 1000 1 9 ∷ []
unfolding assign_event_manager user_has_global_role get_active_assignments get_event get_user
    manager_assignments select_assignment selected_or_new update_event now uuid4 modify
    write_audit_log ◌>>=◌
replaced_manager = refl

inactive_account :
    (assign_event_manager 1 10 4 managed).0
    ≡ err (validation_error "Select an existing active Event Manager account from Admin Accounts.")
unfolding assign_event_manager user_has_global_role get_active_assignments get_event get_user ◌>>=◌
inactive_account = refl
