-- ===== src/Events/Manager.antt =====
-- app/modules/events/manager.py: the change of an event's manager, in the caller's transaction.
use event_platform_backend.Prelude.{
  ℕ, Bool, true, false, not, ◌&&◌, ◌||◌, Option, none, some, List, [], ◌∷◌, ◌==◌, opt_eq, select,
  if◌then◌else◌,
}
use event_platform_backend.Events.{get_event}
use event_platform_backend.Models.Events.{Event}
use event_platform_backend.Models.People.{User}
use event_platform_backend.Models.Rbac.{
  RoleAssignment, AssignmentStatus, event_manager, is_active_assignment,
}
use event_platform_backend.Permissions.{user_has_global_role, platform_admins, managers}
use event_platform_backend.Registrations.Window.{update_event}
use event_platform_backend.Session.{
  Action, pure, raise_if, or_raise, query, modify, now, uuid4, write_audit_log, ◌>>=◌, ◌>>◌,
}
use event_platform_backend.Session.Errors.{permission_denied, validation_error}
use event_platform_backend.Store.{Db, assignment_key}
use event_platform_backend.Table.{update, add}
use event_platform_backend.Tickets.Care.{get_user}

abbrev pub add_assignment : RoleAssignment → Db → Db
add_assignment a d = record d { assignments = add a d.assignments }

-- Assignments to the attributes of a role assignment of the session.
abbrev pub update_assignment : ℕ → (RoleAssignment → RoleAssignment) → Db → Db
update_assignment i f d = record d { assignments = update i f d.assignments }

-- user is None or not user.is_active or not user.is_event_manager: then nobody is selected.
abbrev pub eligible : Option User → Option User
eligible none = none
eligible (some u) = if not u.is_active || not u.is_event_manager then none else some u

-- The active assignments of the role to the event.
unfoldable pub manager_assignments : ℕ → Db → List RoleAssignment
manager_assignments event_id d =
    select
      (λ a. opt_eq a.event_id (some event_id) && managers a.role && is_active_assignment a.status)
      d.assignments

abbrev pub ended : ℕ → RoleAssignment → RoleAssignment
ended t a = record a { status = AssignmentStatus.revoked; revoked_at = some t }

abbrev pub is_first : ℕ → Option RoleAssignment → RoleAssignment → Bool
is_first user_id none a = a.user_id == user_id
is_first user_id (some b) a = false

-- The loop: the first assignment of the user is selected, the others end.
unfoldable pub select_assignment :
    ℕ → Option RoleAssignment → List RoleAssignment → Action (Option RoleAssignment)
select_assignment user_id selected [] = pure selected
select_assignment user_id selected (a ∷ rest) = elim (is_first user_id selected a) [
  | true ↦ select_assignment user_id (some a) rest
  | false ↦
      (now >>= λ t.
      modify (update_assignment a.id (ended t)) >> select_assignment user_id selected rest)
]

abbrev pub new_assignment : ℕ → ℕ → ℕ → RoleAssignment
new_assignment id event_id user_id = record {
  id = id;
  user_id = user_id;
  role = event_manager;
  event_id = some event_id;
  status = AssignmentStatus.active;
  revoked_at = none;
}

-- if selected is None
unfoldable pub selected_or_new : ℕ → ℕ → Option RoleAssignment → Action RoleAssignment
selected_or_new event_id user_id (some a) = pure a
selected_or_new event_id user_id none = do
  id ← uuid4
  modify (add_assignment (new_assignment id event_id user_id))
  pure (new_assignment id event_id user_id)

abbrev pub organized_by : ℕ → Event → Event
organized_by user_id e = record e { organizer_user_id = some user_id }

unfoldable pub assign_event_manager : ℕ → ℕ → ℕ → Action RoleAssignment
unfolding get_user manager_assignments select_assignment selected_or_new
assign_event_manager event_id user_id actor_id = do
  admin ← query (user_has_global_role actor_id platform_admins)
  raise_if (not admin)
      (permission_denied "Only Operations or Super Admin can change the event manager.")
  row ← query (get_event event_id)
  event ← or_raise row (validation_error "Event not found.")
  account ← query (get_user user_id)
  user ←
      or_raise (eligible account)
        (validation_error "Select an existing active Event Manager account from Admin Accounts.")
  assignments ← query (manager_assignments event_id)
  selected ← select_assignment user_id none assignments
  modify (update_event event.id (organized_by user_id))
  chosen ← selected_or_new event_id user_id selected
  write_audit_log "event" event_id "manager_assigned" (some actor_id)
  pure chosen
