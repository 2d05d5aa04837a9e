-- ===== src/Events/Status.antt =====
-- EventService (app/modules/events/service.py): the status of an event, its deletion, and the
-- reading of an event, which closes it when it takes no more registrations.
use event_platform_backend.Prelude.{
  ℕ, Bool, true, false, not, ◌&&◌, Option, none, some, List, [], ◌∷◌, if◌then◌else◌, opt_eq,
}
use event_platform_backend.Models.Events.{
  Event, EventConfiguration, EventStatus, draft, configured, published, registration_open,
  registration_closed, live, completed, archived,
}
use event_platform_backend.Models.Rbac.{RoleAssignment, is_active_assignment, revoked}
use event_platform_backend.ConfigEngine.{
  RegistrationAvailability, closed, full, is_registration_open, parse_registration_end_at,
  calculate_registration_availability,
}
use event_platform_backend.Events.{get_event, get_configuration}
use event_platform_backend.Permissions.{user_has_global_role, platform_admins}
use event_platform_backend.Registrations.Repository.{count_active_for_event}
use event_platform_backend.Registrations.Window.{update_event, with_status}
use event_platform_backend.Session.{
  Action, pure, raise_if, or_raise, query, modify, now, commit, write_audit_log, ◌>>=◌, ◌>>◌,
}
use event_platform_backend.Session.Errors.{
  event_not_found, invalid_event_status_transition, permission_denied,
}
use event_platform_backend.Store.{Db}

-- new_status in ALLOWED_TRANSITIONS[old]
abbrev pub allowed : EventStatus → EventStatus → Bool
allowed draft configured = true
allowed configured draft = true
allowed configured published = true
allowed published registration_open = true
allowed published archived = true
allowed registration_open registration_closed = true
allowed registration_closed live = true
allowed registration_closed registration_open = true
allowed live completed = true
allowed completed archived = true
allowed _ _ = false

-- availability in {CLOSED, FULL}
abbrev pub takes_nobody : RegistrationAvailability → Bool
takes_nobody closed = true
takes_nobody full = true
takes_nobody _ = false

-- The event as it stands after _synchronize_registration_state.
unfoldable pub synchronize_with : Event → Option EventConfiguration → Action Event
synchronize_with event none = pure event
synchronize_with event (some config) = do
  registered ← query (count_active_for_event event.id)
  t ← now
  if is_registration_open event.status
        && takes_nobody (
            calculate_registration_availability event.status config.capacity registered
              (parse_registration_end_at config.details) t)
      then (do
        modify (update_event event.id (with_status registration_closed))
        commit
        pure (with_status registration_closed event))
      else pure event

unfoldable pub synchronize_registration_state : Event → Action Event
unfolding synchronize_with
synchronize_registration_state event = do
  config ← query (get_configuration event.id)
  synchronize_with event config

unfoldable pub get_event_or_raise : ℕ → Action Event
unfolding synchronize_registration_state
get_event_or_raise event_id = do
  row ← query (get_event event_id)
  event ← or_raise row (event_not_found "Event not found.")
  synchronize_registration_state event

-- transition_status up to its commit; the event as committed.
unfoldable pub transition_status : ℕ → EventStatus → ℕ → Action Event
unfolding get_event_or_raise
transition_status event_id new_status actor_user_id = do
  event ← get_event_or_raise event_id
  raise_if (not (allowed event.status new_status))
      (invalid_event_status_transition event.status new_status)
  modify (update_event event.id (with_status new_status))
  write_audit_log "event" event.id "status_changed" (some actor_user_id)
  commit
  pure (with_status new_status event)

abbrev pub publish : ℕ → ℕ → Action Event
publish event_id actor_user_id = transition_status event_id published actor_user_id

-- The assignments of the event that are in force, ended.
abbrev pub revoke_all : ℕ → ℕ → List RoleAssignment → List RoleAssignment
revoke_all event_id t [] = []
revoke_all event_id t (a ∷ rest) =
    (if opt_eq a.event_id (some event_id) && is_active_assignment a.status
      then record a { status = revoked; revoked_at = some t }
      else a)
    ∷ revoke_all event_id t rest

abbrev pub revoke_assignments : ℕ → ℕ → Db → Db
revoke_assignments event_id t d = record d { assignments = revoke_all event_id t d.assignments }

abbrev pub deleted : ℕ → Event → Event
deleted t e = record e { deleted_at = some t; status = archived }

unfoldable pub delete_event : ℕ → ℕ → Action (Unit {0})
delete_event event_id actor_user_id = do
  admin ← query (user_has_global_role actor_user_id platform_admins)
  raise_if (not admin) (permission_denied "Only Operations or Super Admin can delete an event.")
  row ← query (get_event event_id)
  event ← or_raise row (event_not_found "Event not found.")
  t ← now
  modify (update_event event.id (deleted t))
  modify (revoke_assignments event_id t)
  write_audit_log "event" event_id "deleted" (some actor_user_id)
  commit
