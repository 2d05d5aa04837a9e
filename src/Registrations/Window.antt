-- ===== src/Registrations/Window.antt =====
-- RegistrationService (app/modules/registrations/service.py): the checks that guard a new
-- registration, and the closing and reopening of an event.
use event_platform_backend.Prelude.{
  ℕ, Bool, true, false, not, ◌||◌, Option, none, some, String, if◌then◌else◌,
}
use event_platform_backend.Models.Events.{
  Event, EventConfiguration, EventStatus, registration_open, registration_closed, live, completed,
  archived,
}
use event_platform_backend.Models.Registrations.{Registration}
use event_platform_backend.Store.{Db, event_key}
use event_platform_backend.Table.{update}
use event_platform_backend.Events.{get_event, get_configuration}
use event_platform_backend.ConfigEngine.{
  RegistrationAvailability, opened, limited, full, is_registration_open, past_deadline, at_capacity,
  parse_registration_end_at, calculate_registration_availability,
}
use event_platform_backend.Registrations.Repository.{
  count_active_for_event, get_registration, find_duplicate,
}
use event_platform_backend.Session.{
  Action, pure, raise, raise_if, or_raise, query, lift, modify, now, commit, scalar_one_or_none,
  ◌>>=◌, ◌>>◌,
}
use event_platform_backend.Session.Errors.{
  event_not_found, registration_not_found, duplicate_registration, capacity_exceeded,
  invalid_registration_state,
}

-- Assignments to the attributes of an event of the session.
unfoldable pub update_event : ℕ → (Event → Event) → Db → Db
update_event event_id f d = record d { events = update event_id f d.events }

abbrev pub with_status : EventStatus → Event → Event
with_status status e = record e { status = status }

-- _get_event_or_raise
unfoldable pub get_event_or_raise : ℕ → Action Event
get_event_or_raise event_id = do
  event ← query (get_event event_id)
  or_raise event (event_not_found "Event not found.")

-- _get_config_or_raise
unfoldable pub get_config_or_raise : ℕ → Action EventConfiguration
get_config_or_raise event_id = do
  config ← query (get_configuration event_id)
  or_raise config (invalid_registration_state "Event configuration is missing.")

unfoldable pub get_registration_or_raise : ℕ → Action Registration
get_registration_or_raise registration_id = do
  registration ← query (get_registration registration_id)
  or_raise registration (registration_not_found "Registration not found.")

-- The statuses at which _ensure_registration_open gives up.
abbrev pub is_over : EventStatus → Bool
is_over registration_closed = true
is_over live = true
is_over completed = true
is_over archived = true
is_over _ = false

abbrev pub is_full_state : RegistrationAvailability → Bool
is_full_state full = true
is_full_state _ = false

-- The commit of a closed event, before the refusal.
unfoldable pub close_event : ℕ → Action (Unit {0})
close_event event_id = modify (update_event event_id (with_status registration_closed)) >> commit

-- The refusal after the deadline.
unfoldable pub refuse_late : Event → Action (Unit {0})
unfolding close_event
refuse_late event =
    (if is_registration_open event.status then close_event event.id else pure tt)
    >> raise (invalid_registration_state "Registration is closed for this event.")

-- The end of _ensure_registration_open, with the state of the window.
unfoldable pub refuse_full : Event → RegistrationAvailability → Action (Unit {0})
unfolding close_event
refuse_full event availability =
    if is_full_state availability
    then (close_event event.id
        >> raise (capacity_exceeded "Registration capacity has been reached."))
    else pure tt

-- _ensure_registration_open, once the deadline is known to be ahead.
unfoldable pub ensure_seats : Event → EventConfiguration → ℕ → Action (Unit {0})
unfolding refuse_full
ensure_seats event config active = do
  raise_if (is_over event.status)
      (invalid_registration_state "Registration is closed for this event.")
  t ← now
  refuse_full event (
      calculate_registration_availability event.status config.capacity active
        (parse_registration_end_at config.details) t)

-- _ensure_registration_open
unfoldable pub ensure_registration_open : Event → EventConfiguration → Action (Unit {0})
unfolding refuse_late ensure_seats
ensure_registration_open event config = do
  active ← query (count_active_for_event event.id)
  t ← now
  if past_deadline (parse_registration_end_at config.details) t
      then refuse_late event
      else ensure_seats event config active

-- _ensure_capacity
unfoldable pub ensure_capacity : ℕ → Action (Unit {0})
unfolding get_config_or_raise
ensure_capacity event_id = do
  config ← get_config_or_raise event_id
  active ← query (count_active_for_event event_id)
  raise_if (at_capacity config.capacity active)
      (capacity_exceeded "Registration capacity has been reached.")

abbrev pub is_some {ℓ} : {A : Type ℓ} → Option A → Bool
is_some none = false
is_some (some a) = true

-- _ensure_no_duplicate
unfoldable pub ensure_no_duplicate : ℕ → ℕ → Option ℕ → String → Action (Unit {0})
ensure_no_duplicate event_id user_id child_id participation_type = do
  rows ← query (find_duplicate event_id user_id child_id participation_type)
  duplicate ← lift (scalar_one_or_none rows)
  raise_if (is_some duplicate)
      (duplicate_registration "A registration already exists for this participant.")

abbrev pub is_registration_closed : EventStatus → Bool
is_registration_closed registration_closed = true
is_registration_closed _ = false

abbrev pub takes_registrations : RegistrationAvailability → Bool
takes_registrations opened = true
takes_registrations limited = true
takes_registrations _ = false

-- _reopen_event_if_capacity_available
unfoldable pub reopen_event_if_capacity_available : Event → EventConfiguration → Action (Unit {0})
reopen_event_if_capacity_available event config =
    if not (is_registration_closed event.status) || not (is_some config.capacity)
    then pure tt
    else (do
      active ← query (count_active_for_event event.id)
      t ← now
      if takes_registrations (
            calculate_registration_availability registration_open config.capacity active
              (parse_registration_end_at config.details) t)
          then modify (update_event event.id (with_status registration_open))
          else pure tt)
