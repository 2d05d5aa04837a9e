-- ===== src/Events.antt =====
-- The lookups of app/modules/events/repository.py and app/modules/config_engine/repository.py.
pub mod Status
pub mod Manager
pub mod ManagerTests
pub mod Schedule
pub mod Calendar
pub mod Venues
pub mod Bookings
pub mod Checks
pub mod Validation
pub mod Timetable
pub mod Forward
pub mod Lifecycle
pub mod Tests
use event_platform_backend.Prelude.{ℕ, Option, none, some}
use event_platform_backend.Models.Events.{Event, EventConfiguration}
use event_platform_backend.Store.{Db, event_key, configuration_key}
use event_platform_backend.Table.{get}

abbrev pub not_deleted : Option Event → Option Event
not_deleted none = none
not_deleted (some event) = elim event.deleted_at [ none ↦ some event | some t ↦ none ]

-- EventRepository.get_by_id: a soft-deleted event is not found.
unfoldable pub get_event : ℕ → Db → Option Event
get_event event_id d = not_deleted (get event_id d.events)

-- EventConfigurationRepository.get_for_event
unfoldable pub get_configuration : ℕ → Db → Option EventConfiguration
get_configuration event_id d = get event_id d.configurations
