-- ===== src/Events/Tests.antt =====
-- Schedules of concrete events.
use event_platform_backend.Prelude.{◌≡◌, refl, false, none, some, [], ◌∷◌, pos}
use event_platform_backend.ConfigEngine.{to_utc}
use event_platform_backend.Events.{get_event, get_configuration}
use event_platform_backend.Events.Bookings.{NoDoubleBooking}
use event_platform_backend.Events.Calendar.{new_item, add_schedule_item}
use event_platform_backend.Events.Forward.{Forward}
use event_platform_backend.Events.Lifecycle.{nothing, next, events-Forward}
use event_platform_backend.Events.Schedule.{
  ScheduleFields, parse_availability, check_venue, get_venue, lock_conflict_scope, is_conflict,
  find_overlapping, refuse_conflicts, check_overlap, validate_schedule,
}
use event_platform_backend.Events.Status.{
  get_event_or_raise, synchronize_registration_state, synchronize_with, transition_status,
}
use event_platform_backend.Events.Timetable.{
  change_status, add_slot, serve, start, request, no_double_booking,
}
use event_platform_backend.Models.Events.{published, registration_closed, aware, east}
use event_platform_backend.Models.Schedule.{Venue, times}
use event_platform_backend.Scenario.{open_event, session}
use event_platform_backend.Session.{
  Session, ok, err, ◌>>=◌, uuid4, modify, commit, acquire_advisory_lock, write_audit_log,
}
use event_platform_backend.Session.Errors.{schedule_conflict, invalid_event_status_transition}
use event_platform_backend.Store.{empty_db}

abbrev hall : Venue
hall = record {
  id = 7;
  event_id = 1;
  name = "Hall";
  capacity = some (pos 50);
  availability = times (aware 300 (east 100)) (aware 900 (east 0)) ∷ [];
  is_shared = false;
}

abbrev planned : Session
planned = session (record empty_db {
  events = record open_event { end_date = some 900 } ∷ [];
  venues = hall ∷ [];
})

abbrev talk : ScheduleFields
talk = record {
  venue_id = some 7;
  title = "Talk";
  start_time = some 300;
  end_time = some 400;
  resource_key = some "beamer";
  expected_capacity = some 40;
}

abbrev after_talk : Session
after_talk = (serve (add_slot 1 talk none) planned).1

-- The next request begins with what is stored.
abbrev again : Session → Session
again s = record s { db = s.durable; locks = [] }

no_double_booking_example : NoDoubleBooking after_talk.durable
no_double_booking_example =
    no_double_booking after_talk.durable
      (request planned (add_slot 1 talk none) (start planned.durable refl) refl)

events-Forward_example :
    Forward planned.durable (serve (change_status 1 registration_closed 4) planned).1.durable
events-Forward_example =
    events-Forward planned.durable (serve (change_status 1 registration_closed 4) planned).1.durable
      (next planned (change_status 1 registration_closed 4) nothing refl)

-- A second talk in the hall with the same beamer is refused; with another beamer it is accepted,
-- since the venue and the resource must both agree in find_overlapping.
same_beamer :
    (add_schedule_item 1
      (record talk { start_time = some 350; end_time = some 450 })
      none
      (again after_talk)).0
    ≡ err (schedule_conflict "VENUE_OVERLAP")
unfolding add_schedule_item get_event_or_raise synchronize_registration_state synchronize_with
    get_event validate_schedule check_venue get_venue parse_availability check_overlap
    lock_conflict_scope find_overlapping is_conflict refuse_conflicts uuid4 modify commit
    acquire_advisory_lock write_audit_log get_configuration to_utc ◌>>=◌
same_beamer = refl

other_beamer :
    (add_schedule_item 1
      (record talk { start_time = some 350; end_time = some 450; resource_key = some "screen" })
      none
      (again after_talk)).0
    ≡ ok (
        new_item 1001 1
          (record talk { start_time = some 350; end_time = some 450; resource_key = some "screen" })
          (350, 450))
unfolding add_schedule_item get_event_or_raise synchronize_registration_state synchronize_with
    get_event validate_schedule check_venue get_venue parse_availability check_overlap
    lock_conflict_scope find_overlapping is_conflict refuse_conflicts uuid4 modify commit
    acquire_advisory_lock write_audit_log get_configuration to_utc ◌>>=◌
other_beamer = refl

not_yet_live :
    (transition_status 1 published 4 planned).0
    ≡ err (invalid_event_status_transition open_event.status published)
unfolding transition_status get_event_or_raise synchronize_registration_state synchronize_with
    get_event get_configuration ◌>>=◌
not_yet_live = refl
