-- ===== src/Events/Timetable.antt =====
-- The schedule under the operations on events (app/modules/events/service.py).
use mathlib.Core.List.{Memᴰ}
use mathlib.Core.List.Memᴰ
use event_platform_backend.Prelude.{ℕ, ◌≡◌, refl, subst, Option, none, some, []}
use event_platform_backend.Events.Bookings.{
  NoDoubleBooking, free, removed-NoDoubleBooking, added-NoDoubleBooking, updated-NoDoubleBooking,
}
use event_platform_backend.Events.Calendar.{
  add_item, update_item, remove_item, new_item, moved, merged, called_off, ScheduleChanges,
  add_schedule_item, update_schedule_item, cancel_schedule_item, delete_schedule_item,
}
use event_platform_backend.Events.Schedule.{ScheduleFields}
use event_platform_backend.Events.Checks.{Holds-check_capacity}
use event_platform_backend.Events.Venues.{VenueFields, VenueChanges, add_venue, update_venue}
use event_platform_backend.Events.Status.{get_event_or_raise, transition_status, delete_event}
use event_platform_backend.Events.Validation.{
  Free, booking_rules, Holds-get_event, Holds-transition, Holds-delete_event, validate-Triple,
}
use event_platform_backend.Models.Events.{EventStatus}
use event_platform_backend.Session.{Session, Action, pure, ◌>>◌}
use event_platform_backend.Session.Checked.{Holds-Triple, Triple-new, Triple-write}
use event_platform_backend.Session.Invariants.{
  Holds, Safe, Holds-bind, Holds-raise_if, Holds-or_raise, Holds-query,
}
use event_platform_backend.Session.Triples.{Triple-bind}
use event_platform_backend.Store.{Db}

Safe-called_off : (i : ℕ) → Safe NoDoubleBooking (update_item i called_off)
Safe-called_off i = record {
  keeps = λ d h.
      updated-NoDoubleBooking i called_off d (λ z. refl) (λ z y iz my ny b. absurd (cc b.kept)) h;
}

Safe-remove_item : (i : ℕ) → Safe NoDoubleBooking (remove_item i)
Safe-remove_item i = record { keeps = λ d h. removed-NoDoubleBooking i d h }

Holds-cancel :
    (event i : ℕ) (actor : Option ℕ) → Holds NoDoubleBooking (cancel_schedule_item event i actor)
unfolding cancel_schedule_item
Holds-cancel event i actor = search (booking_rules, Holds-get_event, Safe-called_off) depth 20

Holds-delete :
    (event i : ℕ) (actor : Option ℕ) → Holds NoDoubleBooking (delete_schedule_item event i actor)
unfolding delete_schedule_item
Holds-delete event i actor = search (booking_rules, Holds-get_event, Safe-remove_item) depth 20

add-Free :
    (fields : ScheduleFields) (event_id : ℕ) (range : ℕ × ℕ) (id : ℕ) (d : Db)
    → NoDoubleBooking d
    → Free fields none range d
    → NoDoubleBooking (add_item (new_item id event_id fields range) d)
add-Free fields event_id range id d h nothing =
    added-NoDoubleBooking (new_item id event_id fields range) d
      (λ y my b. free d _ y range.0 range.1 none refl refl refl nothing my b) h

move-Free :
    (fields : ScheduleFields) (range : ℕ × ℕ) (i : ℕ) (d : Db)
    → NoDoubleBooking d
    → Free fields (some i) range d
    → NoDoubleBooking (update_item i (moved fields range) d)
move-Free fields range i d h nothing =
    updated-NoDoubleBooking i (moved fields range) d (λ z. refl)
      (λ z y iz my ny b. free d _ y range.0 range.1 (some i) refl refl ny nothing my b) h

Holds-add :
    (event : ℕ) (fields : ScheduleFields) (actor : Option ℕ)
    → Holds NoDoubleBooking (add_schedule_item event fields actor)
unfolding add_schedule_item
Holds-add event_id fields actor = Holds-bind NoDoubleBooking _ _ (Holds-get_event event_id) λ event.
    Holds-Triple NoDoubleBooking (
      Triple-bind _ _ (validate-Triple fields none event) λ range.
        Triple-new NoDoubleBooking (Free fields none range)
          (λ id. add_item (new_item id event_id fields range)) _ (add-Free fields event_id range)
          λ id. search booking_rules depth 9)

Holds-move :
    (event i : ℕ) (changes : ScheduleChanges) (actor : Option ℕ)
    → Holds NoDoubleBooking (update_schedule_item event i changes actor)
unfolding update_schedule_item
Holds-move event_id i changes actor =
    Holds-bind NoDoubleBooking _ _ (Holds-get_event event_id) λ event.
      Holds-bind NoDoubleBooking _ _ (Holds-query NoDoubleBooking _) λ row.
        Holds-bind NoDoubleBooking _ _ (Holds-or_raise NoDoubleBooking row _) λ item.
          Holds-bind NoDoubleBooking _ _ (Holds-raise_if NoDoubleBooking _ _) λ _.
            Holds-Triple NoDoubleBooking (
              Triple-bind _ _ (validate-Triple (merged item changes) (some item.id) event) λ range.
                Triple-write NoDoubleBooking (Free (merged item changes) (some item.id) range) _ _
                  (move-Free (merged item changes) range item.id) (search booking_rules depth 9))

Holds-add_venue :
    (event : ℕ) (fields : VenueFields) → Holds NoDoubleBooking (add_venue event fields)
unfolding add_venue
Holds-add_venue event fields = search (booking_rules, Holds-get_event) depth 16

Holds-update_venue :
    (event i : ℕ) (changes : VenueChanges) → Holds NoDoubleBooking (update_venue event i changes)
unfolding update_venue
Holds-update_venue event i changes =
    search (booking_rules, Holds-get_event, Holds-check_capacity) depth 20

-- A request on events, their venues and their schedules.
pub data ScheduleRequest : Type 0 where
  read : ℕ → ScheduleRequest
  change_status : ℕ → EventStatus → ℕ → ScheduleRequest
  remove_event : ℕ → ℕ → ScheduleRequest
  add_slot : ℕ → ScheduleFields → Option ℕ → ScheduleRequest
  move_slot : ℕ → ℕ → ScheduleChanges → Option ℕ → ScheduleRequest
  cancel_slot delete_slot : ℕ → ℕ → Option ℕ → ScheduleRequest
  open_venue : ℕ → VenueFields → ScheduleRequest
  change_venue : ℕ → ℕ → VenueChanges → ScheduleRequest

abbrev pub serve : ScheduleRequest → Action (Unit {0})
serve (read event) = get_event_or_raise event >> pure tt
serve (change_status event status actor) = transition_status event status actor >> pure tt
serve (remove_event event actor) = delete_event event actor
serve (add_slot event fields actor) = add_schedule_item event fields actor >> pure tt
serve (move_slot event i changes actor) = update_schedule_item event i changes actor >> pure tt
serve (cancel_slot event i actor) = cancel_schedule_item event i actor >> pure tt
serve (delete_slot event i actor) = delete_schedule_item event i actor
serve (open_venue event fields) = add_venue event fields >> pure tt
serve (change_venue event i changes) = update_venue event i changes >> pure tt

serve-Holds : (r : ScheduleRequest) → Holds NoDoubleBooking (serve r)
serve-Holds (read event) = search (booking_rules, Holds-get_event)
serve-Holds (change_status event status actor) = search (booking_rules, Holds-transition)
serve-Holds (remove_event event actor) = Holds-delete_event event actor
serve-Holds (add_slot event fields actor) = search (booking_rules, Holds-add)
serve-Holds (move_slot event i changes actor) = search (booking_rules, Holds-move)
serve-Holds (cancel_slot event i actor) = search (booking_rules, Holds-cancel)
serve-Holds (delete_slot event i actor) = Holds-delete event i actor
serve-Holds (open_venue event fields) = search (booking_rules, Holds-add_venue)
serve-Holds (change_venue event i changes) = search (booking_rules, Holds-update_venue)

-- Requests, each in a session of its own that begins with what is stored, lead from tables without
-- schedule items to `l`; the clock and the new keys are arbitrary.
pub data Scheduled : Db → Type 0 where
  start : (d : Db) → d.schedule_items ≡ [] → Scheduled d
  request :
      (s : Session) (r : ScheduleRequest)
      → Scheduled s.durable
      → s.db ≡ s.durable
      → Scheduled (serve r s).1.durable

-- However requests on events, venues and schedules follow each other, no two of the stored items that are in
-- force, of whatever events, overlap in time with the same venue and the same resource, where at least
-- one of the two is given.
pub no_double_booking : (l : Db) → Scheduled l → NoDoubleBooking l
no_double_booking l (start d none_yet) = record {
  apart = λ x y mx my b. Memᴰ.not-nil (subst (Memᴰ x) none_yet mx);
}
no_double_booking l (request s r before fresh) =
    let stored : NoDoubleBooking s.durable = no_double_booking s.durable before in
    ((serve-Holds r).at s (rw fresh stored, stored)).1
