-- ===== src/Events/Venues.antt =====
-- EventService and VenueRepository (app/modules/events): the venues of an event.
use event_platform_backend.Prelude.{
  ℕ, Bool, false, not, ◌&&◌, ◌||◌, Option, none, some, List, [], ◌∷◌, String, ◌==◌, ltb, opt_eq,
  select, take, if◌then◌else◌, ℤ, pos, leb_int,
}
use event_platform_backend.Events.Calendar.{sent}
use event_platform_backend.Events.Schedule.{get_venue}
use event_platform_backend.Events.Status.{get_event_or_raise}
use event_platform_backend.Models.Schedule.{Venue, RawWindow, ScheduleItem, is_scheduled}
use event_platform_backend.Session.{
  Action, pure, raise_if, or_raise, query, modify, uuid4, commit, ◌>>=◌, ◌>>◌,
}
use event_platform_backend.Session.Errors.{venue_not_found, schedule_conflict}
use event_platform_backend.Store.{Db, venue_key}
use event_platform_backend.Table.{update, add}

-- The keyword arguments of add_venue.
pub record VenueFields : Type 0 where
  pub name : String
  pub capacity : Option ℤ
  pub availability : List RawWindow
  pub is_shared : Bool

abbrev pub add_venue_row : Venue → Db → Db
add_venue_row v d = record d { venues = add v d.venues }

-- Assignments to the attributes of a venue of the session.
abbrev pub update_venue_row : ℕ → (Venue → Venue) → Db → Db
update_venue_row i f d = record d { venues = update i f d.venues }

abbrev pub new_venue : ℕ → ℕ → VenueFields → Venue
new_venue id event_id fields = record {
  id = id;
  event_id = event_id;
  name = fields.name;
  capacity = fields.capacity;
  availability = fields.availability;
  is_shared = fields.is_shared;
}

unfoldable pub add_venue : ℕ → VenueFields → Action Venue
unfolding get_event_or_raise
add_venue event_id fields = do
  event ← get_event_or_raise event_id
  id ← uuid4
  modify (add_venue_row (new_venue id event_id fields))
  commit
  pure (new_venue id event_id fields)

-- The fields of an update that were sent.
pub record VenueChanges : Type 0 where
  pub name : Option String
  pub capacity : Option (Option ℤ)
  pub availability : Option (List RawWindow)
  pub is_shared : Option Bool

abbrev pub changed : VenueChanges → Venue → Venue
changed c v = record v {
  name = sent c.name v.name;
  capacity = sent c.capacity v.capacity;
  availability = sent c.availability v.availability;
  is_shared = sent c.is_shared v.is_shared;
}

abbrev pub venue_of_event : ℕ → Option Venue → Option Venue
venue_of_event event_id none = none
venue_of_event event_id (some v) = if v.event_id == event_id then some v else none

-- ORDER BY start_time, id
abbrev pub insert_slot : ScheduleItem → List ScheduleItem → List ScheduleItem
insert_slot i [] = i ∷ []
insert_slot i (x ∷ xs) =
    let rest = insert_slot i xs in
    if ltb i.start_time x.start_time || i.start_time == x.start_time && ltb i.id x.id
    then i ∷ x ∷ xs
    else x ∷ rest

abbrev pub sort_slots : List ScheduleItem → List ScheduleItem
sort_slots [] = []
sort_slots (i ∷ rest) = insert_slot i (sort_slots rest)

-- ScheduleRepository.page_for_event for the first page of 100 scheduled items.
unfoldable scheduled_page : ℕ → Db → List ScheduleItem
scheduled_page event_id d =
    take 100
      (sort_slots (select (λ i. i.event_id == event_id && is_scheduled i.status) d.schedule_items))

-- item.expected_capacity and item.expected_capacity > capacity
abbrev pub needs_more : ℤ → Option ℕ → Bool
needs_more c none = false
needs_more c (some n) = not (n == 0) && not (leb_int (pos n) c)

-- any(... for item in items if item.venue_id == venue_id)
abbrev pub any_above : ℤ → ℕ → List ScheduleItem → Bool
any_above c venue_id [] = false
any_above c venue_id (i ∷ rest) =
    opt_eq i.venue_id (some venue_id) && needs_more c i.expected_capacity
    || any_above c venue_id rest

-- The test of a new capacity.
unfoldable pub check_capacity : ℕ → ℕ → Option (Option ℤ) → Action (Unit {0})
unfolding scheduled_page
check_capacity event_id venue_id none = pure tt
check_capacity event_id venue_id (some none) = pure tt
check_capacity event_id venue_id (some (some c)) = do
  items ← query (scheduled_page event_id)
  raise_if (any_above c venue_id items) (schedule_conflict "CAPACITY_EXCEEDED")

unfoldable pub update_venue : ℕ → ℕ → VenueChanges → Action Venue
unfolding get_event_or_raise get_venue check_capacity
update_venue event_id venue_id changes = do
  event ← get_event_or_raise event_id
  row ← query (get_venue venue_id)
  venue ← or_raise (venue_of_event event_id row) (venue_not_found "Venue not found for this event.")
  check_capacity event_id venue_id changes.capacity
  modify (update_venue_row venue.id (changed changes))
  commit
  pure (changed changes venue)
