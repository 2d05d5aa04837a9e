-- ===== src/Events/Schedule.antt =====
-- EventService and ScheduleRepository (app/modules/events): the schedule of an event. A new or moved
-- item is checked against the event's dates, the venue and the other items.
use event_platform_backend.Prelude.{
  ℕ, Bool, true, false, not, ◌&&◌, Option, none, some, List, [], ◌∷◌, String, str_eq, ◌==◌, ltb,
  leb, opt_eq, select, if◌then◌else◌, ℤ, pos, leb_int,
}
use event_platform_backend.ConfigEngine.{to_utc}
use event_platform_backend.Events.{get_event}
use event_platform_backend.Models.Events.{Event, DateTime, naive, aware}
use event_platform_backend.Models.Schedule.{
  Venue, RawWindow, times, malformed_times, ScheduleItem, is_cancelled_item,
}
use event_platform_backend.Payments.Repository.{opt_str_eq}
use event_platform_backend.Session.{
  Result, ok, err, Action, pure, raise, raise_if, or_raise, query, lift, LockKey,
  acquire_advisory_lock, ◌>>=◌, ◌>>◌,
}
use event_platform_backend.Session.Errors.{
  venue_not_found, schedule_conflict, validation_error, type_error,
}
use event_platform_backend.Store.{Db, venue_key, schedule_item_key}
use event_platform_backend.Table.{get}

-- The keyword arguments of add_schedule_item, and the merged fields of an update.
pub record ScheduleFields : Type 0 where
  pub venue_id : Option ℕ
  pub title : String
  pub start_time : Option ℕ
  pub end_time : Option ℕ
  pub resource_key : Option String
  pub expected_capacity : Option ℕ

-- The end of a window is not after its start: a TypeError between a naive and an aware time.
abbrev pub ends_early : DateTime → DateTime → Result Bool
ends_early (naive s) (naive e) = ok (leb e s)
ends_early (aware s o) (aware e p) = ok (leb (to_utc (aware e p)) (to_utc (aware s o)))
ends_early _ _ = err type_error

abbrev pub read_window : RawWindow → Action (DateTime × DateTime)
read_window malformed_times =
    raise
      (validation_error "Venue availability windows must contain valid start_time and end_time.")
read_window (times s e) = do
  early ← lift (ends_early s e)
  raise_if early (validation_error "Venue availability window end must be after its start.")
  pure (s, e)

-- _parse_availability
unfoldable pub parse_availability : List RawWindow → Action (List (DateTime × DateTime))
parse_availability [] = pure []
parse_availability (w ∷ ws) = do x ← read_window w; rest ← parse_availability ws; pure (x ∷ rest)

-- any(start >= window_start and end <= window_end for ... in windows), for aware `start` and `end`.
abbrev pub within_any : ℕ → ℕ → List (DateTime × DateTime) → Result Bool
within_any s e [] = ok false
within_any s e ((naive a, b) ∷ ws) = err type_error
within_any s e ((aware a o, b) ∷ ws) =
    if leb (to_utc (aware a o)) s && leb e (to_utc b) then ok true else within_any s e ws

-- windows and not any(...)
abbrev pub outside : ℕ → ℕ → List (DateTime × DateTime) → Result Bool
outside s e [] = ok false
outside s e (w ∷ ws) = elim (within_any s e (w ∷ ws)) [ ok b ↦ ok (not b) | err x ↦ err x ]

-- venue.event_id != event.id and not venue.is_shared: then it is not for this event.
abbrev pub usable_venue : ℕ → Option Venue → Option Venue
usable_venue event_id none = none
usable_venue event_id (some v) =
    if not (v.event_id == event_id) && not v.is_shared then none else some v

abbrev pub exceeds : Option ℤ → Option ℕ → Bool
exceeds none expected = false
exceeds (some c) none = false
exceeds (some c) (some n) = not (leb_int (pos n) c)

unfoldable pub get_venue : ℕ → Db → Option Venue
get_venue venue_id d = get venue_id d.venues

-- The tests of the venue.
unfoldable pub check_venue : ℕ → ℕ → ℕ → Option ℕ → Option ℕ → Action (Unit {0})
unfolding get_venue parse_availability
check_venue event_id s e expected none = pure tt
check_venue event_id s e expected (some i) = do
  row ← query (get_venue i)
  venue ←
      or_raise (usable_venue event_id row) (venue_not_found "Venue is not available to this event.")
  raise_if (exceeds venue.capacity expected) (schedule_conflict "CAPACITY_EXCEEDED")
  windows ← parse_availability venue.availability
  away ← lift (outside s e windows)
  raise_if away (schedule_conflict "VENUE_UNAVAILABLE")

-- start < event.start_date or end > event.end_date
abbrev pub outside_event : Event → ℕ → ℕ → Result Bool
outside_event event s e =
    if ltb s event.start_date
    then ok true
    else elim event.end_date [ none ↦ err type_error | some u ↦ ok (ltb u e) ]

-- if resource_key: an empty key is none.
abbrev pub scope_key : Option String → Option String
scope_key none = none
scope_key (some k) = if str_eq k "" then none else some k

abbrev pub lock_venue : Option ℕ → Action (Unit {0})
lock_venue none = pure tt
lock_venue (some i) = acquire_advisory_lock (LockKey.venue i)

abbrev pub lock_resource : Option String → Action (Unit {0})
lock_resource none = pure tt
lock_resource (some k) = acquire_advisory_lock (LockKey.resource k)

-- lock_conflict_scope, on PostgreSQL.
unfoldable pub lock_conflict_scope : Option ℕ → Option String → Action (Unit {0})
lock_conflict_scope venue_id resource_key = do
  lock_venue venue_id
  lock_resource (scope_key resource_key)

abbrev pub is_live_event : Option Event → Bool
is_live_event none = false
is_live_event (some e) = true

-- ScheduleItem.end_time > s, where NULL is no match.
abbrev pub ends_after : Option ℕ → ℕ → Bool
ends_after none s = false
ends_after (some e) s = ltb s e

abbrev pub in_venue : Option ℕ → ScheduleItem → Bool
in_venue none i = true
in_venue (some v) i = opt_eq i.venue_id (some v)

abbrev pub on_resource : Option String → ScheduleItem → Bool
on_resource none i = true
on_resource (some k) i = opt_str_eq i.resource_key (some k)

abbrev pub is_excluded : Option ℕ → ScheduleItem → Bool
is_excluded none i = false
is_excluded (some x) i = i.id == x

-- filters, the join with the events that are not deleted, and scopes, all of which must hold.
unfoldable pub is_conflict : Option ℕ → Option String → ℕ → ℕ → Option ℕ → Db → ScheduleItem → Bool
is_conflict venue_id key s e exclude_id d i =
    is_live_event (get_event i.event_id d)
    && not (is_cancelled_item i.status)
    && ltb i.start_time e
    && ends_after i.end_time s
    && not (is_excluded exclude_id i)
    && in_venue venue_id i
    && on_resource key i

-- if not scopes: return []
abbrev pub is_scoped : Option ℕ → Option String → Bool
is_scoped none none = false
is_scoped _ _ = true

-- find_overlapping, as the rows of the table in its order; the code sorts them to name one.
unfoldable pub find_overlapping :
    Option ℕ → Option String → ℕ → ℕ → Option ℕ → Db → List ScheduleItem
unfolding is_conflict
find_overlapping venue_id resource_key s e exclude_id d =
    if is_scoped venue_id (scope_key resource_key)
    then select (is_conflict venue_id (scope_key resource_key) s e exclude_id d) d.schedule_items
    else []

-- The reason_code of a conflict: every row found has the venue, if one was asked for.
abbrev pub overlap_reason : Option ℕ → String
overlap_reason none = "RESOURCE_OVERLAP"
overlap_reason (some v) = "VENUE_OVERLAP"

unfoldable pub refuse_conflicts : Option ℕ → List ScheduleItem → Action (Unit {0})
refuse_conflicts venue_id [] = pure tt
refuse_conflicts venue_id (i ∷ rest) = raise (schedule_conflict (overlap_reason venue_id))

-- The end of _validate_schedule.
unfoldable pub check_overlap : ScheduleFields → Option ℕ → ℕ → ℕ → Action (Unit {0})
unfolding lock_conflict_scope find_overlapping refuse_conflicts
check_overlap fields exclude_id s e = do
  lock_conflict_scope fields.venue_id fields.resource_key
  conflicts ← query (find_overlapping fields.venue_id fields.resource_key s e exclude_id)
  refuse_conflicts fields.venue_id conflicts

-- start is None or end is None or end <= start, otherwise both.
abbrev pub time_range : Option ℕ → Option ℕ → Option (ℕ × ℕ)
time_range (some s) (some e) = if leb e s then none else some (s, e)
time_range _ _ = none

-- _validate_schedule; the start and the end.
unfoldable pub validate_schedule : Event → ScheduleFields → Option ℕ → Action (ℕ × ℕ)
unfolding check_venue check_overlap
validate_schedule event fields exclude_id = do
  range ←
      or_raise (time_range fields.start_time fields.end_time)
        (schedule_conflict "INVALID_TIME_RANGE")
  away ← lift (outside_event event range.0 range.1)
  raise_if away (schedule_conflict "INVALID_TIME_RANGE")
  check_venue event.id range.0 range.1 fields.expected_capacity fields.venue_id
  check_overlap fields exclude_id range.0 range.1
  pure range
