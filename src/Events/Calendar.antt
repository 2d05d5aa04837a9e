-- ===== src/Events/Calendar.antt =====
-- EventService (app/modules/events/service.py): the operations on the schedule of an event.
use event_platform_backend.Prelude.{ℕ, not, Option, none, some, String, ◌==◌, if◌then◌else◌}
use event_platform_backend.Events.Schedule.{ScheduleFields, validate_schedule}
use event_platform_backend.Events.Status.{get_event_or_raise}
use event_platform_backend.Models.Schedule.{ScheduleItem, ScheduleStatus, is_cancelled_item}
use event_platform_backend.Session.{
  Action, pure, raise_if, or_raise, query, modify, uuid4, commit, write_audit_log, ◌>>=◌, ◌>>◌,
}
use event_platform_backend.Session.Errors.{validation_error}
use event_platform_backend.Store.{Db, schedule_item_key}
use event_platform_backend.Table.{get, update, add, remove}

abbrev pub add_item : ScheduleItem → Db → Db
add_item i d = record d { schedule_items = add i d.schedule_items }

-- Assignments to the attributes of an item of the session.
abbrev pub update_item : ℕ → (ScheduleItem → ScheduleItem) → Db → Db
update_item i f d = record d { schedule_items = update i f d.schedule_items }

abbrev pub remove_item : ℕ → Db → Db
remove_item i d = record d { schedule_items = remove i d.schedule_items }

abbrev pub of_event : ℕ → Option ScheduleItem → Option ScheduleItem
of_event event_id none = none
of_event event_id (some i) = if i.event_id == event_id then some i else none

-- ScheduleRepository.get_for_event
unfoldable get_item : ℕ → ℕ → Db → Option ScheduleItem
get_item event_id schedule_id d = of_event event_id (get schedule_id d.schedule_items)

abbrev pub new_item : ℕ → ℕ → ScheduleFields → ℕ × ℕ → ScheduleItem
new_item id event_id fields range = record {
  id = id;
  event_id = event_id;
  venue_id = fields.venue_id;
  title = fields.title;
  start_time = range.0;
  end_time = some range.1;
  resource_key = fields.resource_key;
  expected_capacity = fields.expected_capacity;
  status = ScheduleStatus.scheduled;
}

unfoldable pub add_schedule_item : ℕ → ScheduleFields → Option ℕ → Action ScheduleItem
unfolding get_event_or_raise validate_schedule
add_schedule_item event_id fields actor_user_id = do
  event ← get_event_or_raise event_id
  range ← validate_schedule event fields none
  id ← uuid4
  modify (add_item (new_item id event_id fields range))
  write_audit_log "schedule" id "created" actor_user_id
  commit
  pure (new_item id event_id fields range)

-- The fields of an update that were sent; the inner value may be null.
pub record ScheduleChanges : Type 0 where
  pub venue_id : Option (Option ℕ)
  pub title : Option String
  pub start_time : Option (Option ℕ)
  pub end_time : Option (Option ℕ)
  pub resource_key : Option (Option String)
  pub expected_capacity : Option (Option ℕ)

abbrev pub sent {ℓ} : {A : Type ℓ} → Option A → A → A
sent none old = old
sent (some new) old = new

-- merged
abbrev pub merged : ScheduleItem → ScheduleChanges → ScheduleFields
merged i c = record {
  venue_id = sent c.venue_id i.venue_id;
  title = sent c.title i.title;
  start_time = sent c.start_time (some i.start_time);
  end_time = sent c.end_time i.end_time;
  resource_key = sent c.resource_key i.resource_key;
  expected_capacity = sent c.expected_capacity i.expected_capacity;
}

abbrev pub moved : ScheduleFields → ℕ × ℕ → ScheduleItem → ScheduleItem
moved fields range i = record i {
  venue_id = fields.venue_id;
  title = fields.title;
  start_time = range.0;
  end_time = some range.1;
  resource_key = fields.resource_key;
  expected_capacity = fields.expected_capacity;
}

unfoldable pub update_schedule_item : ℕ → ℕ → ScheduleChanges → Option ℕ → Action ScheduleItem
unfolding get_event_or_raise validate_schedule get_item
update_schedule_item event_id schedule_id changes actor_user_id = do
  event ← get_event_or_raise event_id
  row ← query (get_item event_id schedule_id)
  item ← or_raise row (validation_error "Schedule item not found for this event.")
  raise_if (is_cancelled_item item.status)
      (validation_error "Cancelled schedule items cannot be rescheduled.")
  range ← validate_schedule event (merged item changes) (some item.id)
  modify (update_item item.id (moved (merged item changes) range))
  write_audit_log "schedule" item.id "rescheduled" actor_user_id
  commit
  pure (moved (merged item changes) range item)

abbrev pub called_off : ScheduleItem → ScheduleItem
called_off i = record i { status = ScheduleStatus.cancelled }

unfoldable pub cancel_schedule_item : ℕ → ℕ → Option ℕ → Action ScheduleItem
unfolding get_event_or_raise get_item
cancel_schedule_item event_id schedule_id actor_user_id = do
  event ← get_event_or_raise event_id
  row ← query (get_item event_id schedule_id)
  item ← or_raise row (validation_error "Schedule item not found for this event.")
  modify (update_item item.id called_off)
  write_audit_log "schedule" item.id "cancelled" actor_user_id
  commit
  pure (called_off item)

unfoldable pub delete_schedule_item : ℕ → ℕ → Option ℕ → Action (Unit {0})
unfolding get_event_or_raise get_item
delete_schedule_item event_id schedule_id actor_user_id = do
  event ← get_event_or_raise event_id
  row ← query (get_item event_id schedule_id)
  item ← or_raise row (validation_error "Schedule item not found for this event.")
  raise_if (not (is_cancelled_item item.status))
      (validation_error "Cancel a schedule before deleting it.")
  modify (remove_item item.id)
  write_audit_log "schedule" schedule_id "deleted" actor_user_id
  commit
