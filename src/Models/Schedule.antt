-- ===== src/Models/Schedule.antt =====
-- The columns of Venue and ScheduleItem in app/modules/events/models.py.
use event_platform_backend.Prelude.{ℕ, Bool, true, false, Option, List, String, ℤ}
use event_platform_backend.Models.Events.{DateTime}

pub data ScheduleStatus : Type 0 where
  scheduled cancelled completed : ScheduleStatus

-- An element of the JSON list `availability`: both times are texts that datetime.fromisoformat
-- reads, or something is missing or refused.
pub data RawWindow : Type 0 where
  times : DateTime → DateTime → RawWindow
  malformed_times : RawWindow

pub record Venue : Type 0 where
  pub id : ℕ
  pub event_id : ℕ
  pub name : String
  pub capacity : Option ℤ
  pub availability : List RawWindow
  pub is_shared : Bool

pub record ScheduleItem : Type 0 where
  pub id : ℕ
  pub event_id : ℕ
  pub venue_id : Option ℕ
  pub title : String
  pub start_time : ℕ
  pub end_time : Option ℕ
  pub resource_key : Option String
  pub expected_capacity : Option ℕ
  pub status : ScheduleStatus

abbrev pub is_cancelled_item : ScheduleStatus → Bool
is_cancelled_item cancelled = true
is_cancelled_item _ = false

abbrev pub is_scheduled : ScheduleStatus → Bool
is_scheduled scheduled = true
is_scheduled _ = false
