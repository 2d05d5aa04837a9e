-- ===== src/Models/Events.antt =====
-- The columns of app/modules/events/models.py and app/modules/config_engine/models.py that the
-- modelled services read or write. Instants are microseconds since the start of the
-- year 1, in UTC; what Python answers before that, an OverflowError, is left out.
use event_platform_backend.Prelude.{ℕ, Bool, Option, List, String, ℤ}
use event_platform_backend.ConfigEngine.Rules.{Rules, Field}

pub data EventStatus : Type 0 where
  draft configured published registration_open registration_closed live completed archived :
      EventStatus

pub record Event : Type 0 where
  pub id : ℕ
  pub status : EventStatus
  pub start_date : ℕ
  pub end_date : Option ℕ
  pub deleted_at : Option ℕ
  pub organizer_user_id : Option ℕ

-- A Python datetime: naive, or aware with its offset from UTC.
pub data Offset : Type 0 where
  east west : ℕ → Offset

pub data DateTime : Type 0 where
  naive : ℕ → DateTime
  aware : ℕ → Offset → DateTime

-- A JSON value under a key that should hold a date: absent or falsy, a text that
-- datetime.fromisoformat reads, or one that it refuses.
pub data RawDate : Type 0 where
  falsy : RawDate
  iso : DateTime → RawDate
  malformed : RawDate

-- A JSON value that is passed to int(): the key is absent, int() returns, or int() raises.
pub data RawInt : Type 0 where
  absent : RawInt
  number : ℤ → RawInt
  not_a_number : RawInt

pub record Details : Type 0 where
  pub registration_end_at : RawDate
  pub cancellation_deadline_at : RawDate
  pub waitlist_promotion_timeout_minutes : RawInt

pub record EventConfiguration : Type 0 where
  pub id : ℕ
  pub event_id : ℕ
  pub participation_types : List String
  -- Numeric(10, 2), in hundredths.
  pub fee_amount : Option ℕ
  pub currency : String
  pub capacity : Option ℤ
  pub volunteer_open : Bool
  pub approval_required : Bool
  -- NULL and {} read the same.
  pub details : Option Details
  pub rules : Rules
  -- Its JSON text: nothing here reads it.
  pub discount_rules : Option String

pub record EventFieldSchema : Type 0 where
  pub id : ℕ
  pub event_id : ℕ
  pub participation_type : String
  pub fields : List Field
