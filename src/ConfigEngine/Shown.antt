-- ===== src/ConfigEngine/Shown.antt =====
-- ConfigEngineService (app/modules/config_engine/service.py): that a configuration is shown as it was
-- written.
use event_platform_backend.Prelude.{ℕ, ◌≡◌, Option, none, some}
use event_platform_backend.Models.Events.{EventConfiguration, DateTime, RawDate, Details}
use event_platform_backend.ConfigEngine.{
  to_utc, parse_registration_end_at, parse_cancellation_deadline_at,
}
use event_platform_backend.ConfigEngine.Configuration.{ConfigurationIn, ConfigurationOut, available}
use event_platform_backend.Events.{get_configuration}
use event_platform_backend.Registrations.Repository.{count_active_for_event}
use event_platform_backend.Session.{Session}
use event_platform_backend.Session.Views.{tables}
use event_platform_backend.Store.{Db, configuration_key, event_key}
use event_platform_backend.Table.{get}

-- The instant that is shown for a date of the request, where one is given.
abbrev pub Shows : Option DateTime → Option ℕ → Type 0
Shows none shown = Unit
Shows (some t) shown = shown ≡ some (to_utc t)

-- Where no date is given, the value of `details` stands.
abbrev pub Keeps : Option DateTime → RawDate → RawDate → Type 0
Keeps none sent stored = stored ≡ sent
Keeps (some t) sent stored = Unit

-- The details are those of the request, but for the dates that it gives.
pub record HasDetails (fields : ConfigurationIn) (config : EventConfiguration) : Type 0 where
  pub stored : Details
  pub held : config.details ≡ some stored
  pub timeout :
      stored.waitlist_promotion_timeout_minutes ≡ fields.details.waitlist_promotion_timeout_minutes
  pub end :
      Keeps fields.registration_end_at fields.details.registration_end_at stored.registration_end_at
  pub deadline :
      Keeps fields.cancellation_deadline_at fields.details.cancellation_deadline_at
        stored.cancellation_deadline_at

-- A configuration has the fields of the request.
pub record Agrees (fields : ConfigurationIn) (config : EventConfiguration) : Type 0 where
  pub capacity : config.capacity ≡ fields.capacity
  pub fee_amount : config.fee_amount ≡ fields.fee_amount
  pub currency : config.currency ≡ fields.currency
  pub participation_types : config.participation_types ≡ fields.participation_types
  pub volunteer_open : config.volunteer_open ≡ fields.volunteer_open
  pub discount_rules : config.discount_rules ≡ fields.discount_rules
  pub details : HasDetails fields config
  pub approval_required : config.approval_required ≡ fields.approval_required
  pub rules : config.rules ≡ fields.rules
  pub end : Shows fields.registration_end_at (parse_registration_end_at config.details)
  pub deadline :
      Shows fields.cancellation_deadline_at (parse_cancellation_deadline_at config.details)

-- What is shown is what is stored for the event, has the fields of the request, and counts the seats.
pub record ShownAs (fields : ConfigurationIn) (event_id : ℕ) (out : Option ConfigurationOut)
    (t : Session) : Type 0 where
  pub shown : ConfigurationOut
  pub answered : out ≡ some shown
  pub stored : get_configuration event_id t.durable ≡ some shown.config
  pub agrees : Agrees fields shown.config
  pub end : Shows fields.registration_end_at shown.registration_end_at
  pub deadline : Shows fields.cancellation_deadline_at shown.cancellation_deadline_at
  pub counted : shown.registered_count ≡ count_active_for_event event_id t.durable
  pub seats : shown.available_capacity ≡ available fields.capacity shown.registered_count

-- Neither a configuration of the event nor the event is there, and nothing is written.
abbrev pub NoEvent : ℕ → Db × Db → Session → Type 0
NoEvent event_id T s =
    (get_configuration event_id T.0 ≡ none) × (get event_id T.0.events ≡ none) × (tables s ≡ T)

module _ (fields : ConfigurationIn) where
  module _ (event_id : ℕ) (d l : Db) where
    abbrev Has : EventConfiguration → Session → Type 0
    Has c s = Agrees fields c × (get_configuration event_id s.db ≡ some c)

    abbrev Missing : Session → Type 0
    Missing = NoEvent event_id (d, l)
