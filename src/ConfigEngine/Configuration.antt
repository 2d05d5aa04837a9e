-- ===== src/ConfigEngine/Configuration.antt =====
-- ConfigEngineService (app/modules/config_engine/service.py): the configuration of an event and its
-- forms, as the console writes them, and what is shown of a configuration.
use event_platform_backend.Prelude.{
  ℕ, ◌-◌, Bool, true, false, not, Option, none, some, List, String, ℤ, pos, negsuc,
}
use event_platform_backend.Models.Events.{
  Event, EventConfiguration, EventFieldSchema, Details, DateTime, RawDate, iso,
}
use event_platform_backend.ConfigEngine.{
  RegistrationAvailability, closed, parse_registration_end_at, parse_cancellation_deadline_at,
  calculate_registration_availability,
}
use event_platform_backend.ConfigEngine.Rules.{Rules, Field}
use event_platform_backend.ConfigEngine.Service.{field_schemas_of}
use event_platform_backend.Events.{get_event, get_configuration}
use event_platform_backend.Registrations.Repository.{count_active_for_event}
use event_platform_backend.Session.{
  Action, pure, raise_if, lift, scalar_one_or_none, query, modify, now, uuid4, commit, ◌>>=◌, ◌>>◌,
}
use event_platform_backend.Session.Errors.{integrity_error}
use event_platform_backend.Store.{Db, configuration_key, event_key, field_schema_key}
use event_platform_backend.Table.{get, update, add}

-- The fields of upsert_configuration: the router passes every one.
pub record ConfigurationIn : Type 0 where
  pub participation_types : List String
  pub fee_amount : Option ℕ
  pub currency : String
  pub capacity : Option ℤ
  pub volunteer_open : Bool
  pub approval_required : Bool
  pub registration_end_at : Option DateTime
  pub cancellation_deadline_at : Option DateTime
  pub details : Details
  pub rules : Rules
  pub discount_rules : Option String

-- The value under a key of `details` that a date of the request replaces, by its isoformat().
abbrev pub dated : Option DateTime → RawDate → RawDate
dated none old = old
dated (some t) old = iso t

abbrev pub merged_details : ConfigurationIn → Details
merged_details fields = record fields.details {
  registration_end_at = dated fields.registration_end_at fields.details.registration_end_at;
  cancellation_deadline_at =
      dated fields.cancellation_deadline_at fields.details.cancellation_deadline_at;
}

-- setattr(existing, key, value), for each field.
abbrev pub with_fields : ConfigurationIn → EventConfiguration → EventConfiguration
with_fields fields config = record config {
  participation_types = fields.participation_types;
  fee_amount = fields.fee_amount;
  currency = fields.currency;
  capacity = fields.capacity;
  volunteer_open = fields.volunteer_open;
  approval_required = fields.approval_required;
  discount_rules = fields.discount_rules;
  details = some (merged_details fields);
  rules = fields.rules;
}

abbrev pub new_configuration : ℕ → ℕ → ConfigurationIn → EventConfiguration
new_configuration id event_id fields = record {
  id = id;
  event_id = event_id;
  participation_types = fields.participation_types;
  fee_amount = fields.fee_amount;
  currency = fields.currency;
  capacity = fields.capacity;
  volunteer_open = fields.volunteer_open;
  approval_required = fields.approval_required;
  discount_rules = fields.discount_rules;
  details = some (merged_details fields);
  rules = fields.rules;
}

unfoldable pub update_configuration : ℕ → (EventConfiguration → EventConfiguration) → Db → Db
update_configuration event_id f d = record d { configurations = update event_id f d.configurations }

unfoldable pub add_configuration : EventConfiguration → Db → Db
add_configuration config d = record d { configurations = add config d.configurations }

-- A row for the foreign key.
abbrev pub is_found : Option Event → Bool
is_found none = false
is_found (some event) = true

-- EventConfigurationRepository.upsert, from the row that exists. The flush of a new row fails where
-- the event is missing.
unfoldable pub upsert_existing :
    ℕ → ConfigurationIn → Option EventConfiguration → Action EventConfiguration
unfolding update_configuration add_configuration
upsert_existing event_id fields (some existing) = do
  modify (update_configuration event_id (with_fields fields))
  pure (with_fields fields existing)
upsert_existing event_id fields none = do
  id ← uuid4
  referenced ← query (λ d. is_found (get event_id d.events))
  raise_if (not referenced) integrity_error
  modify (add_configuration (new_configuration id event_id fields))
  pure (new_configuration id event_id fields)

unfoldable pub upsert_configuration : ℕ → ConfigurationIn → Action EventConfiguration
unfolding upsert_existing
upsert_configuration event_id fields = do
  existing ← query (get_configuration event_id)
  config ← upsert_existing event_id fields existing
  commit
  pure config

unfoldable update_schema : ℕ → (EventFieldSchema → EventFieldSchema) → Db → Db
update_schema id f d = record d { field_schemas = update id f d.field_schemas }

unfoldable pub add_schema : EventFieldSchema → Db → Db
add_schema schema d = record d { field_schemas = add schema d.field_schemas }

-- EventFieldSchemaRepository.upsert, from the row that exists.
unfoldable pub upsert_schema :
    ℕ → String → List Field → Option EventFieldSchema → Action EventFieldSchema
unfolding update_schema add_schema
upsert_schema event_id participation_type fields (some existing) = do
  modify (update_schema existing.id λ f. record f { fields = fields })
  pure (record existing { fields = fields })
upsert_schema event_id participation_type fields none = do
  id ← uuid4
  referenced ← query (λ d. is_found (get event_id d.events))
  raise_if (not referenced) integrity_error
  modify (
      add_schema (record {
        id = id;
        event_id = event_id;
        participation_type = participation_type;
        fields = fields;
      }))
  pure (record {
    id = id;
    event_id = event_id;
    participation_type = participation_type;
    fields = fields;
  })

unfoldable pub upsert_field_schema : ℕ → String → List Field → Action EventFieldSchema
unfolding upsert_schema field_schemas_of
upsert_field_schema event_id participation_type fields = do
  rows ← query (field_schemas_of event_id participation_type)
  existing ← lift (scalar_one_or_none rows)
  schema ← upsert_schema event_id participation_type fields existing
  commit
  pure schema

-- An EventConfigurationOut, with the configuration that it is taken from.
pub record ConfigurationOut : Type 0 where
  pub config : EventConfiguration
  pub registration_end_at : Option ℕ
  pub cancellation_deadline_at : Option ℕ
  pub registered_count : ℕ
  pub available_capacity : Option ℕ
  pub registration_status : RegistrationAvailability

-- max(capacity - registered_count, 0)
abbrev pub available : Option ℤ → ℕ → Option ℕ
available none n = none
available (some (pos c)) n = some (c - n)
available (some (negsuc c)) n = some 0

-- The state of the window of an event, which is closed where there is no event.
unfoldable pub window_of : Option Event → EventConfiguration → ℕ → Action RegistrationAvailability
window_of none config n = pure closed
window_of (some event) config n = do
  t ← now
  pure (
      calculate_registration_availability event.status config.capacity n
        (parse_registration_end_at config.details) t)

unfoldable pub response_of : ℕ → Option EventConfiguration → Action (Option ConfigurationOut)
unfolding window_of
response_of event_id none = pure none
response_of event_id (some config) = do
  event ← query (get_event event_id)
  n ← query (count_active_for_event event_id)
  window ← window_of event config n
  pure (
      some (record {
        config = config;
        registration_end_at = parse_registration_end_at config.details;
        cancellation_deadline_at = parse_cancellation_deadline_at config.details;
        registered_count = n;
        available_capacity = available config.capacity n;
        registration_status = window;
      }))

unfoldable pub configuration_response : ℕ → Action (Option ConfigurationOut)
unfolding response_of
configuration_response event_id = do
  config ← query (get_configuration event_id)
  response_of event_id config

-- The endpoint that writes a configuration and shows it.
unfoldable pub put_configuration : ℕ → ConfigurationIn → Action (Option ConfigurationOut)
unfolding upsert_configuration configuration_response
put_configuration event_id fields =
    upsert_configuration event_id fields >> configuration_response event_id
