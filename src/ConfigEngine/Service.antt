-- ===== src/ConfigEngine/Service.antt =====
-- ConfigEngineService.validate_registration (app/modules/config_engine/service.py).
use event_platform_backend.Prelude.{
  ℕ, ◌&&◌, Option, none, some, List, [], ◌++◌, String, str_eq, ◌==◌, select, ℤ,
}
use event_platform_backend.Models.Events.{Event, EventFieldSchema}
use event_platform_backend.Store.{Db}
use event_platform_backend.Events.{get_event, get_configuration}
use event_platform_backend.ConfigEngine.Dates.{date_of}
use event_platform_backend.ConfigEngine.Rules.{
  Date, Field, Answer, ValidationError, check_eligibility, validate_field_answers,
}
use event_platform_backend.Session.{
  Action, pure, query, lift, or_raise, now, scalar_one_or_none, ◌>>=◌,
}
use event_platform_backend.Session.Errors.{configuration_not_found}

-- What a participant sends with a registration.
pub record Submission : Type 0 where
  pub participation_type : String
  pub date_of_birth : Option Date
  pub documents_provided : List String
  pub answers : List (String × Answer)

-- The rows of EventFieldSchemaRepository.get_for_event_and_type.
unfoldable pub field_schemas_of : ℕ → String → Db → List EventFieldSchema
field_schemas_of event_id participation_type d =
    select (λ f. f.event_id == event_id && str_eq f.participation_type participation_type)
      d.field_schemas

abbrev pub fields_of : Option EventFieldSchema → List Field
fields_of none = []
fields_of (some schema) = schema.fields

-- event.start_date.date(), or date.today() of a server whose time zone is UTC.
unfoldable pub event_date : Option Event → Action Date
unfolding date_of
event_date none = do t ← now; pure (date_of t)
event_date (some event) = pure (date_of event.start_date)

-- validate_registration, whose Boolean says that the list is empty.
unfoldable pub validate_registration : ℕ → Submission → Option ℤ → Action (List ValidationError)
unfolding event_date field_schemas_of
validate_registration event_id sent team_member_count = do
  found ← query (get_configuration event_id)
  config ← or_raise found (
      configuration_not_found
        "This event has no configuration set up yet — nothing to validate against.")
  event ← query (get_event event_id)
  as_of ← event_date event
  rows ← query (field_schemas_of event_id sent.participation_type)
  schema ← lift (scalar_one_or_none rows)
  pure (
      check_eligibility config.rules as_of sent.date_of_birth team_member_count
        sent.documents_provided
      ++ validate_field_answers (fields_of schema) sent.answers)
