-- ===== src/Session/Errors.antt =====
-- The exceptions that the modelled services raise, by class, with their message.
use event_platform_backend.Prelude.{String, List}
use event_platform_backend.ConfigEngine.Rules.{ValidationError}
use event_platform_backend.Models.Events.{EventStatus}
use event_platform_backend.Models.Registrations.{RegistrationStatus}

pub data Error : Type 0 where
  -- app/modules/*/exceptions.py
  waitlist_not_found waitlist_conflict waitlist_permission waitlist_validation : String → Error
  child_profile_not_found guardian_authorization : String → Error
  event_not_found venue_not_found permission_denied validation_error : String → Error
  invalid_event_status_transition : EventStatus → EventStatus → Error
  -- ScheduleConflictError, with the reason_code of its details.
  schedule_conflict : String → Error
  registration_not_found duplicate_registration capacity_exceeded : String → Error
  invalid_registration_state registration_scope : String → Error
  -- InvalidRegistrationStateError: "Registration is already in '{status}' and cannot be ..."
  already_in : RegistrationStatus → String → Error
  -- InvalidRegistrationStateError, with the texts of these errors joined.
  registration_invalid : List ValidationError → Error
  configuration_not_found : String → Error
  payment_not_found invalid_payment_state invalid_refund_state refund_not_found : String → Error
  duplicate_payment discount_code_not_found payment_verification_failed : String → Error
  ticket_not_found invalid_ticket_state duplicate_check_in : String → Error
  -- What a gateway client raises.
  gateway_error : String → Error
  -- sqlalchemy.exc.MultipleResultsFound, and the ValueError of int().
  multiple_results_found : Error
  -- sqlalchemy.exc.IntegrityError: a row breaks a constraint of the database.
  integrity_error : Error
  -- sqlalchemy.exc.InvalidRequestError of a refresh, and the KeyError of a subscript.
  invalid_request : Error
  key_error : String → Error
  value_error : Error
  -- The TypeError of comparing a naive with an aware datetime, or a datetime with None.
  type_error : Error
