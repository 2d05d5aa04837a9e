-- ===== src/Registrations/CreationTests.antt =====
-- Runs of create_registration, one after the other.
use event_platform_backend.Prelude.{ℕ, ◌+◌, ◌*◌, ◌≡◌, refl, true, none, [], ◌∷◌, String}
use event_platform_backend.Models.Tickets.{BarcodePayload}
use event_platform_backend.Registrations.Capacity.{
  RegistrationRequest, create, handle, start, request, never_overbooked,
}
use event_platform_backend.Registrations.Creation.{
  create_registration, add_participant, add_participants, add_registration, complete, fill_event,
  issue_if_due, submit,
}
use event_platform_backend.Registrations.Intake.{
  RegistrationIn, check_captain, check_team_reference,
}
use event_platform_backend.Registrations.Repository.{
  count_active_for_event, find_duplicate, get_registration, update_registration,
}
use event_platform_backend.Registrations.Seats.{WithinCapacity}
use event_platform_backend.Registrations.Acceptance.{Accepted, create_atomic}
use event_platform_backend.Session.Triples.{Ends}
use event_platform_backend.Session.Views.{rows, Committed}
use event_platform_backend.Scenario.{seats, session}
use event_platform_backend.Session.{
  err, Session, ◌>>=◌, acquire_event_capacity_lock, now, uuid4, acquire_advisory_lock, attempt,
  commit, modify, token_hex, write_audit_log,
}
use event_platform_backend.Session.Errors.{integrity_error, invalid_registration_state}
use event_platform_backend.Store.{Db}
use event_platform_backend.Registrations.Window.{
  get_event_or_raise, get_config_or_raise, ensure_registration_open, ensure_no_duplicate,
  ensure_capacity, close_event, ensure_seats, refuse_full, refuse_late, update_event,
}
use event_platform_backend.Events.{get_event, get_configuration}
use event_platform_backend.Guardians.{ensure_child}
use event_platform_backend.ConfigEngine.{
  parse_registration_end_at, calculate_registration_availability,
}
use event_platform_backend.ConfigEngine.Service.{
  validate_registration, event_date, field_schemas_of,
}
use event_platform_backend.ConfigEngine.Rules.{
  check_eligibility, validate_field_answers, document_errors, team_size_errors,
}
use event_platform_backend.ConfigEngine.Dates.{date_of, date_of_day}
use event_platform_backend.Notifications.Warnings.{
  queue_capacity_warning, warn_each, warning_recipients,
}
use event_platform_backend.Notifications.{create_notification}
use event_platform_backend.Tickets.Issue.{
  create_each, create_ticket, create_unless, existing_tickets, issue_for,
  issue_registration_tickets, issue_ticket_for_registration,
}
use event_platform_backend.Tickets.Repository.{list_by_registration_id}

abbrev code_of : BarcodePayload → String
code_of payload = payload.ticket_code

abbrev single : RegistrationIn
single = record {
  sent = record {
    participation_type = "individual";
    date_of_birth = none;
    documents_provided = [];
    answers = [];
  };
  child_id = none;
  team_id = none;
  participants =
      record { user_id = none; full_name = "Ann"; date_of_birth = none; is_captain = true } ∷ [];
  team_member_count = none;
}

-- A session on what is stored, which draws other primary keys than the n sessions before it.
abbrev next : ℕ → Db → Session
next n d = record (session d) { uuids = λ k. 1000 * (n + 1) + k }

abbrev no_seats : Db
no_seats = seats []

abbrev first : Session
first = next 0 no_seats

abbrev request_of : ℕ → RegistrationRequest code_of
request_of user_id = create 1 user_id single

abbrev served : ℕ → ℕ → Db → Db
served n user_id d = (handle code_of (request_of user_id) (next n d)).1.durable

-- Two seats are taken, which closes the event; then a request is refused, and so is one whose row
-- would have a key that is taken.
three_requests :
    (count_active_for_event 1 (served 2 9 (served 1 8 (served 0 7 no_seats))) ≡ 2)
    × ((create_registration code_of 1 9 single (next 2 (served 1 8 (served 0 7 no_seats)))).0
        ≡ err (invalid_registration_state "Registration is closed for this event."))
    × ((create_registration code_of 1 8 single (next 0 (served 0 7 no_seats))).0
        ≡ err integrity_error)
    × ((served 0 7 no_seats).payments ≡ [])
unfolding create_registration count_active_for_event ◌>>=◌ get_event_or_raise get_event
    get_config_or_raise get_configuration ensure_child acquire_event_capacity_lock
    ensure_registration_open now parse_registration_end_at calculate_registration_availability
    ensure_no_duplicate find_duplicate ensure_capacity validate_registration check_eligibility
    validate_field_answers uuid4 date_of date_of_day document_errors team_size_errors event_date
    field_schemas_of queue_capacity_warning warn_each warning_recipients create_notification
    add_participant add_participants add_registration check_captain check_team_reference complete
    fill_event issue_if_due submit get_registration update_registration close_event ensure_seats
    refuse_full refuse_late update_event acquire_advisory_lock attempt commit modify token_hex
    write_audit_log create_each create_ticket create_unless existing_tickets issue_for
    issue_registration_tickets issue_ticket_for_registration list_by_registration_id
three_requests = (refl, refl, refl, refl)

never_overbooked_example : WithinCapacity (served 1 8 (served 0 7 no_seats))
never_overbooked_example = never_overbooked code_of (served 1 8 (served 0 7 no_seats)) (
    request (next 1 (served 0 7 no_seats)) (request_of 8)
      (request first (request_of 7) (start no_seats refl) refl tt) refl (rw three_requests.3 tt))

create_atomic_example :
    Ends
      (λ _ t. Accepted 1 7 single (rows first) × Committed t)
      (λ t. t.durable.registrations ≡ first.durable.registrations)
      (create_registration code_of 1 7 single first)
create_atomic_example = create_atomic code_of 1 7 single first refl
