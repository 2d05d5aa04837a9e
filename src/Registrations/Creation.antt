-- ===== src/Registrations/Creation.antt =====
-- RegistrationService.create_registration (app/modules/registrations/service.py), up to its commit
-- and the registration that it returns.
use event_platform_backend.Prelude.{
  ℕ, Bool, true, false, not, ◌&&◌, ◌||◌, Option, none, some, List, [], ◌∷◌, String, concat, ◌==◌,
  opt_eq, str_eq, if◌then◌else◌,
}
use event_platform_backend.Models.Events.{Event, EventConfiguration, registration_closed}
use event_platform_backend.Models.Registrations.{
  Registration, RegistrationParticipant, RegistrationStatus, started, pending_verification,
  pending_payment, approved,
}
use event_platform_backend.Models.Tickets.{BarcodePayload}
use event_platform_backend.Store.{Db, team_key, registration_key}
use event_platform_backend.Table.{get, add}
use event_platform_backend.ConfigEngine.{at_capacity, nearly_full, parse_cancellation_deadline_at}
use event_platform_backend.ConfigEngine.Rules.{ValidationError, provided}
use event_platform_backend.ConfigEngine.Service.{validate_registration}
use event_platform_backend.Guardians.{ensure_child}
use event_platform_backend.Notifications.Warnings.{queue_capacity_warning}
use event_platform_backend.Registrations.Decision.{is_free}
use event_platform_backend.Registrations.Repository.{
  count_active_for_event, get_registration, update_registration,
}
use event_platform_backend.Registrations.Window.{
  get_event_or_raise, get_config_or_raise, ensure_registration_open, ensure_no_duplicate,
  ensure_capacity, update_event, with_status, is_some,
}
use event_platform_backend.Tickets.Issue.{issue_ticket_for_registration}
use event_platform_backend.Session.{
  Action, pure, raise_if, query, modify, now, uuid4, commit, attempt, write_audit_log,
  acquire_event_capacity_lock, ◌>>=◌, ◌>>◌,
}
use event_platform_backend.Session.Errors.{
  invalid_registration_state, registration_invalid, integrity_error,
}
use event_platform_backend.Registrations.Intake.{
  ParticipantIn, RegistrationIn, check_team_reference, team_size_of,
}

abbrev pub new_registration : ℕ → ℕ → ℕ → RegistrationIn → EventConfiguration → ℕ → Registration
new_registration id event_id actor_id r config t = record {
  id = id;
  event_id = event_id;
  user_id = actor_id;
  child_id = r.child_id;
  team_id = r.team_id;
  participation_type = r.sent.participation_type;
  status = started;
  submitted_at = some t;
  approved_by = none;
  rejected_by = none;
  rejection_reason = none;
  checked_in_at = none;
  cancellation_deadline_at = parse_cancellation_deadline_at config.details;
  cancellation_requested_at = none;
  cancelled_at = none;
  cancelled_by = none;
  cancellation_reason = none;
}

-- uq_registration_identity on two rows, where NULL equals nothing.
abbrev pub same_identity : Registration → Registration → Bool
same_identity g h =
    g.event_id == h.event_id
    && g.user_id == h.user_id
    && is_some g.child_id
    && opt_eq g.child_id h.child_id
    && str_eq g.participation_type h.participation_type

abbrev pub identity_taken : Registration → List Registration → Bool
identity_taken g [] = false
identity_taken g (h ∷ hs) = same_identity g h || identity_taken g hs

-- The unique constraints of the table refuse the row.
abbrev pub is_refused : Registration → Db → Bool
is_refused g d = is_some (get g.id d.registrations) || identity_taken g d.registrations

unfoldable pub add_registration : Registration → Db → Db
add_registration g d = record d { registrations = add g d.registrations }

-- participant.get("user_id") or (actor.id if participant.get("is_captain") else None)
abbrev pub participant_user : ℕ → ParticipantIn → Option ℕ
participant_user actor_id p = elim p.user_id [
  | none ↦ if p.is_captain then some actor_id else none
  | some user_id ↦ some user_id
]

abbrev pub new_participant : ℕ → ℕ → ℕ → ParticipantIn → RegistrationParticipant
new_participant id registration_id actor_id p = record {
  id = id;
  registration_id = registration_id;
  user_id = participant_user actor_id p;
  full_name = p.full_name;
  date_of_birth = p.date_of_birth;
  is_captain = p.is_captain;
}

unfoldable pub add_participant : RegistrationParticipant → Db → Db
add_participant p d = record d { participants = add p d.participants }

unfoldable pub add_participants : ℕ → ℕ → List ParticipantIn → Action (Unit {0})
unfolding add_participant
add_participants registration_id actor_id [] = pure tt
add_participants registration_id actor_id (p ∷ ps) = do
  id ← uuid4
  modify (add_participant (new_participant id registration_id actor_id p))
  add_participants registration_id actor_id ps

abbrev pub first_status : EventConfiguration → RegistrationStatus
first_status config =
    if config.approval_required
    then pending_verification
    else if is_free config
    then approved
    else pending_payment

-- Closes the event with its last seat, and warns when four fifths are taken; what the warning raises
-- is logged only.
unfoldable pub fill_event : ℕ → Event → EventConfiguration → Action (Unit {0})
unfolding queue_capacity_warning
fill_event event_id event config = do
  active ← query (count_active_for_event event_id)
  if at_capacity config.capacity active
      then modify (update_event event.id (with_status registration_closed))
      else if nearly_full config.capacity active
      then (attempt (queue_capacity_warning event_id) >>= λ warned. pure tt)
      else pure tt

abbrev pub is_approved : RegistrationStatus → Bool
is_approved approved = true
is_approved _ = false

module _ (sign : BarcodePayload → String) where
  unfoldable pub issue_if_due : Registration → EventConfiguration → Action (Unit {0})
  issue_if_due g config =
      if is_approved g.status && is_free config
      then issue_ticket_for_registration sign g
      else pure tt

  -- create_registration, from the flush of the new row `g`.
  unfoldable pub complete :
      Event → EventConfiguration → ℕ → RegistrationIn → Registration → Action (Option Registration)
  unfolding add_participants fill_event issue_if_due
  complete event config actor_id r g = do
    add_participants g.id actor_id r.participants
    modify (update_registration g.id λ h. record h { status = first_status config })
    fill_event g.event_id event config
    write_audit_log "registration" g.id "created" (some actor_id)
    issue_if_due (record g { status = first_status config }) config
    commit
    query (get_registration g.id)

  abbrev is_any : List ValidationError → Bool
  is_any [] = false
  is_any (e ∷ es) = true

  -- create_registration, from the validation.
  unfoldable pub submit :
      ℕ → Event → EventConfiguration → ℕ → RegistrationIn → Action (Option Registration)
  unfolding add_registration complete
  submit event_id event config actor_id r = do
    errors ← validate_registration event_id r.sent (team_size_of r)
    raise_if (is_any errors) (registration_invalid errors)
    t ← now
    id ← uuid4
    refused ← query (is_refused (new_registration id event_id actor_id r config t))
    raise_if refused integrity_error
    modify (add_registration (new_registration id event_id actor_id r config t))
    complete event config actor_id r (new_registration id event_id actor_id r config t)

  unfoldable pub create_registration : ℕ → ℕ → RegistrationIn → Action (Option Registration)
  unfolding check_team_reference submit
  create_registration event_id actor_id r = do
    event ← get_event_or_raise event_id
    config ← get_config_or_raise event_id
    raise_if (not (provided r.sent.participation_type config.participation_types)) (
        invalid_registration_state (
          concat "Participation type '"
            (concat r.sent.participation_type "' is not enabled for this event.")))
    ensure_child actor_id r.child_id
    check_team_reference actor_id event_id r
    acquire_event_capacity_lock event_id
    ensure_registration_open event config
    ensure_no_duplicate event_id actor_id r.child_id r.sent.participation_type
    ensure_capacity event_id
    submit event_id event config actor_id r
