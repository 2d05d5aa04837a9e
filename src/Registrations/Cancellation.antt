-- ===== src/Registrations/Cancellation.antt =====
-- RegistrationService.cancel_registration (app/modules/registrations/service.py).
use event_platform_backend.Prelude.{
  ℕ, Bool, true, false, not, ◌&&◌, Option, none, some, List, [], ◌∷◌, String, str_eq, ◌==◌, leb,
  if◌then◌else◌,
}
use event_platform_backend.Models.Events.{Event, EventConfiguration}
use event_platform_backend.Models.Payments.{Payment, PaymentStatus, is_verified, is_initiated}
use event_platform_backend.Models.Registrations.{
  Registration, RegistrationStatus, started, submitted, pending_verification, pending_payment,
  approved, confirmed, refund_failed, refund_pending, cancelled,
}
use event_platform_backend.Models.Tickets.{Ticket, TicketStatus, is_void}
use event_platform_backend.Store.{payment_key}
use event_platform_backend.ConfigEngine.{parse_cancellation_deadline_at}
use event_platform_backend.Guardians.{ensure_child}
use event_platform_backend.Payments.Repository.{payments_of, update_payment}
use event_platform_backend.Payments.Refunds.{request_refund}
use event_platform_backend.Registrations.Decision.{manages_event}
use event_platform_backend.Registrations.Repository.{get_registration, update_registration}
use event_platform_backend.Registrations.Window.{
  get_event_or_raise, get_config_or_raise, get_registration_or_raise,
  reopen_event_if_capacity_available,
}
use event_platform_backend.Tickets.Repository.{list_by_registration_id, update_ticket}
use event_platform_backend.Waitlists.Operations.Promote.{promote_next}
use event_platform_backend.Session.{
  Action, pure, raise_if, query, lift, modify, now, commit, acquire_event_capacity_lock,
  scalar_one_or_none, write_audit_log, ◌>>=◌, ◌>>◌,
}
use event_platform_backend.Session.Errors.{
  registration_scope, already_in, invalid_registration_state,
}

-- The statuses from which a registration may be cancelled.
abbrev pub is_cancellable : RegistrationStatus → Bool
is_cancellable started = true
is_cancellable submitted = true
is_cancellable pending_verification = true
is_cancellable pending_payment = true
is_cancellable approved = true
is_cancellable confirmed = true
is_cancellable refund_failed = true
is_cancellable _ = false

-- The deadline of the registration, or else that of the event.
abbrev pub deadline_of : Registration → EventConfiguration → Option ℕ
deadline_of g config = elim g.cancellation_deadline_at [
  | none ↦ parse_cancellation_deadline_at config.details
  | some t ↦ some t
]

-- The owner is bound by the deadline.
unfoldable pub check_deadline : Bool → Option ℕ → Action (Unit {0})
check_deadline true (some deadline) = do
  t ← now
  raise_if (leb deadline t) (invalid_registration_state "The cancellation deadline has passed.")
check_deadline _ _ = pure tt

abbrev pub requested : ℕ → ℕ → Option String → Option ℕ → Registration → Registration
requested t actor_id reason deadline g = record g {
  cancellation_requested_at = some t;
  cancellation_reason = reason;
  cancelled_by = some actor_id;
  cancellation_deadline_at = deadline;
}

-- reason or "Participant cancellation"
abbrev pub refund_reason : Option String → String
refund_reason none = "Participant cancellation"
refund_reason (some reason) = if str_eq reason "" then "Participant cancellation" else reason

abbrev pub cancel_ticket : Ticket → Ticket
cancel_ticket t = if is_void t.status then t else record t { status = TicketStatus.cancelled }

unfoldable pub cancel_each : List Ticket → Action (Unit {0})
cancel_each [] = pure tt
cancel_each (t ∷ ts) = modify (update_ticket t.id cancel_ticket) >> cancel_each ts

-- An initiated payment fails.
unfoldable pub fail_payment : Option Payment → Action (Unit {0})
fail_payment none = pure tt
fail_payment (some p) =
    if is_initiated p.status
    then modify (update_payment p.id λ q. record q { status = PaymentStatus.failed })
    else pure tt

-- The branch without a refund: the registration is cancelled and its seat is offered again.
unfoldable pub release :
    Event → EventConfiguration → ℕ → Registration → Option Payment → Action String
unfolding fail_payment cancel_each
release event config t g payment = do
  fail_payment payment
  modify (update_registration g.id λ r. record r { status = cancelled; cancelled_at = some t })
  tickets ← query (list_by_registration_id g.id)
  cancel_each tickets
  reopen_event_if_capacity_available event config
  promote_next g.event_id (some g.participation_type)
  pure "cancelled"

-- The branch with a refund.
unfoldable pub refund_first : ℕ → Option String → Registration → Payment → Action String
refund_first actor_id reason g payment = do
  request_refund payment.id actor_id none (some (refund_reason reason)) false
  modify (update_registration g.id λ r. record r { status = refund_pending })
  pure "refund_requested_for_cancellation"

unfoldable pub settle :
    Event
    → EventConfiguration
    → ℕ
    → ℕ
    → Option String
    → Registration
    → Option Payment
    → Action String
unfolding release refund_first
settle event config t actor_id reason g none = release event config t g none
settle event config t actor_id reason g (some p) =
    if is_verified p.status
    then refund_first actor_id reason g p
    else release event config t g (some p)

-- The changes of cancel_registration, once it is allowed.
unfoldable pub cancel_allowed :
    Event
    → EventConfiguration
    → ℕ
    → Option String
    → Option ℕ
    → Registration
    → Action (Option Registration)
unfolding settle payments_of
cancel_allowed event config actor_id reason deadline g = do
  t ← now
  modify (update_registration g.id (requested t actor_id reason deadline))
  rows ← query (payments_of g.id)
  payment ← lift (scalar_one_or_none rows)
  action ← settle event config t actor_id reason g payment
  write_audit_log "registration" g.id action (some actor_id)
  commit
  query (get_registration g.id)

-- cancel_registration, from the registration that it read under the lock.
unfoldable pub cancel_found : ℕ → Option String → Registration → Action (Option Registration)
unfolding check_deadline cancel_allowed
cancel_found actor_id reason g = do
  manages ← query (manages_event actor_id g.event_id)
  raise_if (not (g.user_id == actor_id) && not manages)
      (registration_scope "You cannot cancel this registration.")
  raise_if (not (is_cancellable g.status)) (already_in g.status "cancelled")
  if g.user_id == actor_id then ensure_child actor_id g.child_id else pure tt
  event ← get_event_or_raise g.event_id
  config ← get_config_or_raise g.event_id
  check_deadline (g.user_id == actor_id) (deadline_of g config)
  cancel_allowed event config actor_id reason (deadline_of g config) g

unfoldable pub cancel_registration : ℕ → ℕ → Option String → Action (Option Registration)
unfolding cancel_found
cancel_registration registration_id actor_id reason = do
  first ← get_registration_or_raise registration_id
  acquire_event_capacity_lock first.event_id
  g ← get_registration_or_raise registration_id
  cancel_found actor_id reason g
