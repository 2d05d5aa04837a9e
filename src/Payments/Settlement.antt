-- ===== src/Payments/Settlement.antt =====
-- PaymentService._apply_processed_refund (app/modules/payments/service.py): what a refund that the
-- provider has paid out changes.
use event_platform_backend.Prelude.{ℕ, Bool, true, false, Option, none, some, leb, if◌then◌else◌}
use event_platform_backend.Models.Events.{Event, EventConfiguration, registration_open}
use event_platform_backend.Models.Payments.{Payment, PaymentStatus}
use event_platform_backend.Models.Registrations.{
  Registration, RegistrationStatus, confirmed, cancelled, refund_pending,
}
use event_platform_backend.ConfigEngine.{
  calculate_registration_availability, parse_registration_end_at,
}
use event_platform_backend.Events.{get_event, get_configuration}
use event_platform_backend.Payments.Refunds.{refunded_amount}
use event_platform_backend.Payments.Repository.{update_payment}
use event_platform_backend.Registrations.Cancellation.{cancel_each}
use event_platform_backend.Registrations.Repository.{
  get_registration, update_registration, count_active_for_event,
}
use event_platform_backend.Registrations.Window.{
  update_event, with_status, is_registration_closed, takes_registrations,
}
use event_platform_backend.Tickets.Repository.{list_by_registration_id}
use event_platform_backend.Waitlists.Operations.Promote.{promote_next}
use event_platform_backend.Session.{Action, pure, or_raise, query, modify, now, ◌>>=◌, ◌>>◌}
use event_platform_backend.Session.Errors.{invalid_payment_state}

-- value or datetime.now(timezone.utc)
unfoldable pub or_now : Option ℕ → Action ℕ
or_now (some t) = pure t
or_now none = now

abbrev pub is_refund_pending : RegistrationStatus → Bool
is_refund_pending refund_pending = true
is_refund_pending _ = false

-- The event is opened again if its deadline is ahead and a seat is free; an event of no capacity
-- counts as free.
unfoldable pub reopen_closed : ℕ → Option EventConfiguration → Option Event → Action (Unit {0})
unfolding update_event
reopen_closed event_id (some config) (some event) =
    if is_registration_closed event.status
    then (do
      registered_count ← query (count_active_for_event event_id)
      t ← now
      if takes_registrations (
            calculate_registration_availability registration_open config.capacity registered_count
              (parse_registration_end_at config.details) t)
          then modify (update_event event.id (with_status registration_open))
          else pure tt)
    else pure tt
reopen_closed event_id _ _ = pure tt

-- if actor_id is not None: registration.cancelled_by = actor_id
abbrev pub cancelled_at_by : ℕ → Option ℕ → Registration → Registration
cancelled_at_by t none g = record g { status = cancelled; cancelled_at = some t }
cancelled_at_by t (some actor_id) g = record g {
  status = cancelled;
  cancelled_at = some t;
  cancelled_by = some actor_id;
}

-- The whole payment is refunded.
unfoldable pub settle_full : Payment → Registration → Option ℕ → Action (Unit {0})
unfolding or_now reopen_closed
settle_full payment g actor_id = do
  modify (update_payment payment.id λ p. record p { status = PaymentStatus.refunded })
  tickets ← query (list_by_registration_id payment.registration_id)
  t ← or_now g.cancelled_at
  modify (update_registration g.id (cancelled_at_by t actor_id))
  cancel_each tickets
  config ← query (get_configuration payment.event_id)
  event ← query (get_event payment.event_id)
  reopen_closed payment.event_id config event
  promote_next payment.event_id (some g.participation_type)
  pure tt

-- A part of it is.
unfoldable pub settle_part : Payment → Registration → Action (Unit {0})
settle_part payment g = do
  modify (update_payment payment.id λ p. record p { status = PaymentStatus.verified })
  if is_refund_pending g.status
      then modify (update_registration g.id λ h. record h { status = confirmed })
      else pure tt

-- _apply_processed_refund, whose argument `refund` it does not use.
unfoldable pub apply_processed_refund : Payment → Option ℕ → Action (Unit {0})
unfolding settle_full settle_part
apply_processed_refund payment actor_id = do
  found ← query (get_registration payment.registration_id)
  g ← or_raise found (invalid_payment_state "Registration not found for refund.")
  refunded ← query (refunded_amount payment.id)
  if leb payment.amount refunded then settle_full payment g actor_id else settle_part payment g
