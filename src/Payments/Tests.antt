-- ===== src/Payments/Tests.antt =====
-- Refund requests at concrete sessions.
use event_platform_backend.Prelude.{◌+◌, ◌≡◌, ◌≤◌, refl, false, none, some, pos}
use event_platform_backend.Models.Payments.{Payment}
use event_platform_backend.Scenario.{paid_seat}
use event_platform_backend.Session.{
  Session, ok, modify, uuid4, acquire_advisory_lock, write_audit_log, ◌>>=◌,
}
use event_platform_backend.Session.Triples.{Ends}
use event_platform_backend.Session.Views.{rows}
use event_platform_backend.Registrations.Repository.{get_registration, update_registration}
use event_platform_backend.Tickets.Repository.{list_by_registration_id}
use event_platform_backend.Payments.Repository.{get_payment}
use event_platform_backend.Payments.Refunds.{
  new_refund, refunded_amount, add_refund, request_refund,
}
use event_platform_backend.Payments.Requests.{Refunded, request_refund_effect}
use event_platform_backend.Payments.Bounds.{request_refund_bounded}

request_refund_effect_example :
    Ends
      (Refunded 40 5 none false (rows paid_seat))
      (λ t. rows t ≡ rows paid_seat)
      (request_refund 40 5 (some (pos 2000)) none false paid_seat)
request_refund_effect_example = request_refund_effect 40 5 (some (pos 2000)) none false paid_seat

-- The session after a request for 20 of 50.
abbrev part_refunded : Session
part_refunded = (request_refund 40 5 (some (pos 2000)) none false paid_seat).1

request_refund_run :
    request_refund 40 5 (some (pos 2000)) none false paid_seat
    ≡ (ok (new_refund 1000 40 5 2000 none), part_refunded)
unfolding request_refund ◌>>=◌ get_payment acquire_advisory_lock refunded_amount get_registration
    list_by_registration_id uuid4 modify write_audit_log add_refund update_registration
request_refund_run = refl

request_refund_bounded_example :
    (p : Payment) × (get_payment 40 paid_seat.db ≡ some p)
    × (refunded_amount 40 part_refunded.db ≤ p.amount)
    × (refunded_amount 40 part_refunded.db ≡ refunded_amount 40 paid_seat.db + 2000)
request_refund_bounded_example =
    request_refund_bounded 40 5 (some (pos 2000)) none false paid_seat part_refunded
      (new_refund 1000 40 5 2000 none) request_refund_run
