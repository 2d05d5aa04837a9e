-- ===== src/Payments/Durable.antt =====
-- request_refund (app/modules/payments/service.py) without a commit of its own.
use event_platform_backend.Prelude.{ℕ, false, Option, none, some, String, ℤ}
use event_platform_backend.Models.Payments.{Payment}
use event_platform_backend.Models.Registrations.{Registration}
use event_platform_backend.Session.Frames.{Frame, frame_rules}
use event_platform_backend.Session.Views.{lasting, durable_rules}
use event_platform_backend.Payments.Refunds.{
  refund_registration, refund_amount, refund_payment, request_refund,
}

Frame-refund_registration :
    (p : Payment) (actor n : ℕ) (reason : Option String) (o : Option Registration)
    → Frame lasting (refund_registration p actor n reason false o)
unfolding refund_registration
Frame-refund_registration p actor n reason none = search frame_rules
Frame-refund_registration p actor n reason (some g) = search (frame_rules, durable_rules) depth 24

Frame-refund_amount :
    (p : Payment) (actor : ℕ) (reason : Option String) (o : Option ℕ)
    → Frame lasting (refund_amount p actor reason false o)
unfolding refund_amount
Frame-refund_amount p actor reason none = search frame_rules
Frame-refund_amount p actor reason (some n) =
    search (frame_rules, Frame-refund_registration) depth 16

Frame-refund_payment :
    (actor : ℕ) (amount : Option ℤ) (reason : Option String) (o : Option Payment)
    → Frame lasting (refund_payment actor amount reason false o)
unfolding refund_payment
Frame-refund_payment actor amount reason none = search frame_rules
Frame-refund_payment actor amount reason (some p) = search (frame_rules, Frame-refund_amount)

pub Frame-request_refund :
    (payment_id actor : ℕ) (amount : Option ℤ) (reason : Option String)
    → Frame lasting (request_refund payment_id actor amount reason false)
unfolding request_refund
Frame-request_refund payment_id actor amount reason =
    search (frame_rules, durable_rules, Frame-refund_payment) depth 9
