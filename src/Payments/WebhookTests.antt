-- ===== src/Payments/WebhookTests.antt =====
-- Webhooks and discount codes at concrete sessions, with the client of the provider outside of
-- production.
use event_platform_backend.Prelude.{◌≡◌, refl, true, false, none, some, [], ◌∷◌, concat, pos}
use event_platform_backend.Models.Payments.{Payment, PaymentStatus, DiscountType, WebhookPayload}
use event_platform_backend.Models.Registrations.{pending_payment}
use event_platform_backend.Payments.Amounts.{calculate_amount}
use event_platform_backend.Payments.Atomic.{Ended, GivenUp, gateway_webhook_atomic, webhook_once}
use event_platform_backend.Payments.Client.{Remote, razorpay-TouchesNoTable}
use event_platform_backend.Payments.Gateway.{Platform}
use event_platform_backend.Payments.Pricing.{Priced, calculate_amount_bounded}
use event_platform_backend.Payments.Razorpay.{Transport, GatewaySettings, razorpay}
use event_platform_backend.Payments.Webhooks.{handle_gateway_webhook}
use event_platform_backend.Scenario.{seat, seats, session}
use event_platform_backend.Session.{
  Session, ok, raise, modify, now, uuid4, token_hex, commit, attempt, acquire_advisory_lock,
  write_audit_log, ◌>>=◌,
}
use event_platform_backend.Payments.Razorpay
use event_platform_backend.Payments.Repository.{
  get_by_event_id, add_inbox, update_inbox, payments_of_order, refresh_payment, update_payment,
}
use event_platform_backend.Payments.Verification
use event_platform_backend.Payments.Webhooks.{
  handle_received, receive, begin_processing, process_webhook_payload, conclude,
}
use event_platform_backend.Registrations.Repository.{get_registration, update_registration}
use event_platform_backend.Tickets.Repository.{list_by_registration_id}
use event_platform_backend.Tickets.Issue.{issue_registration_tickets}
use event_platform_backend.Session.Errors.{gateway_error}
use event_platform_backend.Session.Frames.{Frame-raise}
use event_platform_backend.Session.Triples.{Ends}
use event_platform_backend.Session.Views.{tables}
use event_platform_backend.Payments.Gateway.{storage}

-- No host can be reached, and the MAC is its key and its message.
abbrev offline : Transport
offline = record {
  hmac = λ key message. concat key (concat "#" message);
  request = λ method path body. raise (gateway_error "unreachable");
  request_items = λ path order. raise (gateway_error "unreachable");
}

offline-Remote : Remote offline
offline-Remote = record {
  request = λ method path body. Frame-raise storage _;
  request_items = λ path order. Frame-raise storage _;
}

abbrev settings : GatewaySettings
settings = record { key_secret = "key"; webhook_secret = "webhook"; live = false }

abbrev platform : Platform
platform = record {
  gateway = razorpay offline settings;
  sign = λ payload. payload.ticket_code;
  str_id = λ n. "id";
  excerpt = λ e n. "failure";
  numeric = λ n. n;
  stale_seconds = 900;
  batch_size = 100;
}

-- A payment that has an order.
abbrev order_1 : Payment
order_1 = record {
  id = 40;
  event_id = 1;
  registration_id = 20;
  user_id = 5;
  amount = 5000;
  currency = "INR";
  status = PaymentStatus.initiated;
  gateway_order_id = some "order_1";
  gateway_payment_id = none;
  gateway_signature = none;
  discount_code = none;
  verified_at = none;
  captured_at = none;
  reconciliation_status = "not_required";
  reconciliation_attempts = 0;
  last_reconciled_at = none;
  reconciliation_error = none;
  created_at = 140;
}

-- A seat that waits for its payment.
abbrev awaiting_payment : Session
awaiting_payment = session (record (seats (record (seat 20 5) { status = pending_payment } ∷ [])) {
  payments = order_1 ∷ [];
  discount_codes =
      record {
        id = 60;
        event_id = none;
        code = "HALF";
        discount_type = DiscountType.percentage;
        value = pos 50;
        is_active = true;
      }
      ∷ [];
})

abbrev captured : WebhookPayload
captured = record {
  event = some "payment.captured";
  id = some "evt_1";
  event_id = none;
  payment = some (record {
    id = some "pay_1";
    order_id = some "order_1";
    payment_id = none;
    amount = some (pos 5000);
    currency = some "INR";
  });
  refund = none;
}

abbrev after_webhook : Session
after_webhook = (handle_gateway_webhook platform "body" "webhook#body" captured awaiting_payment).1

gateway_webhook_atomic_example :
    Ends
      (λ _. Ended captured)
      (GivenUp captured awaiting_payment.db)
      (handle_gateway_webhook platform "body" "webhook#body" captured awaiting_payment)
gateway_webhook_atomic_example =
    gateway_webhook_atomic platform "body" "webhook#body" captured awaiting_payment
      (razorpay-TouchesNoTable offline settings offline-Remote) refl

calculate_amount_bounded_example :
    Ends
      (λ r t. (t ≡ awaiting_payment) × Priced 5000 1 (some "HALF") awaiting_payment.db r)
      (λ t. t ≡ awaiting_payment)
      (calculate_amount 5000 1 (some "HALF") awaiting_payment)
calculate_amount_bounded_example = calculate_amount_bounded 5000 1 (some "HALF") awaiting_payment

abbrev paid : Payment
paid = record order_1 {
  status = PaymentStatus.verified;
  gateway_payment_id = some "pay_1";
  gateway_signature = some "key#order_1|pay_1";
  verified_at = some 201;
  captured_at = some 202;
  reconciliation_status = "verified";
}

webhook_run :
    handle_gateway_webhook platform "body" "webhook#body" captured awaiting_payment
    ≡ (ok paid, after_webhook)
unfolding handle_gateway_webhook ◌>>=◌ acquire_advisory_lock get_by_event_id handle_received receive
    now uuid4 modify add_inbox commit begin_processing update_inbox attempt process_webhook_payload
    payments_of_order Verification.verify_payment refresh_payment Razorpay.verify_payment
    get_registration update_payment update_registration issue_registration_tickets
    list_by_registration_id token_hex write_audit_log conclude Verification.commit_if
webhook_run = refl

webhook_once_example :
    tables (handle_gateway_webhook platform "again" "webhook#again" captured after_webhook).1
    ≡ tables after_webhook
webhook_once_example =
    webhook_once platform "body" "webhook#body" captured awaiting_payment after_webhook paid
      (razorpay-TouchesNoTable offline settings offline-Remote) refl webhook_run "again"
      "webhook#again"
