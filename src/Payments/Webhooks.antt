-- ===== src/Payments/Webhooks.antt =====
-- PaymentService.handle_gateway_webhook (app/modules/payments/service.py): the provider's webhooks,
-- recorded in the inbox and processed.
use event_platform_backend.Prelude.{
  ℕ, ◌+◌, Bool, false, not, ◌||◌, Option, none, some, String, str_eq, starts_with, if◌then◌else◌,
}
use event_platform_backend.Models.Payments.{
  Payment, PaymentEntity, WebhookPayload, PaymentWebhookInbox, WebhookProcessingStatus, is_refunded,
  is_processed,
}
use event_platform_backend.Payments.Gateway.{Platform}
use event_platform_backend.Payments.Repository.{
  payments_of_order, get_by_event_id, add_inbox, update_inbox,
}
use event_platform_backend.Payments.Verification.{verify_payment}
use event_platform_backend.Session.{
  Result, ok, err, Action, pure, raise, raise_if, or_raise, query, lift, modify, now, uuid4, commit,
  rollback, attempt, LockKey, acquire_advisory_lock, scalar_one_or_none, ◌>>=◌, ◌>>◌,
}
use event_platform_backend.Session.Errors.{
  Error, payment_not_found, invalid_payment_state, payment_verification_failed, key_error,
}
use event_platform_backend.Payments.RefundEvents.{
  truthy, either_text, differs, payment_for_webhook_payload, no_refund_entity, no_payment_entity,
  or_else, process_refund_webhook, other_currency,
}

module _ (platform : Platform) where
  -- The branch of _process_webhook_payload for "payment.captured" and "payment.authorized".
  unfoldable pub process_payment_webhook : PaymentEntity → Action Payment
  unfolding payments_of_order
  process_payment_webhook entity = do
    order_id ←
        or_raise (truthy entity.order_id)
          (payment_verification_failed "Webhook is missing payment identifiers.")
    payment_id ←
        or_raise (truthy entity.id)
          (payment_verification_failed "Webhook is missing payment identifiers.")
    rows ← query (payments_of_order (some order_id))
    found ← lift (scalar_one_or_none rows)
    p ← or_raise found (payment_not_found "Payment not found.")
    raise_if (differs entity.amount p.amount)
        (payment_verification_failed "Webhook payment amount does not match the local order.")
    raise_if (other_currency entity.currency p.currency)
        (payment_verification_failed "Webhook payment currency does not match the local order.")
    if is_refunded p.status
        then pure p
        else verify_payment platform p.id payment_id
            (platform.gateway.payment_signature order_id payment_id) false

  -- _process_webhook_payload
  unfoldable pub process_webhook_payload : WebhookPayload → Action Payment
  unfolding process_payment_webhook process_refund_webhook
  process_webhook_payload payload = do
    name ← or_raise payload.event (key_error "event")
    if str_eq name "payment.captured" || str_eq name "payment.authorized"
        then process_payment_webhook (or_else payload.payment no_payment_entity)
        else if starts_with name "refund."
        then process_refund_webhook (or_else payload.refund no_refund_entity) name
        else raise (invalid_payment_state "Unsupported payment webhook event.")

  -- if inbox is not None: the failure is stored.
  unfoldable pub record_failure : Error → Option PaymentWebhookInbox → Action (Unit {0})
  record_failure e none = pure tt
  record_failure e (some w) = do
    modify (
        update_inbox w.id λ x. record x {
          processing_status = WebhookProcessingStatus.failed;
          failure_reason = some (platform.excerpt e 1000);
        })
    commit

  -- The end of the try block and the except clause, from the result of the processing.
  unfoldable pub conclude : ℕ → String → Result Payment → Action Payment
  unfolding record_failure
  conclude inbox_id provider_event_id (ok payment) = do
    t ← now
    modify (
        update_inbox inbox_id λ w. record w {
          processing_status = WebhookProcessingStatus.processed;
          processed_at = some t;
          failure_reason = none;
        })
    commit
    pure payment
  conclude inbox_id provider_event_id (err e) = do
    rollback
    inbox ← get_by_event_id provider_event_id
    record_failure e inbox
    raise e

  -- The inbox row of the event, which is stored as received if it is new; its id.
  unfoldable pub receive : String → String → WebhookPayload → Option PaymentWebhookInbox → Action ℕ
  receive provider_event_id name payload (some w) = pure w.id
  receive provider_event_id name payload none = do
    t ← now
    id ← uuid4
    modify (
        add_inbox (record {
          id = id;
          provider_event_id = provider_event_id;
          event_type = name;
          received_at = t;
          payload = payload;
          processing_status = WebhookProcessingStatus.received;
          attempts = 0;
          failure_reason = none;
          processed_at = none;
        }))
    commit
    pure id

  -- inbox.processing_status = PROCESSING; inbox.attempts += 1
  unfoldable pub begin_processing : ℕ → Action (Unit {0})
  begin_processing inbox_id = do
    modify (
        update_inbox inbox_id λ w. record w {
          processing_status = WebhookProcessingStatus.processing;
          attempts = w.attempts + 1;
        })
    commit

  abbrev pub was_processed : Option PaymentWebhookInbox → Bool
  was_processed none = false
  was_processed (some w) = is_processed w.processing_status

  -- handle_gateway_webhook, from the inbox row that it found.
  unfoldable pub handle_received :
      String → String → WebhookPayload → Option PaymentWebhookInbox → Action Payment
  unfolding receive begin_processing conclude process_webhook_payload payment_for_webhook_payload
  handle_received provider_event_id name payload inbox =
      if was_processed inbox then payment_for_webhook_payload payload else (do
        inbox_id ← receive provider_event_id name payload inbox
        begin_processing inbox_id
        result ← attempt (process_webhook_payload payload)
        conclude inbox_id provider_event_id result)

  unfoldable pub handle_gateway_webhook : String → String → WebhookPayload → Action Payment
  unfolding get_by_event_id handle_received
  handle_gateway_webhook body signature payload = do
    raise_if (not (platform.gateway.verify_webhook_signature body signature))
        (payment_verification_failed "Webhook signature verification failed.")
    provider_event_id ←
        or_raise (truthy (either_text payload.id payload.event_id))
          (payment_verification_failed "Webhook is missing provider event identifiers.")
    name ←
        or_raise (truthy payload.event)
          (payment_verification_failed "Webhook is missing provider event identifiers.")
    acquire_advisory_lock (LockKey.payment_webhook provider_event_id)
    inbox ← get_by_event_id provider_event_id
    handle_received provider_event_id name payload inbox
