-- ===== src/Payments/RefundEvents.antt =====
-- PaymentService (app/modules/payments/service.py): the fields of a webhook and the events on refunds.
use event_platform_backend.Prelude.{
  ℕ, Bool, true, false, not, ◌&&◌, ◌||◌, Option, none, some, List, [], ◌∷◌, String, str_eq, concat,
  ◌==◌, if◌then◌else◌, ℤ, pos, negsuc,
}
use event_platform_backend.Models.Payments.{
  Payment, Refund, RefundStatus, PaymentEntity, RefundEntity, WebhookPayload, is_processed_refund,
}
use event_platform_backend.Models.Registrations.{Registration, refund_failed}
use event_platform_backend.Payments.Repository.{
  payments_of_gateway, payments_of_either, update_refund, refunds_of_gateway,
  get_latest_for_payment,
}
use event_platform_backend.Payments.Settlement.{apply_processed_refund, is_refund_pending}
use event_platform_backend.Registrations.Repository.{get_registration, update_registration}
use event_platform_backend.Session.{
  Action, pure, raise, or_raise, query, lift, modify, now, scalar_one_or_none, ◌>>=◌, ◌>>◌,
}
use event_platform_backend.Session.Errors.{
  payment_not_found, invalid_refund_state, payment_verification_failed,
}

-- A text that is neither missing nor empty.
abbrev pub truthy : Option String → Option String
truthy none = none
truthy (some s) = if str_eq s "" then none else some s

-- a or b, where an empty text counts as missing. Of two missing ones, `b`.
abbrev pub either_text : Option String → Option String → Option String
either_text a b = elim (truthy a) [ none ↦ b | some s ↦ some s ]

-- provider_amount is not None and int(provider_amount) != amount
abbrev pub differs : Option ℤ → ℕ → Bool
differs none amount = false
differs (some (pos n)) amount = not (n == amount)
differs (some (negsuc n)) amount = true

-- The key by which _payment_for_webhook_payload looks a payment up.
abbrev pub lookup_key : WebhookPayload → Option String
lookup_key payload = elim payload.payment [
  | none ↦ elim payload.refund [ none ↦ none | some r ↦ either_text r.order_id r.payment_id ]
  | some p ↦ either_text p.order_id p.payment_id
]

-- _payment_for_webhook_payload
unfoldable pub payment_for_webhook_payload : WebhookPayload → Action Payment
unfolding payments_of_either
payment_for_webhook_payload payload = do
  rows ← query (payments_of_either (lookup_key payload))
  found ← lift (scalar_one_or_none rows)
  or_raise found (payment_not_found "Payment not found.")

-- status in {None, a, b}
abbrev pub status_in : Option String → List String → Bool
status_in none names = true
status_in (some s) names = named s names
  where
    named : String → List String → Bool
    named s [] = false
    named s (x ∷ xs) = str_eq s x || named s xs

-- The kinds of refund event that _process_refund_webhook tells apart.
pub data RefundEvent : Type 0 where
  paid_out opened refused other : RefundEvent

abbrev pub refund_event : String → Option String → RefundEvent
refund_event name status =
    if str_eq name "refund.processed" && status_in status ("processed" ∷ [])
    then paid_out
    else if str_eq name "refund.created" && status_in status ("created" ∷ "pending" ∷ [])
    then opened
    else if str_eq name "refund.failed" || str_eq name "refund.cancelled"
    then refused
    else other

abbrev pub provider_reason : RefundEntity → String → String
provider_reason entity name = elim (truthy entity.error_description) [
  | none ↦ concat "Provider event: " name
  | some s ↦ s
]

-- A registration whose refund failed.
unfoldable pub fail_registration : Option Registration → Action (Unit {0})
fail_registration none = pure tt
fail_registration (some g) =
    if is_refund_pending g.status
    then modify (update_registration g.id λ h. record h { status = refund_failed })
    else pure tt

unfoldable pub apply_refund_event :
    RefundEvent → Refund → Payment → RefundEntity → String → Action (Unit {0})
unfolding fail_registration
apply_refund_event paid_out refund payment entity name = do
  t ← now
  modify (
      update_refund refund.id
        λ r. record r { status = RefundStatus.processed; processed_at = some t })
  apply_processed_refund payment none
apply_refund_event refused refund payment entity name = do
  modify (
      update_refund refund.id λ r. record r {
        status = RefundStatus.failed;
        failure_reason = some (provider_reason entity name);
      })
  g ← query (get_registration payment.registration_id)
  fail_registration g
apply_refund_event _ refund payment entity name =
    modify (update_refund refund.id λ r. record r { status = RefundStatus.processing })

-- _process_refund_webhook, from the refund that it found.
unfoldable pub process_refund : Refund → Payment → RefundEntity → String → String → Action Payment
unfolding apply_refund_event
process_refund refund payment entity gateway_refund_id name = do
  if differs entity.amount refund.amount
      then (do
        modify (
            update_refund refund.id λ r. record r {
              reconciliation_error =
                  some "Provider refund amount does not match the local refund request.";
            })
        raise (
            invalid_refund_state "Provider refund amount does not match the local refund request."))
      else pure tt
  modify (update_refund refund.id λ r. record r { gateway_refund_id = some gateway_refund_id })
  if is_processed_refund refund.status then pure payment else (do
    apply_refund_event (refund_event name entity.status) refund payment entity name
    t ← now
    modify (update_refund refund.id λ r. record r { last_reconciled_at = some t })
    pure payment)

abbrev pub no_refund_entity : RefundEntity
no_refund_entity = record {
  id = none;
  order_id = none;
  payment_id = none;
  amount = none;
  status = none;
  error_description = none;
}

abbrev pub no_payment_entity : PaymentEntity
no_payment_entity = record {
  id = none;
  order_id = none;
  payment_id = none;
  amount = none;
  currency = none;
}

abbrev pub or_else : {A : Type 0} → Option A → A → A
or_else none a = a
or_else (some b) a = b

-- _process_refund_webhook
unfoldable pub process_refund_webhook : RefundEntity → String → Action Payment
unfolding payments_of_gateway refunds_of_gateway get_latest_for_payment process_refund
process_refund_webhook entity name = do
  gateway_refund_id ←
      or_raise (truthy entity.id)
        (payment_verification_failed "Refund webhook is missing provider identifiers.")
  gateway_payment_id ←
      or_raise (truthy entity.payment_id)
        (payment_verification_failed "Refund webhook is missing provider identifiers.")
  rows ← query (payments_of_gateway (some gateway_payment_id))
  found ← lift (scalar_one_or_none rows)
  payment ← or_raise found (payment_not_found "Payment not found for refund webhook.")
  refund_rows ← query (refunds_of_gateway gateway_refund_id)
  known ← lift (scalar_one_or_none refund_rows)
  latest ← query (get_latest_for_payment payment.id)
  refund ←
      or_raise (elim known [ none ↦ latest | some r ↦ some r ])
        (invalid_refund_state "Refund webhook does not match a local refund request.")
  process_refund refund payment entity gateway_refund_id name

-- provider_currency is not None and provider_currency != payment.currency
abbrev pub other_currency : Option String → String → Bool
other_currency none currency = false
other_currency (some c) currency = not (str_eq c currency)
