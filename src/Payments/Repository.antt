-- ===== src/Payments/Repository.antt =====
-- app/modules/payments/repository.py, and the lookups that app/modules/payments/service.py writes
-- out. A list stands for the rows before scalar_one_or_none.
use event_platform_backend.Prelude.{
  ℕ, Bool, true, false, ◌&&◌, ◌||◌, Option, none, some, List, [], ◌∷◌, String, ◌==◌, str_eq, select,
  take, ltb, if◌then◌else◌,
}
use event_platform_backend.Models.Payments.{
  Payment, Refund, DiscountCode, PaymentWebhookInbox, is_failed,
}
use event_platform_backend.Store.{Db, payment_key, refund_key, webhook_inbox_key}
use event_platform_backend.Table.{get, update, add}
use event_platform_backend.Session.{Action, query, lift, scalar_one_or_none, or_raise, ◌>>=◌}
use event_platform_backend.Session.Errors.{invalid_request}

-- column == value in SQL, where the value may be None: IS NULL.
abbrev pub opt_str_eq : Option String → Option String → Bool
opt_str_eq none none = true
opt_str_eq (some a) (some b) = str_eq a b
opt_str_eq _ _ = false

unfoldable pub get_payment : ℕ → Db → Option Payment
get_payment payment_id d = get payment_id d.payments

-- Assignments to the attributes of a payment of the session.
unfoldable pub update_payment : ℕ → (Payment → Payment) → Db → Db
update_payment payment_id f d = record d { payments = update payment_id f d.payments }

-- PaymentRepository.create
unfoldable pub add_payment : Payment → Db → Db
add_payment p d = record d { payments = add p d.payments }

unfoldable pub payments_of : ℕ → Db → List Payment
payments_of registration_id d = select (λ p. p.registration_id == registration_id) d.payments

unfoldable pub payments_of_order : Option String → Db → List Payment
payments_of_order order_id d = select (λ p. opt_str_eq p.gateway_order_id order_id) d.payments

unfoldable pub payments_of_gateway : Option String → Db → List Payment
payments_of_gateway payment_id d =
    select (λ p. opt_str_eq p.gateway_payment_id payment_id) d.payments

-- The condition of _payment_for_webhook_payload.
unfoldable pub payments_of_either : Option String → Db → List Payment
payments_of_either key d =
    select (λ p. opt_str_eq p.gateway_order_id key || opt_str_eq p.gateway_payment_id key)
      d.payments

-- await db.refresh(payment)
unfoldable pub refresh_payment : ℕ → Action Payment
unfolding get_payment
refresh_payment payment_id = do row ← query (get_payment payment_id); or_raise row invalid_request

unfoldable pub get_refund : ℕ → Db → Option Refund
get_refund refund_id d = get refund_id d.refunds

unfoldable pub update_refund : ℕ → (Refund → Refund) → Db → Db
update_refund refund_id f d = record d { refunds = update refund_id f d.refunds }

unfoldable pub refresh_refund : ℕ → Action Refund
unfolding get_refund
refresh_refund refund_id = do row ← query (get_refund refund_id); or_raise row invalid_request

unfoldable pub refunds_of_gateway : String → Db → List Refund
refunds_of_gateway gateway_refund_id d =
    select (λ r. opt_str_eq r.gateway_refund_id (some gateway_refund_id)) d.refunds

abbrev pub last? : {A : Type 0} → List A → Option A
last? [] = none
last? (x ∷ xs) = elim xs [ [] ↦ some x | y ∷ ys ↦ last? xs ]

-- RefundRepository.get_latest_for_payment: the rows are in the order of their creation.
unfoldable pub get_latest_for_payment : ℕ → Db → Option Refund
get_latest_for_payment payment_id d = last? (select (λ r. r.payment_id == payment_id) d.refunds)

unfoldable pub codes_named : String → ℕ → Db → List DiscountCode
codes_named code event_id d =
    select (λ c. str_eq c.code code && applies c.event_id) d.discount_codes
  where
    applies : Option ℕ → Bool
    applies none = true
    applies (some i) = i == event_id

-- DiscountCodeRepository.get_by_code
unfoldable pub get_by_code : String → ℕ → Action (Option DiscountCode)
unfolding codes_named
get_by_code code event_id = do
  rows ← query (codes_named code event_id)
  lift (scalar_one_or_none rows)

unfoldable pub inbox_rows : String → Db → List PaymentWebhookInbox
inbox_rows provider_event_id d =
    select (λ w. str_eq w.provider_event_id provider_event_id) d.webhook_inbox

-- PaymentWebhookInboxRepository.get_by_event_id
unfoldable pub get_by_event_id : String → Action (Option PaymentWebhookInbox)
unfolding inbox_rows
get_by_event_id provider_event_id = do
  rows ← query (inbox_rows provider_event_id)
  lift (scalar_one_or_none rows)

unfoldable pub add_inbox : PaymentWebhookInbox → Db → Db
add_inbox w d = record d { webhook_inbox = add w d.webhook_inbox }

unfoldable pub update_inbox : ℕ → (PaymentWebhookInbox → PaymentWebhookInbox) → Db → Db
update_inbox inbox_id f d = record d { webhook_inbox = update inbox_id f d.webhook_inbox }

insert_received : PaymentWebhookInbox → List PaymentWebhookInbox → List PaymentWebhookInbox
insert_received w [] = w ∷ []
insert_received w (x ∷ xs) =
    let rest = insert_received w xs in
    if ltb w.received_at x.received_at then w ∷ x ∷ xs else x ∷ rest

sort_received : List PaymentWebhookInbox → List PaymentWebhookInbox → List PaymentWebhookInbox
unfolding insert_received
sort_received [] sorted = sorted
sort_received (w ∷ ws) sorted = sort_received ws (insert_received w sorted)

-- PaymentWebhookInboxRepository.list_failed
unfoldable pub list_failed : ℕ → Db → List PaymentWebhookInbox
unfolding sort_received
list_failed limit d =
    take limit (sort_received (select (λ w. is_failed w.processing_status) d.webhook_inbox) [])
