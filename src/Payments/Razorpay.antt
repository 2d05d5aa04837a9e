-- ===== src/Payments/Razorpay.antt =====
-- RazorpayPaymentGatewayClient (app/integrations/payment_gateway_client.py), an implementation of the
-- gateway's interface.
use event_platform_backend.Prelude.{
  ℕ, Bool, true, false, not, ◌&&◌, Option, none, some, List, String, concat, str_eq, ◌==◌,
  if◌then◌else◌, head?,
}
use event_platform_backend.Payments.Gateway.{
  GatewayOrder, GatewayRefund, GatewayPaymentSnapshot, GatewayRefundSnapshot, PaymentGateway,
}
use event_platform_backend.Payments.RefundEvents.{truthy, either_text, or_else}
use event_platform_backend.Session.{Action, pure, or_raise, token_hex, ◌>>=◌}
use event_platform_backend.Session.Errors.{key_error}

-- The keys of a JSON object that the client reads.
pub record Reply : Type 0 where
  pub id : Option String
  pub order_id : Option String
  pub payment_id : Option String
  pub status : Option String
  pub amount : Option ℕ
  pub currency : Option String
  pub receipt : Option String

-- The JSON body of a request.
pub data RequestBody : Type 0 where
  no_body : RequestBody
  order_body : ℕ → String → String → RequestBody
  amount_body : ℕ → RequestBody

-- What the client calls: HMAC-SHA256 by its key and message, and HTTP requests by their method, path
-- and body, of which one answers with a list of items.
pub record Transport : Type 0 where
  pub hmac : String → String → String
  pub request : String → String → RequestBody → Action Reply
  pub request_items : String → String → Action (List Reply)

pub record GatewaySettings : Type 0 where
  pub key_secret : String
  pub webhook_secret : String
  -- environment.lower() in {"production", "staging"}
  pub live : Bool

-- data[key]
abbrev required : {A : Type 0} → Option A → String → Action A
required o key = or_raise o (key_error key)

module _ (transport : Transport) (settings : GatewaySettings) where
  abbrev pub sign : String → String → String
  sign order_id payment_id =
      transport.hmac settings.key_secret (concat order_id (concat "|" payment_id))

  abbrev pub verify_webhook_signature : String → String → Bool
  verify_webhook_signature body signature =
      str_eq (transport.hmac settings.webhook_secret body) signature

  unfoldable pub create_order : ℕ → String → String → Action GatewayOrder
  create_order amount currency receipt =
      if settings.live
      then (do
        answer ← transport.request "POST" "/v1/orders" (order_body amount currency receipt)
        id ← required answer.id "id"
        paid ← required answer.amount "amount"
        cur ← required answer.currency "currency"
        rec ← required answer.receipt "receipt"
        pure (record { order_id = id; amount = paid; currency = cur; receipt = rec }))
      else (do
        token ← token_hex
        pure (record {
          order_id = concat "order_" token;
          amount = amount;
          currency = currency;
          receipt = receipt;
        }))

  -- data.get(key) == value
  abbrev has : Option String → String → Bool
  has none value = false
  has (some s) value = str_eq s value

  abbrev has_amount : Option ℕ → ℕ → Bool
  has_amount none value = false
  has_amount (some n) value = n == value

  unfoldable pub verify_payment : String → String → String → ℕ → String → Action Bool
  verify_payment order_id payment_id signature expected_amount expected_currency =
      if not (str_eq (sign order_id payment_id) signature)
      then pure false
      else if not settings.live
      then pure true
      else (do
        answer ← transport.request "GET" (concat "/v1/payments/" payment_id) no_body
        pure (
            has answer.order_id order_id
            && has answer.status "captured"
            && has_amount answer.amount expected_amount
            && has answer.currency expected_currency))

  unfoldable pub initiate_refund : String → ℕ → Action GatewayRefund
  initiate_refund payment_id amount =
      if settings.live
      then (do
        answer ←
            transport.request "POST" (concat "/v1/payments/" (concat payment_id "/refund"))
              (amount_body amount)
        id ← required answer.id "id"
        payment ← required answer.payment_id "payment_id"
        paid ← required answer.amount "amount"
        pure (record { refund_id = id; payment_id = payment; amount = paid }))
      else (do
        token ← token_hex
        pure
            (record { refund_id = concat "rfnd_" token; payment_id = payment_id; amount = amount }))

  -- The payment's own object, or the first of its order; `none` without either key.
  unfoldable pub fetch_data : Option String → Option String → Action (Option Reply)
  fetch_data (some payment_id) order = do
    answer ← transport.request "GET" (concat "/v1/payments/" payment_id) no_body
    pure (some answer)
  fetch_data none (some order_id) = do
    items ← transport.request_items "/v1/payments" order_id
    pure (head? items)
  fetch_data none none = pure none

  unfoldable pub payment_snapshot :
      Option String → Option Reply → Action (Option GatewayPaymentSnapshot)
  payment_snapshot order none = pure none
  payment_snapshot order (some answer) = do
    id ← required answer.id "id"
    pure (
        some (record {
          payment_id = id;
          order_id = or_else (truthy (either_text answer.order_id order)) "";
          status = or_else answer.status "unknown";
          amount = or_else answer.amount 0;
          currency = or_else answer.currency "";
        }))

  unfoldable pub fetch_payment :
      Option String → Option String → Action (Option GatewayPaymentSnapshot)
  unfolding fetch_data payment_snapshot
  fetch_payment payment_id order_id = if not settings.live then pure none else (do
    answer ← fetch_data (truthy payment_id) (truthy order_id)
    payment_snapshot order_id answer)

  unfoldable pub fetch_refund : String → Action (Option GatewayRefundSnapshot)
  fetch_refund refund_id = if not settings.live then pure none else (do
    answer ← transport.request "GET" (concat "/v1/refunds/" refund_id) no_body
    id ← required answer.id "id"
    payment ← required answer.payment_id "payment_id"
    pure (
        some (record {
          refund_id = id;
          payment_id = payment;
          status = or_else answer.status "unknown";
          amount = or_else answer.amount 0;
        })))

  abbrev pub razorpay : PaymentGateway
  razorpay = record {
    create_order = create_order;
    verify_payment = verify_payment;
    payment_signature = sign;
    verify_webhook_signature = verify_webhook_signature;
    initiate_refund = initiate_refund;
    fetch_payment = fetch_payment;
    fetch_refund = fetch_refund;
  }
