-- ===== src/Payments/Gateway.antt =====
-- The interface of the payment gateway (PaymentGatewayClient in
-- app/integrations/payment_gateway_client.py), and what else the payment service is configured with.
use event_platform_backend.Prelude.{ℕ, Bool, Option, String}
use event_platform_backend.Models.Tickets.{BarcodePayload}
use event_platform_backend.Session.{Action, Session}
use event_platform_backend.Session.Errors.{Error}
use event_platform_backend.Session.Frames.{Frame}
use event_platform_backend.Store.{Db}

-- Amounts are in hundredths.
pub record GatewayOrder : Type 0 where
  pub order_id : String
  pub amount : ℕ
  pub currency : String
  pub receipt : String

pub record GatewayRefund : Type 0 where
  pub refund_id : String
  pub payment_id : String
  pub amount : ℕ

pub record GatewayPaymentSnapshot : Type 0 where
  pub payment_id : String
  pub order_id : String
  pub status : String
  pub amount : ℕ
  pub currency : String

pub record GatewayRefundSnapshot : Type 0 where
  pub refund_id : String
  pub payment_id : String
  pub status : String
  pub amount : ℕ

pub record PaymentGateway : Type 0 where
  pub create_order : ℕ → String → String → Action GatewayOrder
  -- The order, the payment, the signature, the expected amount and the expected currency.
  pub verify_payment : String → String → String → ℕ → String → Action Bool
  pub payment_signature : String → String → String
  pub verify_webhook_signature : String → String → Bool
  pub initiate_refund : String → ℕ → Action GatewayRefund
  pub fetch_payment : Option String → Option String → Action (Option GatewayPaymentSnapshot)
  pub fetch_refund : String → Action (Option GatewayRefundSnapshot)

-- What the session holds of the database, and the stream of the primary keys.
abbrev pub storage : Session → Db × Db × (ℕ → ℕ)
storage s = (s.db, s.durable, s.uuids)

-- A gateway is never handed the session: its calls leave the tables alone.
pub record TouchesNoTable (g : PaymentGateway) : Type 0 where
  pub create_order :
      (amount : ℕ) (currency receipt : String)
      → Frame storage (g.create_order amount currency receipt)
  pub verify_payment :
      (order payment signature : String) (amount : ℕ) (currency : String)
      → Frame storage (g.verify_payment order payment signature amount currency)
  pub initiate_refund :
      (payment : String) (amount : ℕ) → Frame storage (g.initiate_refund payment amount)
  pub fetch_payment :
      (payment order : Option String) → Frame storage (g.fetch_payment payment order)
  pub fetch_refund : (refund : String) → Frame storage (g.fetch_refund refund)

pub record Platform : Type 0 where
  pub gateway : PaymentGateway
  -- HMAC-SHA256 under the barcode secret.
  pub sign : BarcodePayload → String
  -- str() of a UUID.
  pub str_id : ℕ → String
  -- str(exc)[:n]
  pub excerpt : Error → ℕ → String
  -- What a Numeric(10, 2) column keeps of an amount in ten-thousandths, in hundredths.
  pub numeric : ℕ → ℕ
  pub stale_seconds : ℕ
  pub batch_size : ℕ
