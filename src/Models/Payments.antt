-- ===== src/Models/Payments.antt =====
-- app/modules/payments/models.py: payments, refunds, discount codes and the inbox of the provider's
-- webhooks. Amounts are in hundredths.
use event_platform_backend.Prelude.{ℕ, Bool, true, false, Option, String, ℤ}

pub data PaymentStatus : Type 0 where
  initiated verified failed refunded : PaymentStatus

pub data RefundStatus : Type 0 where
  draft pending_admin_approval approved rejected processing processed failed : RefundStatus

pub record Payment : Type 0 where
  pub id : ℕ
  pub event_id : ℕ
  pub registration_id : ℕ
  pub user_id : ℕ
  pub amount : ℕ
  pub currency : String
  pub status : PaymentStatus
  pub gateway_order_id : Option String
  pub gateway_payment_id : Option String
  pub gateway_signature : Option String
  pub discount_code : Option String
  pub verified_at : Option ℕ
  pub captured_at : Option ℕ
  pub reconciliation_status : String
  pub reconciliation_attempts : ℕ
  pub last_reconciled_at : Option ℕ
  pub reconciliation_error : Option String
  pub created_at : ℕ

pub record Refund : Type 0 where
  pub id : ℕ
  pub payment_id : ℕ
  pub requested_by : ℕ
  pub amount : ℕ
  pub reason : Option String
  pub status : RefundStatus
  pub approved_by : Option ℕ
  pub gateway_refund_id : Option String
  pub approved_at : Option ℕ
  pub processed_at : Option ℕ
  pub failure_reason : Option String
  pub reconciliation_attempts : ℕ
  pub last_reconciled_at : Option ℕ
  pub reconciliation_error : Option String

pub data DiscountType : Type 0 where
  percentage fixed : DiscountType

pub record DiscountCode : Type 0 where
  pub id : ℕ
  -- NULL for a code of every event.
  pub event_id : Option ℕ
  pub code : String
  pub discount_type : DiscountType
  pub value : ℤ
  pub is_active : Bool

pub data WebhookProcessingStatus : Type 0 where
  received processing processed failed : WebhookProcessingStatus

-- The entity of a payment and of a refund in a webhook, by the keys that the service reads. An
-- amount is a number, or a text that int() reads as one.
pub record PaymentEntity : Type 0 where
  pub id : Option String
  pub order_id : Option String
  pub payment_id : Option String
  pub amount : Option ℤ
  pub currency : Option String

pub record RefundEntity : Type 0 where
  pub id : Option String
  pub order_id : Option String
  pub payment_id : Option String
  pub amount : Option ℤ
  pub status : Option String
  pub error_description : Option String

-- The JSON body of a webhook; an entity is none where it is missing or empty.
pub record WebhookPayload : Type 0 where
  pub event : Option String
  pub id : Option String
  pub event_id : Option String
  pub payment : Option PaymentEntity
  pub refund : Option RefundEntity

pub record PaymentWebhookInbox : Type 0 where
  pub id : ℕ
  pub provider_event_id : String
  pub event_type : String
  pub received_at : ℕ
  pub payload : WebhookPayload
  pub processing_status : WebhookProcessingStatus
  pub attempts : ℕ
  pub failure_reason : Option String
  pub processed_at : Option ℕ

abbrev pub is_verified : PaymentStatus → Bool
is_verified PaymentStatus.verified = true
is_verified _ = false

abbrev pub is_initiated : PaymentStatus → Bool
is_initiated PaymentStatus.initiated = true
is_initiated _ = false

abbrev pub is_refunded : PaymentStatus → Bool
is_refunded refunded = true
is_refunded _ = false

abbrev pub is_awaiting_approval : RefundStatus → Bool
is_awaiting_approval pending_admin_approval = true
is_awaiting_approval _ = false

abbrev pub is_processing_refund : RefundStatus → Bool
is_processing_refund RefundStatus.processing = true
is_processing_refund _ = false

abbrev pub is_processed_refund : RefundStatus → Bool
is_processed_refund RefundStatus.processed = true
is_processed_refund _ = false

abbrev pub is_processed : WebhookProcessingStatus → Bool
is_processed WebhookProcessingStatus.processed = true
is_processed _ = false

abbrev pub is_failed : WebhookProcessingStatus → Bool
is_failed WebhookProcessingStatus.failed = true
is_failed _ = false
