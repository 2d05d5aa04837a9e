-- ===== src/Payments.antt =====
-- Payments (app/modules/payments).
pub mod Gateway
pub mod Repository
pub mod Amounts
pub mod Pricing
pub mod Initiation
pub mod Settlement
pub mod Verification
pub mod RefundEvents
pub mod Webhooks
pub mod Approval
pub mod Reconciliation
pub mod Workers
pub mod Razorpay
pub mod Client
pub mod Kept
pub mod Inbox
pub mod Once
pub mod Atomic
pub mod Refunds
pub mod Requests
pub mod Bounds
pub mod Durable
pub mod Tests
pub mod WebhookTests
