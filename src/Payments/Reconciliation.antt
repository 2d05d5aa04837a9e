-- ===== src/Payments/Reconciliation.antt =====
-- PaymentService.reconcile_payment and the calls that the workers make (app/modules/payments/service.py).
use event_platform_backend.Prelude.{
  ℕ, ◌+◌, false, not, ◌||◌, Option, none, some, [], ◌∷◌, String, str_eq, ◌==◌, if◌then◌else◌,
}
use event_platform_backend.Models.Payments.{Payment, PaymentStatus}
use event_platform_backend.Models.Registrations.{Registration, cancelled}
use event_platform_backend.Events.{get_event, get_configuration}
use event_platform_backend.Payments.Gateway.{Platform, GatewayPaymentSnapshot}
use event_platform_backend.Payments.Initiation.{is_payable}
use event_platform_backend.Payments.Repository.{
  get_payment, update_payment, refresh_payment, opt_str_eq,
}
use event_platform_backend.Payments.Settlement.{reopen_closed}
use event_platform_backend.Payments.Verification.{or_empty, verify_payment}
use event_platform_backend.Payments.RefundEvents.{status_in}
use event_platform_backend.Registrations.Repository.{get_registration, update_registration}
use event_platform_backend.Waitlists.Operations.Promote.{promote_next}
use event_platform_backend.Session.{
  Result, ok, err, Action, pure, raise, query, modify, now, commit, rollback, attempt, LockKey,
  acquire_advisory_lock, acquire_event_capacity_lock, write_audit_log, ◌>>=◌, ◌>>◌,
}

-- reconciliation_status and reconciliation_error
abbrev pub marked : String → Option String → Payment → Payment
marked status error p = record p { reconciliation_status = status; reconciliation_error = error }

-- The registration, if it still waits for its payment.
abbrev pub awaiting : Option Registration → Option Registration
awaiting none = none
awaiting (some g) = if is_payable g.status then some g else none

-- The registration whose payment failed gives its seat back.
unfoldable release_awaiting : Payment → Option Registration → Action (Unit {0})
release_awaiting payment none = pure tt
release_awaiting payment (some g) = do
  t ← now
  modify (
      update_registration g.id λ h. record h {
        status = cancelled;
        cancelled_at = some (or_stamp h.cancelled_at t);
        cancellation_requested_at = some (or_stamp h.cancellation_requested_at t);
        cancellation_reason = some "Payment provider reported a failed payment.";
      })
  event ← query (get_event payment.event_id)
  config ← query (get_configuration payment.event_id)
  reopen_closed payment.event_id config event
  promote_next payment.event_id (some g.participation_type)
  write_audit_log "registration" g.id "cancelled_after_payment_failure" none
  where
    -- value or t
    or_stamp : Option ℕ → ℕ → ℕ
    or_stamp none t = t
    or_stamp (some u) t = u

unfoldable release_checked : Payment → Option Registration → Action (Unit {0})
unfolding release_awaiting
release_checked payment none = pure tt
release_checked payment (some first) = do
  acquire_event_capacity_lock payment.event_id
  found ← query (get_registration payment.registration_id)
  release_awaiting payment (awaiting found)

-- _release_failed_payment_registration
unfoldable release_failed_payment_registration : Payment → Action (Unit {0})
unfolding release_checked
release_failed_payment_registration payment = do
  found ← query (get_registration payment.registration_id)
  release_checked payment (awaiting found)

-- What the snapshot says of the payment.
pub data PaymentReport : Type 0 where
  unknown mismatch captured failed refunded pending : PaymentReport

abbrev pub payment_report : Payment → GatewayPaymentSnapshot → PaymentReport
payment_report p s =
    if not (opt_str_eq (some s.order_id) p.gateway_order_id) || not (s.amount == p.amount)
    then mismatch
    else if status_in (some s.status) ("captured" ∷ "authorized" ∷ "paid" ∷ [])
    then captured
    else if str_eq s.status "failed"
    then failed
    else if str_eq s.status "refunded"
    then refunded
    else pending

module _ (platform : Platform) where
  unfoldable apply_report : Payment → GatewayPaymentSnapshot → PaymentReport → Action (Unit {0})
  unfolding release_failed_payment_registration
  apply_report p s unknown =
      modify
        (update_payment p.id (marked "unknown" (some "Provider has not returned a payment state.")))
  apply_report p s mismatch = modify (
      update_payment p.id
        (marked "mismatch" (some "Provider payment does not match the local order.")))
  apply_report p s captured = do
    verify_payment platform p.id s.payment_id
        (platform.gateway.payment_signature (or_empty p.gateway_order_id) s.payment_id) false
    modify (update_payment p.id (marked "verified" none))
  apply_report p s failed = do
    modify (update_payment p.id (marked "failed" none))
    modify (update_payment p.id λ q. record q { status = PaymentStatus.failed })
    release_failed_payment_registration p
  apply_report p s refunded = modify (update_payment p.id (marked "refunded" none))
  apply_report p s pending = modify (update_payment p.id (marked "pending" none))

  unfoldable apply_snapshot : Payment → Option GatewayPaymentSnapshot → Action (Unit {0})
  unfolding apply_report
  apply_snapshot p none =
      modify
        (update_payment p.id (marked "unknown" (some "Provider has not returned a payment state.")))
  apply_snapshot p (some s) = apply_report p s (payment_report p s)

  -- The try block of reconcile_payment.
  unfoldable reconcile_found : Payment → Action Payment
  unfolding apply_snapshot
  reconcile_found p = do
    snapshot ← platform.gateway.fetch_payment p.gateway_payment_id p.gateway_order_id
    apply_snapshot p snapshot
    commit
    refresh_payment p.id

  -- The except clause: the session is rolled back, and the failure is recorded.
  unfoldable conclude_payment : ℕ → Result Payment → Action (Option Payment)
  conclude_payment payment_id (ok p) = pure (some p)
  conclude_payment payment_id (err e) = do
    rollback
    row ← query (get_payment payment_id)
    record_failure row
    raise e
    where
      record_failure : Option Payment → Action (Unit {0})
      record_failure none = pure tt
      record_failure (some p) = do
        modify (update_payment p.id (marked "failed" (some (platform.excerpt e 1000))))
        commit

  unfoldable reconcile_row : Option Payment → Action (Option Payment)
  unfolding reconcile_found conclude_payment
  reconcile_row none = pure none
  reconcile_row (some p) = do
    t ← now
    modify (
        update_payment p.id λ q. record q {
          reconciliation_attempts = q.reconciliation_attempts + 1;
          last_reconciled_at = some t;
        })
    result ← attempt (reconcile_found p)
    conclude_payment p.id result

  unfoldable pub reconcile_payment : ℕ → Action (Option Payment)
  unfolding reconcile_row
  reconcile_payment payment_id = do
    acquire_advisory_lock (LockKey.payment_reconciliation payment_id)
    row ← query (get_payment payment_id)
    reconcile_row row
