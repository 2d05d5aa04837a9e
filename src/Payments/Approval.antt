-- ===== src/Payments/Approval.antt =====
-- PaymentService.approve_refund (app/modules/payments/service.py).
use event_platform_backend.Prelude.{ℕ, not, ◌&&◌, ◌||◌, some, leb}
use event_platform_backend.Models.Payments.{
  Payment, Refund, RefundStatus, is_verified, is_awaiting_approval,
}
use event_platform_backend.Models.Registrations.{Registration}
use event_platform_backend.Payments.Gateway.{Platform, GatewayRefund}
use event_platform_backend.Payments.Refunds.{has_attended, any_checked_in}
use event_platform_backend.Payments.Repository.{
  get_payment, get_refund, update_refund, refresh_payment, refresh_refund,
}
use event_platform_backend.Payments.Settlement.{apply_processed_refund}
use event_platform_backend.Payments.RefundEvents.{fail_registration}
use event_platform_backend.Registrations.Repository.{get_registration}
use event_platform_backend.Tickets.Repository.{list_by_registration_id}
use event_platform_backend.Session.{
  Result, ok, err, Action, raise_if, or_raise, query, modify, now, commit, attempt, LockKey,
  acquire_advisory_lock, acquire_event_capacity_lock, write_audit_log, ◌>>=◌, ◌>>◌,
}
use event_platform_backend.Session.Errors.{
  refund_not_found, payment_not_found, invalid_payment_state, invalid_refund_state,
}

-- refund.status != PENDING_ADMIN_APPROVAL
unfoldable require_awaiting : Refund → Action (Unit {0})
require_awaiting refund =
    raise_if (not (is_awaiting_approval refund.status))
      (invalid_refund_state "Refund is not awaiting admin approval.")

module _ (platform : Platform) (actor_id : ℕ) where
  -- What follows the gateway's answer, or the exception of the call.
  unfoldable conclude_refund :
      Refund → Payment → Registration → Result GatewayRefund → Action Refund
  unfolding refresh_refund
  conclude_refund refund payment g (err e) = do
    modify (
        update_refund refund.id λ r. record r {
          status = RefundStatus.failed;
          failure_reason = some (platform.excerpt e 500);
        })
    fail_registration (some g)
    write_audit_log "refund" refund.id "failed" (some actor_id)
    commit
    refresh_refund refund.id
  conclude_refund refund payment g (ok answer) = do
    t ← now
    modify (
        update_refund refund.id λ r. record r {
          gateway_refund_id = some answer.refund_id;
          status = RefundStatus.processed;
          processed_at = some t;
        })
    apply_processed_refund payment (some actor_id)
    write_audit_log "refund" refund.id "approved" (some actor_id)
    commit
    refresh_refund refund.id

  -- The guards under the locks, and the call of the gateway.
  unfoldable approve_fresh : Refund → Payment → Action Refund
  unfolding require_awaiting conclude_refund
  approve_fresh refund payment = do
    require_awaiting refund
    raise_if (not (is_verified payment.status))
        (invalid_payment_state "Only verified payments can be refunded.")
    gateway_payment_id ←
        or_raise payment.gateway_payment_id
          (invalid_refund_state "Verified payment is missing the gateway payment id.")
    found ← query (get_registration payment.registration_id)
    g ← or_raise found (invalid_payment_state "Registration not found.")
    tickets ← query (list_by_registration_id payment.registration_id)
    raise_if ((has_attended g.status || any_checked_in tickets) && leb payment.amount refund.amount)
        (invalid_refund_state "A checked-in or completed registration cannot be refunded.")
    t ← now
    modify (
        update_refund refund.id λ r. record r {
          status = RefundStatus.processing;
          approved_by = some actor_id;
          approved_at = some t;
        })
    answer ← attempt (platform.gateway.initiate_refund gateway_payment_id refund.amount)
    conclude_refund refund payment g answer

  unfoldable approve_refund : ℕ → Action Refund
  unfolding get_refund get_payment approve_fresh
  approve_refund refund_id = do
    first ← query (get_refund refund_id)
    seen ← or_raise first (refund_not_found "Refund not found.")
    require_awaiting seen
    row ← query (get_payment seen.payment_id)
    old ← or_raise row (payment_not_found "Payment not found.")
    acquire_event_capacity_lock old.event_id
    acquire_advisory_lock (LockKey.refund old.id)
    payment ← refresh_payment old.id
    refund ← refresh_refund seen.id
    approve_fresh refund payment
