-- ===== src/Payments/Verification.antt =====
-- PaymentService._verify_payment, handle_webhook and verify_payment_for_actor
-- (app/modules/payments/service.py).
use event_platform_backend.Prelude.{
  ℕ, Bool, true, false, Option, none, some, String, ◌==◌, if◌then◌else◌,
}
use event_platform_backend.Models.Payments.{Payment, PaymentStatus, is_verified, is_refunded}
use event_platform_backend.Models.Registrations.{
  Registration, RegistrationStatus, confirmed, rejected, cancelled,
}
use event_platform_backend.Payments.Gateway.{Platform}
use event_platform_backend.Payments.Repository.{update_payment, refresh_payment, payments_of_order}
use event_platform_backend.Registrations.Repository.{get_registration, update_registration}
use event_platform_backend.Tickets.Issue.{issue_registration_tickets}
use event_platform_backend.Session.{
  Action, pure, raise, raise_if, or_raise, query, lift, modify, now, commit, LockKey,
  acquire_advisory_lock, scalar_one_or_none, write_audit_log, ◌>>=◌, ◌>>◌,
}
use event_platform_backend.Session.Errors.{
  payment_not_found, invalid_payment_state, payment_verification_failed,
}

-- value or ""
abbrev pub or_empty : Option String → String
or_empty none = ""
or_empty (some s) = s

-- registration is None or registration.status in {REJECTED, CANCELLED}
abbrev pub payable_registration : Option Registration → Option Registration
payable_registration none = none
payable_registration (some g) = if is_gone g.status then none else some g
  where
    is_gone : RegistrationStatus → Bool
    is_gone rejected = true
    is_gone cancelled = true
    is_gone _ = false

abbrev pub refused : Payment → Payment
refused p = record p {
  status = PaymentStatus.failed;
  reconciliation_status = "failed";
  reconciliation_error = some "Payment signature verification failed.";
}

abbrev pub accepted : String → String → ℕ → ℕ → Payment → Payment
accepted gateway_payment_id gateway_signature t u p = record p {
  gateway_payment_id = some gateway_payment_id;
  gateway_signature = some gateway_signature;
  status = PaymentStatus.verified;
  reconciliation_status = "verified";
  reconciliation_error = none;
  verified_at = some t;
  captured_at = some u;
}

-- if commit: await self.db.commit()
unfoldable pub commit_if : Bool → Action (Unit {0})
commit_if b = if b then commit else pure tt

module _ (platform : Platform) where
  -- TicketService.issue_ticket_for_payment, on the registration that the caller has read.
  unfoldable pub issue_ticket_for_payment : Payment → Registration → Action (Unit {0})
  issue_ticket_for_payment p g = issue_registration_tickets platform.sign g (some p.id) p.user_id

  -- The gateway has answered that the payment is valid.
  unfoldable pub accept_payment : Payment → String → String → Bool → Action Payment
  unfolding issue_ticket_for_payment
  accept_payment p gateway_payment_id gateway_signature commits = do
    found ← query (get_registration p.registration_id)
    g ←
        or_raise (payable_registration found)
          (invalid_payment_state "This registration is no longer payable.")
    t ← now
    u ← now
    modify (update_payment p.id (accepted gateway_payment_id gateway_signature t u))
    modify (update_registration g.id λ h. record h { status = confirmed })
    issue_ticket_for_payment p g
    write_audit_log "payment" p.id "verified" none
    commit_if commits
    refresh_payment p.id

  -- It has answered that it is not.
  unfoldable pub refuse_payment : Payment → Bool → Action Payment
  refuse_payment p commits = do
    modify (update_payment p.id refused)
    commit_if commits
    raise (payment_verification_failed "Payment signature verification failed.")

  -- _verify_payment, on the row that the refresh read.
  unfoldable pub verify_fresh : Payment → String → String → Bool → Action Payment
  unfolding accept_payment refuse_payment
  verify_fresh p gateway_payment_id gateway_signature commits = do
    raise_if (is_refunded p.status)
        (invalid_payment_state "A refunded payment cannot confirm a registration.")
    if is_verified p.status then pure p else (do
      valid ←
          platform.gateway.verify_payment (or_empty p.gateway_order_id) gateway_payment_id
            gateway_signature p.amount p.currency
      if valid
          then accept_payment p gateway_payment_id gateway_signature commits
          else refuse_payment p commits)

  -- _verify_payment; `commits` is the argument `commit`.
  unfoldable pub verify_payment : ℕ → String → String → Bool → Action Payment
  unfolding verify_fresh
  verify_payment payment_id gateway_payment_id gateway_signature commits = do
    acquire_advisory_lock (LockKey.payment_verification payment_id)
    p ← refresh_payment payment_id
    verify_fresh p gateway_payment_id gateway_signature commits

  unfoldable handle_webhook : String → String → String → Action Payment
  unfolding verify_payment
  handle_webhook gateway_order_id gateway_payment_id gateway_signature = do
    rows ← query (payments_of_order (some gateway_order_id))
    found ← lift (scalar_one_or_none rows)
    p ← or_raise found (payment_not_found "Payment not found.")
    if is_refunded p.status
        then pure p
        else verify_payment p.id gateway_payment_id gateway_signature true

  -- payment if it is the actor's
  abbrev pub owned_payment : ℕ → Option Payment → Option Payment
  owned_payment actor_id none = none
  owned_payment actor_id (some p) = if p.user_id == actor_id then some p else none

  unfoldable verify_payment_for_actor : String → String → String → ℕ → Action Payment
  unfolding verify_payment
  verify_payment_for_actor gateway_order_id gateway_payment_id gateway_signature actor_id = do
    rows ← query (payments_of_order (some gateway_order_id))
    found ← lift (scalar_one_or_none rows)
    p ←
        or_raise (owned_payment actor_id found)
          (payment_verification_failed "Payment does not belong to this account.")
    verify_payment p.id gateway_payment_id gateway_signature true
