-- ===== src/Payments/Refunds.antt =====
-- PaymentService.request_refund (app/modules/payments/service.py) and the queries that it makes.
-- Amounts are whole hundredths.
use event_platform_backend.Prelude.{
  ℕ, zero, suc, ◌+◌, Bool, true, false, ◌&&◌, ◌||◌, not, Option, none, some, List, [], ◌∷◌, String,
  ◌==◌, ltb, leb, if◌then◌else◌, ℤ, pos, negsuc,
}
use event_platform_backend.Models.Payments.{
  Payment, Refund, RefundStatus, pending_admin_approval, is_verified,
}
use event_platform_backend.Models.Registrations.{
  Registration, RegistrationStatus, checked_in, completed, cancelled, refund_pending,
}
use event_platform_backend.Models.Tickets.{Ticket, is_checked_in}
use event_platform_backend.Store.{Db, payment_key}
use event_platform_backend.Table.{add}
use event_platform_backend.Payments.Repository.{get_payment}
use event_platform_backend.Registrations.Repository.{get_registration, update_registration}
use event_platform_backend.Tickets.Repository.{list_by_registration_id}
use event_platform_backend.Session.{
  Action, pure, raise, raise_if, query, modify, uuid4, commit, LockKey, acquire_advisory_lock,
  write_audit_log, ◌>>=◌, ◌>>◌,
}
use event_platform_backend.Session.Errors.{
  payment_not_found, invalid_payment_state, invalid_refund_state,
}

-- The statuses that _refunded_amount counts.
abbrev pub counts_as_refund : RefundStatus → Bool
counts_as_refund pending_admin_approval = true
counts_as_refund RefundStatus.processing = true
counts_as_refund RefundStatus.processed = true
counts_as_refund _ = false

-- SUM(amount)
abbrev pub sum_where : (Refund → Bool) → List Refund → ℕ
sum_where p [] = 0
sum_where p (r ∷ rs) = if p r then r.amount + sum_where p rs else sum_where p rs

-- _refunded_amount
unfoldable pub refunded_amount : ℕ → Db → ℕ
refunded_amount payment_id d =
    sum_where (λ r. r.payment_id == payment_id && counts_as_refund r.status) d.refunds

-- RefundRepository.create
unfoldable pub add_refund : Refund → Db → Db
add_refund r d = record d { refunds = add r d.refunds }

-- amount if amount is not None else payment.amount, where it is positive.
abbrev pub positive_amount : Option ℤ → ℕ → Option ℕ
positive_amount none zero = none
positive_amount none (suc n) = some (suc n)
positive_amount (some (pos zero)) paid = none
positive_amount (some (pos (suc n))) paid = some (suc n)
positive_amount (some (negsuc n)) paid = none

abbrev pub has_attended : RegistrationStatus → Bool
has_attended checked_in = true
has_attended completed = true
has_attended _ = false

abbrev pub is_cancelled : RegistrationStatus → Bool
is_cancelled cancelled = true
is_cancelled _ = false

abbrev pub any_checked_in : List Ticket → Bool
any_checked_in [] = false
any_checked_in (t ∷ ts) = is_checked_in t.status || any_checked_in ts

abbrev pub new_refund : ℕ → ℕ → ℕ → ℕ → Option String → Refund
new_refund id payment_id actor_id amount reason = record {
  id = id;
  payment_id = payment_id;
  requested_by = actor_id;
  amount = amount;
  reason = reason;
  status = pending_admin_approval;
  approved_by = none;
  gateway_refund_id = none;
  approved_at = none;
  processed_at = none;
  failure_reason = none;
  reconciliation_attempts = 0;
  last_reconciled_at = none;
  reconciliation_error = none;
}

-- request_refund, once the registration is found.
unfoldable pub refund_registration :
    Payment → ℕ → ℕ → Option String → Bool → Option Registration → Action Refund
refund_registration payment actor_id amount reason commits none =
    raise (invalid_payment_state "Registration not found.")
refund_registration payment actor_id amount reason commits (some registration) = do
  tickets ← query (list_by_registration_id payment.registration_id)
  raise_if
      ((has_attended registration.status || any_checked_in tickets) && leb payment.amount amount)
      (invalid_refund_state "A checked-in or completed registration cannot be fully refunded.")
  id ← uuid4
  modify (add_refund (new_refund id payment.id actor_id amount reason))
  write_audit_log "refund" id "requested" (some actor_id)
  if is_cancelled registration.status
      then pure tt
      else modify (update_registration registration.id λ g. record g { status = refund_pending })
  if commits then commit else pure tt
  pure (new_refund id payment.id actor_id amount reason)

-- request_refund, with the amount that it computed.
unfoldable pub refund_amount : Payment → ℕ → Option String → Bool → Option ℕ → Action Refund
unfolding refund_registration
refund_amount payment actor_id reason commits none =
    raise (invalid_refund_state "Refund amount must be greater than zero.")
refund_amount payment actor_id reason commits (some amount) = do
  raise_if (ltb payment.amount amount)
      (invalid_refund_state "Refund amount cannot exceed the original payment.")
  refunded ← query (refunded_amount payment.id)
  raise_if (ltb payment.amount (refunded + amount))
      (invalid_refund_state "Refunds cannot exceed the original payment.")
  registration ← query (get_registration payment.registration_id)
  refund_registration payment actor_id amount reason commits registration

-- request_refund, from the payment that it found.
unfoldable pub refund_payment : ℕ → Option ℤ → Option String → Bool → Option Payment → Action Refund
unfolding refund_amount
refund_payment actor_id amount reason commits none = raise (payment_not_found "Payment not found.")
refund_payment actor_id amount reason commits (some payment) = do
  raise_if (not (is_verified payment.status))
      (invalid_payment_state "Only verified payments can be refunded.")
  refund_amount payment actor_id reason commits (positive_amount amount payment.amount)

-- `commits` is the argument `commit`.
unfoldable pub request_refund : ℕ → ℕ → Option ℤ → Option String → Bool → Action Refund
unfolding refund_payment
request_refund payment_id actor_id amount reason commits = do
  acquire_advisory_lock (LockKey.refund payment_id)
  found ← query (get_payment payment_id)
  refund_payment actor_id amount reason commits found
