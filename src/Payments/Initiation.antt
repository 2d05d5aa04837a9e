-- ===== src/Payments/Initiation.antt =====
-- PaymentService.initiate_payment (app/modules/payments/service.py).
use event_platform_backend.Prelude.{
  ℕ, ◌/◌, Bool, true, false, not, ◌||◌, Option, none, some, String, ◌==◌, if◌then◌else◌,
}
use event_platform_backend.Models.Events.{Event, EventConfiguration}
use event_platform_backend.Models.Payments.{Payment, PaymentStatus, is_verified, is_initiated}
use event_platform_backend.Models.Registrations.{
  Registration, RegistrationStatus, pending_payment, approved,
}
use event_platform_backend.Events.{get_event, get_configuration}
use event_platform_backend.Registrations.Repository.{get_registration}
use event_platform_backend.Payments.Amounts.{calculate_amount}
use event_platform_backend.Payments.Gateway.{Platform}
use event_platform_backend.Payments.Repository.{
  payments_of, update_payment, add_payment, refresh_payment,
}
use event_platform_backend.Session.{
  Action, pure, raise_if, or_raise, query, lift, modify, now, uuid4, commit, LockKey,
  acquire_advisory_lock, scalar_one_or_none, write_audit_log, ◌>>=◌, ◌>>◌,
}
use event_platform_backend.Session.Errors.{
  invalid_payment_state, event_not_found, duplicate_payment,
}

-- _get_registration_event_config
unfoldable get_registration_event_config : ℕ → Action (Registration × Event × EventConfiguration)
get_registration_event_config registration_id = do
  found ← query (get_registration registration_id)
  registration ← or_raise found (invalid_payment_state "Registration not found.")
  row ← query (get_event registration.event_id)
  event ← or_raise row (event_not_found "Event not found.")
  configuration ← query (get_configuration event.id)
  config ← or_raise configuration (invalid_payment_state "Event configuration is missing.")
  pure (registration, event, config)

-- existing.status in {INITIATED, VERIFIED}
abbrev pub is_open_payment : Option Payment → Bool
is_open_payment none = false
is_open_payment (some p) = is_initiated p.status || is_verified p.status

-- {PENDING_PAYMENT, APPROVED}
abbrev pub is_payable : RegistrationStatus → Bool
is_payable pending_payment = true
is_payable approved = true
is_payable _ = false

-- The fee, where there is one and it is positive.
abbrev pub fee_of : Option ℕ → Option ℕ
fee_of none = none
fee_of (some fee) = if fee == 0 then none else some fee

-- The attributes that initiate_payment sets on a payment that exists.
abbrev pub started_again : ℕ → String → String → Option String → Payment → Payment
started_again amount currency order_id code p = record p {
  amount = amount;
  currency = currency;
  gateway_order_id = some order_id;
  gateway_payment_id = none;
  gateway_signature = none;
  discount_code = code;
  status = PaymentStatus.initiated;
  verified_at = none;
  captured_at = none;
}

abbrev pub new_payment : ℕ → ℕ → ℕ → ℕ → ℕ → String → String → Option String → ℕ → Payment
new_payment id event_id registration_id user_id amount currency order_id code t = record {
  id = id;
  event_id = event_id;
  registration_id = registration_id;
  user_id = user_id;
  amount = amount;
  currency = currency;
  status = PaymentStatus.initiated;
  gateway_order_id = some order_id;
  gateway_payment_id = none;
  gateway_signature = none;
  discount_code = code;
  verified_at = none;
  captured_at = none;
  reconciliation_status = "not_required";
  reconciliation_attempts = 0;
  last_reconciled_at = none;
  reconciliation_error = none;
  created_at = t;
}

-- The payment row, made or set again; its id. `amount` is what the column keeps.
unfoldable store_payment :
    Registration → ℕ → ℕ → ℕ → String → String → Option String → Option Payment → Action ℕ
unfolding add_payment
store_payment g event_id actor_id amount currency order_id code (some p) = do
  modify (update_payment p.id (started_again amount currency order_id code))
  pure p.id
store_payment g event_id actor_id amount currency order_id code none = do
  id ← uuid4
  t ← now
  modify (add_payment (new_payment id event_id g.id actor_id amount currency order_id code t))
  pure id

module _ (platform : Platform) where
  -- initiate_payment, under the lock, from the payment that exists.
  unfoldable initiate_unless :
      Registration
      → Event
      → EventConfiguration
      → ℕ
      → Option String
      → Option Payment
      → Action Payment
  unfolding calculate_amount store_payment refresh_payment
  initiate_unless g event config actor_id discount_code existing = do
    raise_if (is_open_payment existing)
        (duplicate_payment "A payment already exists for this registration.")
    fee ←
        or_raise (fee_of config.fee_amount)
          (invalid_payment_state "This event does not require payment.")
    raise_if (not (is_payable g.status))
        (invalid_payment_state "Registration is not ready for payment.")
    priced ← calculate_amount fee event.id discount_code
    order ← platform.gateway.create_order (priced.0 / 100) config.currency (platform.str_id g.id)
    id ←
        store_payment g event.id actor_id (platform.numeric priced.0) config.currency order.order_id
          priced.1 existing
    write_audit_log "payment" id "initiated" (some actor_id)
    commit
    refresh_payment id

  unfoldable initiate_payment : ℕ → ℕ → Option String → Action Payment
  unfolding get_registration_event_config payments_of initiate_unless
  initiate_payment registration_id actor_id discount_code = do
    found ← get_registration_event_config registration_id
    raise_if (not (found.0.user_id == actor_id))
        (invalid_payment_state "You cannot initiate payment for this registration.")
    acquire_advisory_lock (LockKey.payment_initiation registration_id)
    rows ← query (payments_of registration_id)
    existing ← lift (scalar_one_or_none rows)
    initiate_unless found.0 found.1 found.2 actor_id discount_code existing
