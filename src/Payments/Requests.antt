-- ===== src/Payments/Requests.antt =====
-- PaymentService.request_refund (app/modules/payments/service.py): when it is accepted, and what
-- it writes.
use event_platform_backend.Prelude.{
  ℕ, ◌+◌, ◌≡◌, ◌≤◌, refl, Bool, true, false, ◌&&◌, ◌||◌, Option, none, some, String, leb, arith,
  if◌then◌else◌, ℤ, not-eq_false,
}
use event_platform_backend.Models.Payments.{Payment, Refund, is_verified}
use event_platform_backend.Models.Registrations.{Registration, refund_pending}
use event_platform_backend.Store.{Db, payment_key}
use event_platform_backend.Registrations.Repository.{get_registration, update_registration}
use event_platform_backend.Tickets.Repository.{list_by_registration_id}
use event_platform_backend.Payments.Repository.{get_payment}
use event_platform_backend.Payments.Refunds.{
  refunded_amount, add_refund, positive_amount, has_attended, is_cancelled, any_checked_in,
  new_refund, refund_registration, refund_amount, refund_payment, request_refund,
}
use event_platform_backend.Session.{Session, pure, modify, commit, ◌>>=◌}
use event_platform_backend.Session.Triples.{
  Triple, Triple-pure, Triple-raise, after_step, after-Quiet, after_query, after_guard, Steps, Ends,
}
use event_platform_backend.Session.Views.{
  Rows, rows, facts, Ignores-rows, Quiet-lock, Quiet-audit, Steps-modify, after_uuid4,
}

-- Why a refund of `amount` may be requested.
pub record MayRefund (payment_id amount : ℕ) (d : Db) (p : Payment) (g : Registration)
    : Type 0 where
  pub found : get_payment payment_id d ≡ some p
  pub verified : is_verified p.status ≡ true
  pub positive : 1 ≤ amount
  pub within : refunded_amount p.id d + amount ≤ p.amount
  pub registered : get_registration p.registration_id d ≡ some g
  pub not_attended :
      ((has_attended g.status || any_checked_in (list_by_registration_id p.registration_id d))
        && leb p.amount amount)
      ≡ false

-- The tables with the refund, and the registration marked unless it is cancelled.
abbrev pub with_refund : Refund → Registration → Db → Db
with_refund r g d =
    if is_cancelled g.status
    then add_refund r d
    else update_registration g.id (λ h. record h { status = refund_pending }) (add_refund r d)

abbrev pub Refunded : ℕ → ℕ → Option String → Bool → Rows → Refund → Session → Type 0
Refunded payment_id actor_id reason commits T r s =
    (p : Payment) × (g : Registration) × (amount : ℕ) × (n : ℕ) × MayRefund payment_id amount T.0 p
      g
    × (r ≡ new_refund (T.2.uuids n) p.id actor_id amount reason)
    × (rows s ≡ (with_refund r g T.0, if commits then with_refund r g T.0 else T.1, T.2))

positive_amount_lem : (a : Option ℤ) (paid n : ℕ) → positive_amount a paid ≡ some n → 1 ≤ n
positive_amount_lem a paid n h = ground arith

module _ (payment_id actor_id : ℕ) (amount : Option ℤ) (reason : Option String) (commits : Bool)
    (T : Rows) where
  mark-Steps :
      (c : Bool) (i : ℕ)
      → Steps rows
          (λ X. (
            (if c
                then X.0
                else update_registration i (λ g. record g { status = refund_pending }) X.0),
            X.1,
            X.2,
          ))
          (if c
            then pure tt
            else modify (update_registration i λ g. record g { status = refund_pending }))
  unfolding ◌>>=◌ modify update_registration
  mark-Steps true i = record { moves = λ s. refl; returns = λ s. (tt, refl) }
  mark-Steps false i = record { moves = λ s. refl; returns = λ s. (tt, refl) }

  commit-Steps :
      (c : Bool)
      → Steps rows (λ X. (X.0, if c then X.0 else X.1, X.2)) (if c then commit else pure tt)
  unfolding ◌>>=◌ commit
  commit-Steps true = record { moves = λ s. refl; returns = λ s. (tt, refl) }
  commit-Steps false = record { moves = λ s. refl; returns = λ s. (tt, refl) }

  facts-add_refund : (r : Refund) (d : Db) → facts (add_refund r d) ≡ add_refund r (facts d)
  unfolding add_refund
  facts-add_refund r d = refl

  refund_registration-Triple :
      (p : Payment) (n : ℕ) (o : Option Registration)
      → get_payment payment_id T.0 ≡ some p
      → is_verified p.status ≡ true
      → 1 ≤ n
      → refunded_amount p.id T.0 + n ≤ p.amount
      → get_registration p.registration_id T.0 ≡ o
      → Triple
          (λ s. rows s ≡ T)
          (refund_registration p actor_id n reason commits o)
          (Refunded payment_id actor_id reason commits T)
          (λ s. rows s ≡ T)
  unfolding refund_registration list_by_registration_id
  refund_registration-Triple p n none found verified positive within registered =
      Triple-raise _ (λ s h. h)
  refund_registration-Triple p n (some g) found verified positive within registered =
      after_query rows T _ (λ d. list_by_registration_id p.registration_id d.0) _ (λ s. refl)
        (after_guard (λ s h. h) _ _ _
          λ not_attended. after_uuid4 T _ λ k.
            let r : Refund = new_refund (T.2.uuids k) p.id actor_id n reason in
            let T' : Rows = (add_refund r T.0, T.1, T.2) in
            let T'' : Rows = (with_refund r g T.0, T.1, T.2) in
            let may : MayRefund payment_id n T.0 p g = record {
              found = found;
              verified = verified;
              positive = positive;
              within = within;
              registered = registered;
              not_attended = not_attended;
            } in
            after_step rows T _ _ _ (Steps-modify _ (facts-add_refund r)) λ _.
              after-Quiet rows T' _ _ (Quiet-audit rows Ignores-rows _ _ _ _) λ _.
                after_step rows T' _ _ _ (mark-Steps (is_cancelled g.status) g.id) λ _.
                  after_step rows T'' _ _ _ (commit-Steps commits)
                    λ _. Triple-pure _ λ s h. (p, g, n, k, may, refl, h))

  refund_amount-Triple :
      (p : Payment) (o : Option ℕ)
      → get_payment payment_id T.0 ≡ some p
      → is_verified p.status ≡ true
      → positive_amount amount p.amount ≡ o
      → Triple
          (λ s. rows s ≡ T)
          (refund_amount p actor_id reason commits o)
          (Refunded payment_id actor_id reason commits T)
          (λ s. rows s ≡ T)
  unfolding refund_amount refunded_amount get_registration
  refund_amount-Triple p none found verified sized = Triple-raise _ (λ s h. h)
  refund_amount-Triple p (some n) found verified sized =
      after_guard (λ s h. h) _ _ _
        λ small.
          after_query rows T _ (λ d. refunded_amount p.id d.0) _ (λ s. refl)
            (after_guard (λ s h. h) _ _ _
              λ within.
                after_query rows T _ (λ d. get_registration p.registration_id d.0) _ (λ s. refl)
                  (refund_registration-Triple p n _ found verified
                    (positive_amount_lem amount p.amount n sized) (ground arith) refl))

  refund_payment-Triple :
      (o : Option Payment)
      → get_payment payment_id T.0 ≡ o
      → Triple
          (λ s. rows s ≡ T)
          (refund_payment actor_id amount reason commits o)
          (Refunded payment_id actor_id reason commits T)
          (λ s. rows s ≡ T)
  unfolding refund_payment
  refund_payment-Triple none found = Triple-raise _ (λ s h. h)
  refund_payment-Triple (some p) found =
      after_guard (λ s h. h) _ _ _
        λ verified. refund_amount-Triple p _ found (not-eq_false _ verified) refl

  pub request_refund-Triple :
      Triple
        (λ s. rows s ≡ T)
        (request_refund payment_id actor_id amount reason commits)
        (Refunded payment_id actor_id reason commits T)
        (λ s. rows s ≡ T)
  unfolding request_refund get_payment
  request_refund-Triple = after-Quiet rows T _ _ (Quiet-lock rows Ignores-rows _) λ _.
      after_query rows T _ (λ d. get_payment payment_id d.0) _ (λ s. refl)
        (refund_payment-Triple _ refl)

-- An accepted refund request adds one refund, which awaits approval, and marks the registration
-- unless it is cancelled; the payment is verified, the amount is positive, and with it the refunds
-- stay within the payment. A refused request leaves the tables, as seen and as stored, as they were.
pub request_refund_effect :
    (payment_id actor_id : ℕ) (amount : Option ℤ) (reason : Option String) (commits : Bool)
    (s : Session)
    → Ends
        (Refunded payment_id actor_id reason commits (rows s))
        (λ t. rows t ≡ rows s)
        (request_refund payment_id actor_id amount reason commits s)
request_refund_effect payment_id actor_id amount reason commits s =
    (request_refund-Triple payment_id actor_id amount reason commits (rows s)).run s refl
