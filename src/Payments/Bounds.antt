-- ===== src/Payments/Bounds.antt =====
-- PaymentService.request_refund (app/modules/payments/service.py): the sum of a payment's refunds.
use event_platform_backend.Prelude.{
  ℕ, ◌+◌, ◌≡◌, ◌≤◌, refl, sym, ap, ◌∙◌, subst, Bool, true, false, ◌&&◌, Option, some, List, [], ◌∷◌,
  String, ◌==◌, arith, if◌then◌else◌, ℤ, ==_refl,
}
use event_platform_backend.Models.Payments.{Payment, Refund}
use event_platform_backend.Models.Registrations.{Registration, refund_pending}
use event_platform_backend.Store.{Db, payment_key}
use event_platform_backend.Table.{add}
use event_platform_backend.Table.Laws.{key-get}
use event_platform_backend.Registrations.Repository.{update_registration}
use event_platform_backend.Payments.Repository.{get_payment}
use event_platform_backend.Payments.Refunds.{
  sum_where, counts_as_refund, refunded_amount, add_refund, is_cancelled, new_refund,
  request_refund,
}
use event_platform_backend.Session.{Session, ok}
use event_platform_backend.Session.Triples.{Ends}
use event_platform_backend.Session.Views.{Rows, rows, facts}
use event_platform_backend.Payments.Requests.{with_refund, Refunded, request_refund_effect}

sum_where-add :
    (q : Refund → Bool) (r : Refund) (rs : List Refund)
    → q r ≡ true
    → sum_where q (add r rs) ≡ sum_where q rs + r.amount
sum_where-add q r [] h = ground arith
sum_where-add q r (x ∷ rs) h = ground (arith, sum_where-add q r rs h)

abbrev refunds_of : Db → List Refund
refunds_of d = d.refunds

refunds-with_refund :
    (r : Refund) (g : Registration) (d : Db) → (with_refund r g d).refunds ≡ add r d.refunds
unfolding add_refund update_registration
refunds-with_refund r g d = by_status (is_cancelled g.status)
  where
    by_status :
        (c : Bool)
        → refunds_of (
            if c
            then add_refund r d
            else update_registration g.id
                (λ h. record h { status = refund_pending })
                (add_refund r d))
          ≡ add r d.refunds
    by_status true = refl
    by_status false = refl

refunded_amount-with_refund :
    (n payment_id actor_id amount : ℕ) (reason : Option String) (g : Registration) (d : Db)
    → refunded_amount payment_id (with_refund (new_refund n payment_id actor_id amount reason) g d)
      ≡ refunded_amount payment_id d + amount
unfolding refunded_amount
refunded_amount-with_refund n payment_id actor_id amount reason g d =
    let r : Refund = new_refund n payment_id actor_id amount reason in
    let q : Refund → Bool = λ x. x.payment_id == payment_id && counts_as_refund x.status in
    ap (sum_where q) (refunds-with_refund r g d)
    ∙ sum_where-add q r d.refunds (ground (arith, ==_refl payment_id))

refunded_amount-facts :
    (payment_id : ℕ) (d : Db) → refunded_amount payment_id d ≡ refunded_amount payment_id (facts d)
unfolding refunded_amount
refunded_amount-facts payment_id d = refl

-- After an accepted request, the refunds of the payment that are open or paid come to no more than
-- the payment, and to the amount of the request more than before.
pub request_refund_bounded :
    (payment_id actor_id : ℕ) (amount : Option ℤ) (reason : Option String) (commits : Bool)
    (s s' : Session) (r : Refund)
    → request_refund payment_id actor_id amount reason commits s ≡ (ok r, s')
    → (p : Payment) × (get_payment payment_id s.db ≡ some p)
      × (refunded_amount payment_id s'.db ≤ p.amount)
      × (refunded_amount payment_id s'.db ≡ refunded_amount payment_id s.db + r.amount)
unfolding get_payment refunded_amount
request_refund_bounded payment_id actor_id amount reason commits s s' r returned =
    let (p, g, n, k, may, made, same) : Refunded payment_id actor_id reason commits (rows s) r s' =
      subst (Ends (Refunded payment_id actor_id reason commits (rows s)) (λ t. rows t ≡ rows s))
        returned (request_refund_effect payment_id actor_id amount reason commits s) in
    let named : p.id ≡ payment_id = key-get payment_id s.db.payments may.found in
    let total : refunded_amount payment_id s'.db ≡ refunded_amount payment_id s.db + n =
      refunded_amount-facts payment_id s'.db
      ∙ ap (λ (x : Rows). refunded_amount payment_id x.0) same
      ∙ ap (λ x. refunded_amount payment_id (with_refund x g (facts s.db)))
          (made ∙ ap (λ i. new_refund (s.uuids k) i actor_id n reason) named)
      ∙ refunded_amount-with_refund (s.uuids k) payment_id actor_id n reason g (facts s.db)
      ∙ ap (λ m. m + n) (sym (refunded_amount-facts payment_id s.db)) in
    (
      p,
      may.found,
      rw (total) (subst (λ i. refunded_amount i (facts s.db) + n ≤ p.amount) named may.within),
      total ∙ ap (λ (x : Refund). refunded_amount payment_id s.db + x.amount) (sym made),
    )
