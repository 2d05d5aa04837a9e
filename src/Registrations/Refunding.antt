-- ===== src/Registrations/Refunding.antt =====
-- The branch of cancel_registration with a refund (app/modules/registrations/service.py,
-- app/modules/payments/service.py) and the capacity.
use mathlib.Core.Option.{some-injective}
use event_platform_backend.Prelude.{
  ℕ, ◌≡◌, refl, sym, ◌∙◌, subst, true, false, Option, none, some, List, [], ◌∷◌, String, ℤ, arith,
  ◌==◌, All, select,
}
use event_platform_backend.Models.Payments.{Payment, Refund}
use event_platform_backend.Models.Registrations.{Registration, refund_pending}
use event_platform_backend.Payments.Refunds.{
  add_refund, refund_registration, refund_amount, refund_payment, request_refund,
}
use event_platform_backend.Payments.Repository.{get_payment, payments_of}
use event_platform_backend.Registrations.Repository.{get_registration, update_registration}
use event_platform_backend.Registrations.Seated.{
  Seated, Safe-Seated, Safe-revise, Inside-audit, seated_rules,
}
use event_platform_backend.Session.{
  Session, Action, query, ok, acquire_advisory_lock, scalar_one_or_none, ◌>>=◌,
}
use event_platform_backend.Session.Inside.{
  Inside, Inside-bind, Inside-modify, Inside-raise_if, Inside-query, Inside-uuid4, inside_rules,
}
use event_platform_backend.Session.Invariants.{Safe}
use event_platform_backend.Store.{Db, registration_key, payment_key}
use event_platform_backend.Table.{get, IsKeyed}
use event_platform_backend.Table.Keys.{Selected, select-Selected}
use event_platform_backend.Table.Laws.{key-get}

module _ (id : ℕ) where
  Safe-add_refund : (r : Refund) → Safe (Seated id) (add_refund r)
  unfolding add_refund
  Safe-add_refund r = Safe-Seated id _ (λ d. refl) (λ d. refl)

  pub Safe-refund_pending :
      Safe (Seated id) (update_registration id λ g. record g { status = refund_pending })
  Safe-refund_pending = Safe-revise id _ (λ g. refl) (λ g. refl) (λ g p. refl)

  Inside-refund_registration :
      (p : Payment) (actor amount : ℕ) (reason : Option String) (g : Registration)
      → Safe (Seated id) (update_registration g.id λ r. record r { status = refund_pending })
      → Inside (Seated id) (refund_registration p actor amount reason false (some g))
  unfolding refund_registration
  Inside-refund_registration p actor amount reason g safe =
      Inside-bind _ _ _ (Inside-query _ _) λ tickets. Inside-bind _ _ _ (Inside-raise_if _ _ _) λ _.
        Inside-bind _ _ _ (Inside-uuid4 _) λ i.
          Inside-bind _ _ _ (Inside-modify _ _ (Safe-add_refund _)) λ _.
            Inside-bind _ _ _ (Inside-audit id _ _ _ _) λ _. search (inside_rules, safe) depth 12

  Inside-no_registration :
      (p : Payment) (actor amount : ℕ) (reason : Option String)
      → Inside (Seated id) (refund_registration p actor amount reason false none)
  unfolding refund_registration
  Inside-no_registration p actor amount reason = search seated_rules

  Inside-refund_found :
      (p : Payment) (actor amount : ℕ) (reason : Option String)
      → p.registration_id ≡ id
      → (d : Db) (o : Option Registration) → get_registration p.registration_id d ≡ o
      → Inside (Seated id) (refund_registration p actor amount reason false o)
  unfolding get_registration
  Inside-refund_found p actor amount reason same d none found =
      Inside-no_registration p actor amount reason
  Inside-refund_found p actor amount reason same d (some g) found =
      Inside-refund_registration p actor amount reason g (
        subst
          (λ i. Safe (Seated id) (update_registration i λ r. record r { status = refund_pending }))
          (sym (key-get p.registration_id d.registrations {x = g} found ∙ same))
          Safe-refund_pending)

  Inside-read :
      {A B : Type 0} (f : Db → A) (k : A → Action B)
      → ((d : Db) → Inside (Seated id) (k (f d)))
      → Inside (Seated id) (query f >>= k)
  unfolding ◌>>=◌
  Inside-read f k h = record { at = λ s p. (h s.db).at s p }

  Inside-refund_amount :
      (p : Payment) (actor : ℕ) (reason : Option String) (o : Option ℕ)
      → p.registration_id ≡ id
      → Inside (Seated id) (refund_amount p actor reason false o)
  unfolding refund_amount
  Inside-refund_amount p actor reason none same = search inside_rules
  Inside-refund_amount p actor reason (some amount) same =
      Inside-bind _ _ _ (Inside-raise_if _ _ _) λ _.
        Inside-bind _ _ _ (Inside-query _ _) λ refunded.
          Inside-bind _ _ _ (Inside-raise_if _ _ _)
            λ _. Inside-read _ _ λ d. Inside-refund_found p actor amount reason same d _ refl

  Inside-refund_payment :
      (actor : ℕ) (amount : Option ℤ) (reason : Option String) (o : Option Payment)
      → ((p : Payment) → o ≡ some p → p.registration_id ≡ id)
      → Inside (Seated id) (refund_payment actor amount reason false o)
  unfolding refund_payment
  Inside-refund_payment actor amount reason none h = search inside_rules
  Inside-refund_payment actor amount reason (some p) h =
      Inside-bind _ _ _ (Inside-raise_if _ _ _)
        λ _. Inside-refund_amount p actor reason _ (h p refl)

  -- The payment of this id belongs to the registration.
  pub record PaysFor (payment_id : ℕ) (d : Db) : Type 0 where
    pub registration : (p : Payment) → get_payment payment_id d ≡ some p → p.registration_id ≡ id

  -- A request for a refund, and a write that marks the registration.
  pub refunded :
      (payment_id actor : ℕ) (amount : Option ℤ) (reason : Option String) (s : Session)
      → PaysFor payment_id s.db
      → Seated id s.db
      → Seated id (request_refund payment_id actor amount reason false s).1.db
  unfolding request_refund acquire_advisory_lock ◌>>=◌
  refunded payment_id actor amount reason s pays h =
      (Inside-refund_payment actor amount reason (get_payment payment_id s.db) pays.registration).at
        _ h

-- The one payment that cancel_registration reads pays for the registration.
pub read-PaysFor :
    (id : ℕ) (p : Payment) (d : Db)
    → IsKeyed d.payments
    → scalar_one_or_none (payments_of id d) ≡ ok (some p)
    → PaysFor id p.id d
unfolding payments_of get_payment
read-PaysFor id p d keyed one = record {
  registration = λ q found.
      one_row (select (λ r. r.registration_id == id) d.payments) one
        (select-Selected (λ r. r.registration_id == id) d.payments keyed) q found;
}
  where
    one_row :
        (rows : List Payment)
        → scalar_one_or_none rows ≡ ok (some p)
        → All (Selected (λ r. r.registration_id == id) d.payments) rows
        → (q : Payment) → get p.id d.payments ≡ some q
        → q.registration_id ≡ id
    one_row [] e h q found = absurd (cc e)
    one_row (x ∷ []) e h q found =
        let same : x ≡ p = cc e in
        let stored : get p.id d.payments ≡ some p =
          subst (λ y. get y.id d.payments ≡ some y) same h.0.stored in
        let meets : (p.registration_id == id) ≡ true =
          subst (λ y. (y.registration_id == id) ≡ true) same h.0.meets in
        subst (λ y. y.registration_id ≡ id) (some-injective p q (sym stored ∙ found))
          (ground (arith, meets))
    one_row (x ∷ y ∷ r) e h q found = absurd (cc e)
