-- ===== src/Registrations/Asking.antt =====
-- RegistrationService.cancel_registration (app/modules/registrations/service.py): the refund that a
-- cancellation asks for (request_refund in app/modules/payments/service.py).
use event_platform_backend.Prelude.{
  ℕ, ◌≡◌, refl, ap, ◌∙◌, Bool, true, false, none, some, List, [], ◌∷◌, Option, String,
  if◌then◌else◌,
}
use event_platform_backend.Models.Payments.{Payment, Refund, is_verified, pending_admin_approval}
use event_platform_backend.Models.Registrations.{Registration, refund_pending}
use event_platform_backend.Payments.Refunds.{is_cancelled, add_refund, request_refund}
use event_platform_backend.Payments.Repository.{payments_of, get_payment}
use event_platform_backend.Payments.Requests.{with_refund, Refunded, request_refund-Triple}
use event_platform_backend.Registrations.Repository.{update_registration}
use event_platform_backend.Session.{Session, ok, scalar_one_or_none, write_audit_log}
use event_platform_backend.Session.Inside.{Inside, Inside-modify}
use event_platform_backend.Session.Triples.{Triple, Triple-post, Triple-err}
use event_platform_backend.Session.Views.{Rows, rows, facts}
use event_platform_backend.Store.{Db, payment_key}
use event_platform_backend.Table.{add}
use event_platform_backend.Table.Laws.{key-get}

-- The one payment of the registration is verified, and the last refund is one of it that awaits
-- approval.
abbrev pub Asked : ℕ → Db → Type 0
Asked id d =
    (p : Payment) × (r : Refund) × (l : List Refund) × (payments_of id d ≡ p ∷ [])
    × (is_verified p.status ≡ true)
    × (d.refunds ≡ add r l)
    × (r.payment_id ≡ p.id)
    × (r.status ≡ pending_admin_approval)

-- The refund `r` was added for `p`.
abbrev pub AskedWith : ℕ → Payment → Refund → Session → Type 0
AskedWith id p r s =
    (l : List Refund) × (payments_of id s.db ≡ p ∷ [])
    × (s.db.refunds ≡ add r l)
    × (r.payment_id ≡ p.id)
    × (r.status ≡ pending_admin_approval)

pub one_row : (xs : List Payment) (p : Payment) → scalar_one_or_none xs ≡ ok (some p) → xs ≡ p ∷ []
one_row [] p h = absurd (cc h)
one_row (x ∷ []) p h = ap (λ y. y ∷ []) (cc h)
one_row (x ∷ y ∷ xs) p h = absurd (cc h)

with_refund_lem :
    (r : Refund) (g : Registration) (d : Db)
    → ((with_refund r g d).refunds ≡ add r d.refunds) × ((with_refund r g d).payments ≡ d.payments)
unfolding add_refund update_registration
with_refund_lem r g d = by_status (is_cancelled g.status)
  where
    marked : Bool → Db
    marked b =
        if b
        then add_refund r d
        else update_registration g.id (λ h. record h { status = refund_pending }) (add_refund r d)

    by_status :
        (b : Bool) → ((marked b).refunds ≡ add r d.refunds) × ((marked b).payments ≡ d.payments)
    by_status true = (refl, refl)
    by_status false = (refl, refl)

module _ (id actor : ℕ) (reason : Option String) (p : Payment) (E : Session → Type 0)
    (free : (s : Session) → E s) where
  asked :
      (s : Session)
      → payments_of id s.db ≡ p ∷ []
      → (r : Refund) (t : Session) → Refunded p.id actor reason false (rows s) r t
      → AskedWith id p r t
  unfolding payments_of get_payment
  asked s one r t (q, g, amount, n, may, made, same) = (
    s.db.refunds,
    ap (λ (x : Rows). payments_of id x.0) same
        ∙ ap (λ ps. payments_of id (record s.db { payments = ps }))
            (with_refund_lem r g (facts s.db)).1
        ∙ one,
    ap (λ (x : Rows). x.0.refunds) same ∙ (with_refund_lem r g (facts s.db)).0,
    ap (λ (x : Refund). x.payment_id) made ∙ key-get p.id s.db.payments {x = q} may.found,
    ap (λ (x : Refund). x.status) made,
  )

  pub ask-Triple :
      Triple
        (λ s. payments_of id s.db ≡ p ∷ [])
        (request_refund p.id actor none reason false)
        (AskedWith id p)
        E
  ask-Triple = record {
    run = λ s one.
        (Triple-post _ (asked s one) (
            Triple-err _ (λ t h. free t)
              (request_refund-Triple p.id actor none reason false (rows s)))).run
          s refl;
  }

pub Inside-Asked-audit :
    (id : ℕ) (t : String) (i : ℕ) (action : String) (actor : Option ℕ)
    → Inside (Asked id) (write_audit_log t i action actor)
unfolding write_audit_log payments_of
Inside-Asked-audit id t i action actor = Inside-modify _ _ (record { keeps = λ d h. h })
