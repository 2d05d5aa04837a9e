-- ===== src/Registrations/Settling.antt =====
-- The refund or the release of a registration that is cancelled
-- (app/modules/registrations/service.py) and the capacity.
use event_platform_backend.Prelude.{ℕ, ◌≡◌, refl, ap, sym, ◌∙◌, subst, Option, none, some, String}
use event_platform_backend.Models.Events.{Event, EventConfiguration}
use event_platform_backend.Models.Payments.{Payment}
use event_platform_backend.Models.Registrations.{Registration}
use event_platform_backend.Payments.Repository.{payments_of}
use event_platform_backend.Registrations.Cancellation.{refund_reason, refund_first, settle}
use event_platform_backend.Payments.Durable.{Frame-request_refund}
use event_platform_backend.Registrations.Deciding.{Holds-audit}
use event_platform_backend.Registrations.Refunding.{
  PaysFor, read-PaysFor, refunded, Safe-refund_pending,
}
use event_platform_backend.Registrations.Releasing.{Holds-release}
use event_platform_backend.Registrations.Repository.{get_registration}
use event_platform_backend.Registrations.Seated.{Seated}
use event_platform_backend.Registrations.Seats.{WithinCapacity}
use event_platform_backend.Session.{
  Session, Result, ok, err, query, lift, commit, write_audit_log, ◌>>=◌, ◌>>◌, scalar_one_or_none,
}
use event_platform_backend.Session.Checked.{Triple-Holds}
use event_platform_backend.Session.Inside.{Open, Inside-modify, after-Inside}
use event_platform_backend.Session.Invariants.{Both, Holds, holds_rules}
use event_platform_backend.Session.Stores.{after_lift}
use event_platform_backend.Session.Triples.{
  Ends, Triple, Triple-bind, Triple-pre, Triple-pure, Triple-if, after_query,
}
use event_platform_backend.Session.Views.{tables, Frame-modify}
use event_platform_backend.Store.{Db, registration_key, payment_key}
use event_platform_backend.Table.{IsKeyed}

module _ (g : Registration) where
  down : (s : Session) → Open (Seated g.id) WithinCapacity s → Both WithinCapacity s
  down s p = (p.0.bounded, p.1)

  refunded-Ends :
      {A : Type 0} (r : Result A) (s : Session)
      → Open (Seated g.id) WithinCapacity s
      → Ends (λ _. Open (Seated g.id) WithinCapacity) (Both WithinCapacity) (r, s)
  refunded-Ends (ok a) s p = p
  refunded-Ends (err e) s p = down s p

  refund-Triple :
      (actor : ℕ) (reason : Option String) (p : Payment)
      → Triple
          (λ s. Open (Seated g.id) WithinCapacity s × PaysFor g.id p.id s.db)
          (refund_first actor reason g p)
          (λ _. Both WithinCapacity)
          (Both WithinCapacity)
  unfolding refund_first
  refund-Triple actor reason p =
      Triple-bind {Q = λ _. Open (Seated g.id) WithinCapacity} _ _
        (record {
          run = λ s h. refunded-Ends _ _ (
            refunded g.id p.id actor none (some (refund_reason reason)) s h.1 h.0.0,
            subst WithinCapacity (sym ((Frame-request_refund p.id actor none _).at s)) h.0.1,
          );
        })
        λ _.
          after-Inside _ _ down _ _ (Inside-modify _ _ (Safe-refund_pending g.id)) (Frame-modify _)
            (λ _. Triple-pure _ down)

  settle-Triple :
      (e : Event) (c : EventConfiguration) (t actor : ℕ) (reason : Option String)
      (o : Option Payment)
      → Triple
          (λ s.
            Open (Seated g.id) WithinCapacity s
            × ((p : Payment) → o ≡ some p → PaysFor g.id p.id s.db))
          (settle e c t actor reason g o)
          (λ _. Both WithinCapacity)
          (Both WithinCapacity)
  unfolding settle
  settle-Triple e c t actor reason none =
      Triple-pre _ (λ s h. down s h.0) (Triple-Holds _ (Holds-release e c t g none))
  settle-Triple e c t actor reason (some p) =
      Triple-if _ _ _
        (λ verified. Triple-pre _ (λ s h. (h.0, h.1 p refl)) (refund-Triple actor reason p))
        λ other. Triple-pre _ (λ s h. down s h.0) (Triple-Holds _ (Holds-release e c t g (some p)))

  Holds-finish :
      (action : String) (actor : ℕ)
      → Holds WithinCapacity (
          write_audit_log "registration" g.id action (some actor)
          >> (commit >> query (get_registration g.id)))
  Holds-finish action actor = search (holds_rules, Holds-audit)

  -- cancel_allowed, from tables `d` with the registration and keyed payments.
  module _ (d l : Db) (seated : Seated g.id d) (stored : WithinCapacity l)
      (keyed : IsKeyed d.payments) where
    pub payment-Triple :
        (e : Event) (c : EventConfiguration) (t actor : ℕ) (reason : Option String)
        → Triple
            (λ s. tables s ≡ (d, l))
            (query (payments_of g.id) >>= λ rows. lift (scalar_one_or_none rows) >>= λ payment.
              settle e c t actor reason g payment >>= λ action.
              write_audit_log "registration" g.id action (some actor)
              >> (commit >> query (get_registration g.id)))
            (λ _. Both WithinCapacity)
            (Both WithinCapacity)
    payment-Triple e c t actor reason =
        after_query tables (d, l) _ (λ x. payments_of g.id x.0) _ (λ s. refl)
          (after_lift here _ _ λ payment one.
            Triple-bind _ _
              (Triple-pre _ (λ s h. (opened s h, λ p is. pays s p h (one ∙ ap ok is)))
                (settle-Triple e c t actor reason payment))
              λ action. Triple-Holds _ (Holds-finish action actor))
      where
        opened : (s : Session) → tables s ≡ (d, l) → Open (Seated g.id) WithinCapacity s
        opened s h = (
          subst (Seated g.id) (sym (ap (λ (x : Db × Db). x.0) h)) seated,
          subst WithinCapacity (sym (ap (λ (x : Db × Db). x.1) h)) stored,
        )

        here : (s : Session) → tables s ≡ (d, l) → Both WithinCapacity s
        here s h = down s (opened s h)

        pays :
            (s : Session) (p : Payment)
            → tables s ≡ (d, l)
            → scalar_one_or_none (payments_of g.id d) ≡ ok (some p)
            → PaysFor g.id p.id s.db
        pays s p h one =
            subst (PaysFor g.id p.id) (sym (ap (λ (x : Db × Db). x.0) h))
              (read-PaysFor g.id p d keyed one)
