-- ===== src/Registrations/Closings.antt =====
-- RegistrationService.cancel_registration (app/modules/registrations/service.py), step by step: how it
-- leaves the registration, its tickets and the refund.
use event_platform_backend.Prelude.{
  ℕ, ◌≡◌, refl, ap, ◌∙◌, inl, inr, true, false, Option, none, some, [], ◌∷◌, String,
}
use event_platform_backend.Models.Events.{Event, EventConfiguration}
use event_platform_backend.Models.Payments.{Payment, Refund, is_verified}
use event_platform_backend.Models.Registrations.{Registration, cancelled, refund_pending}
use event_platform_backend.Payments.Refunds.{request_refund}
use event_platform_backend.Payments.Repository.{payments_of}
use event_platform_backend.Registrations.Asking.{AskedWith, ask-Triple, one_row, Inside-Asked-audit}
use event_platform_backend.Registrations.Voiding.{
  AllVoid, cancel_each-Triple, Inside-Void-reopen, Inside-Void-promote, Inside-Void-audit,
}
use event_platform_backend.Tickets.Repository.{list_by_registration_id}
use event_platform_backend.Waitlists.Operations.Promote.{promote_next}
use event_platform_backend.Session.Stores.{Triple-lift}
use event_platform_backend.Registrations.Cancellation.{
  refund_reason, cancel_each, release, refund_first, settle, cancel_allowed, cancel_found,
}
use event_platform_backend.Registrations.Repository.{update_registration}
use event_platform_backend.Registrations.Rows.{
  Row, Present, own-Row, Safe-Present, Inside-Row-fail, Inside-Row-reopen, Inside-Row-promote,
  Inside-Row-refund, Inside-Row-audit,
}
use event_platform_backend.Registrations.Window.{reopen_event_if_capacity_available}
use event_platform_backend.Session.{
  Session, Result, ok, pure, scalar_one_or_none, write_audit_log, modify, commit, query, ◌>>=◌,
  ◌>>◌,
}
use event_platform_backend.Session.Inside.{
  Inside, Inside-both, Inside-either, Inside-modify, inside_rules,
}
use event_platform_backend.Session.Triples.{
  Triple, Triple-pure, Triple-bind, Triple-if, Triple-pre, Triple-query,
}
use event_platform_backend.Store.{Db, registration_key}
use event_platform_backend.Registrations.Outcomes.{
  Closed, Free, after_kept, joined-Ends, inside-Ends, Inside-child, Inside-event, Inside-config,
  Inside-deadline,
}

module _ (g : Registration) where
  abbrev Cancelled : Db → Type 0
  Cancelled = Row g.id (λ r. r.status ≡ cancelled)

  -- What a cancellation without a refund does once the row is written.
  emptied-Triple :
      (e : Event) (c : EventConfiguration)
      → Triple
          (λ s. Cancelled s.db)
          (query (list_by_registration_id g.id) >>= λ tickets.
            cancel_each tickets
            >> (reopen_event_if_capacity_available e c
                >> (promote_next g.event_id (some g.participation_type)
                    >> pure {A = String} "cancelled")))
          (λ _ s. Closed g.id s.db)
          Free
  emptied-Triple e c = Triple-bind _ _ (Triple-query _) λ tickets.
      Triple-bind _ _ (cancel_each-Triple g.id _ Free tickets) λ _.
        after_kept (λ d. Cancelled d × AllVoid g.id d) _ _
          (Inside-both _ (Inside-Row-reopen g.id _ e c) (Inside-Void-reopen g.id e c))
          λ _.
            after_kept (λ d. Cancelled d × AllVoid g.id d) _ _
              (Inside-both _ (Inside-Row-promote g.id _ g.event_id _)
                (Inside-Void-promote g.id g.event_id _))
              λ _. Triple-pure _ (λ s h. inl h)

  release-Triple :
      (e : Event) (c : EventConfiguration) (t : ℕ) (o : Option Payment)
      → Triple (λ s. Present g.id s.db) (release e c t g o) (λ _ s. Closed g.id s.db) Free
  unfolding release modify ◌>>=◌
  release-Triple e c t o = after_kept _ _ _ (Inside-Row-fail g.id _ o) λ _. record {
    run = λ s p. (emptied-Triple e c).run _ (own-Row g.id _ _ _ s.db (λ r. refl) (λ r q. refl) p);
  }

  asked-Triple :
      (actor : ℕ) (reason : String) (p : Payment)
      → Triple
          (λ s. Present g.id s.db × (payments_of g.id s.db ≡ p ∷ []))
          (request_refund p.id actor none (some reason) false)
          (λ r s. Present g.id s.db × AskedWith g.id p r s)
          Free
  asked-Triple actor reason p = record {
    run = λ s h.
        let x : Result Refund × Session = request_refund p.id actor none (some reason) false s in
        joined-Ends (λ r t. Present g.id t.db) (AskedWith g.id p) x
          (inside-Ends (Present g.id) x.0 x.1
            ((Inside-Row-refund g.id p.id actor none (some reason)).at s h.0))
          ((ask-Triple g.id actor (some reason) p Free (λ t. tt)).run s h.1);
  }

  marked-Triple :
      (p : Payment) (r : Refund)
      → is_verified p.status ≡ true
      → Triple
          (λ s. Present g.id s.db × AskedWith g.id p r s)
          (modify (update_registration g.id λ x. record x { status = refund_pending })
            >> pure {A = String} "refund_requested_for_cancellation")
          (λ _ s. Closed g.id s.db)
          Free
  unfolding modify ◌>>=◌ update_registration payments_of
  marked-Triple p r verified = record {
    run = λ s h. inr (
      own-Row g.id _ _ (λ x. record x { status = refund_pending }) s.db (λ x. refl) (λ x q. refl)
          h.0,
      (p, r, h.1.0, h.1.1, verified, h.1.2, h.1.3, h.1.4),
    );
  }

  refund-Triple :
      (actor : ℕ) (reason : Option String) (p : Payment)
      → is_verified p.status ≡ true
      → Triple
          (λ s. Present g.id s.db × (payments_of g.id s.db ≡ p ∷ []))
          (refund_first actor reason g p)
          (λ _ s. Closed g.id s.db)
          Free
  unfolding refund_first
  refund-Triple actor reason p verified =
      Triple-bind _ _ (asked-Triple actor (refund_reason reason) p) λ r. marked-Triple p r verified

  settle-Triple :
      (e : Event) (c : EventConfiguration) (t actor : ℕ) (reason : Option String)
      (o : Option Payment)
      → Triple
          (λ s. Present g.id s.db × (scalar_one_or_none (payments_of g.id s.db) ≡ ok o))
          (settle e c t actor reason g o)
          (λ _ s. Closed g.id s.db)
          Free
  unfolding settle
  settle-Triple e c t actor reason none = Triple-pre _ (λ s h. h.0) (release-Triple e c t none)
  settle-Triple e c t actor reason (some p) =
      Triple-if _ _ _
        (λ verified.
          Triple-pre _ (λ s h. (h.0, one_row _ p h.1)) (refund-Triple actor reason p verified))
        λ other. Triple-pre _ (λ s h. h.0) (release-Triple e c t (some p))

  Inside-Closed-audit :
      (t : String) (i : ℕ) (action : String) (actor : Option ℕ)
      → Inside (Closed g.id) (write_audit_log t i action actor)
  Inside-Closed-audit t i action actor =
      Inside-either _
        (Inside-both _ (Inside-Row-audit g.id _ t i action actor)
          (Inside-Void-audit g.id t i action actor))
        (Inside-both _ (Inside-Row-audit g.id _ t i action actor)
          (Inside-Asked-audit g.id t i action actor))

  stored-Triple :
      {A : Type 0} (q : Db → A)
      → Triple (λ s. Closed g.id s.db) (commit >> query q) (λ _ s. Closed g.id s.durable) Free
  unfolding commit ◌>>=◌
  stored-Triple q = record { run = λ s h. h }

  allowed-Triple :
      (e : Event) (c : EventConfiguration) (actor : ℕ) (reason : Option String)
      (deadline : Option ℕ)
      → Triple
          (λ s. Present g.id s.db)
          (cancel_allowed e c actor reason deadline g)
          (λ _ s. Closed g.id s.durable)
          Free
  unfolding cancel_allowed
  allowed-Triple e c actor reason deadline = after_kept _ _ _ (search inside_rules) λ t.
      after_kept _ _ _ (Inside-modify _ _ (Safe-Present g.id _ (λ r. refl))) λ _.
        Triple-bind _ _ (Triple-query _) λ ps.
          Triple-bind _ _ (Triple-lift (λ s h. tt) _) λ payment.
            Triple-bind _ _
              (Triple-pre _ (λ s h. (h.1.0, ap scalar_one_or_none h.1.1 ∙ h.0))
                (settle-Triple e c t actor reason payment))
              λ action. after_kept _ _ _ (Inside-Closed-audit _ _ _ _) λ _. stored-Triple _

  pub found-Triple :
      (actor : ℕ) (reason : Option String)
      → Triple
          (λ s. Present g.id s.db)
          (cancel_found actor reason g)
          (λ _ s. Closed g.id s.durable)
          Free
  unfolding cancel_found
  found-Triple actor reason = after_kept _ _ _ (search inside_rules) λ manages.
      after_kept _ _ _ (search inside_rules) λ _. after_kept _ _ _ (search inside_rules) λ _.
        after_kept _ _ _ (search (inside_rules, Inside-child)) λ _.
          after_kept _ _ _ (Inside-event _) λ e.
            after_kept _ _ _ (Inside-config _)
              λ c. after_kept _ _ _ (Inside-deadline _ _) λ _. allowed-Triple e c actor reason _
