-- ===== src/Registrations/Deciding.antt =====
-- RegistrationService.decide_registration (app/modules/registrations/service.py) and the capacity.
use mathlib.Core.Option.{some-injective}
use event_platform_backend.Prelude.{
  ℕ, ◌≡◌, refl, ap, sym, subst, ◌∙◌, Bool, true, false, Option, some, String, arith, not-eq_false,
}
use event_platform_backend.Models.Registrations.{
  Registration, RegistrationStatus, is_active_registration,
}
use event_platform_backend.Models.Tickets.{BarcodePayload}
use event_platform_backend.Registrations.Atomic.{visible-Triple}
use event_platform_backend.Registrations.Decision.{
  is_undecided, decided, issue_if_approved, decide_visible, decide_registration,
}
use event_platform_backend.Registrations.Issuing.{Inside-issue_if_approved}
use event_platform_backend.Registrations.Atomic.{Frame-issue_if_approved}
use event_platform_backend.Registrations.Repository.{get_registration, update_registration}
use event_platform_backend.Registrations.Seated.{
  Seated, Safe-revise, Inside-audit, same-WithinCapacity,
}
use event_platform_backend.Registrations.Seats.{WithinCapacity, update-WithinCapacity}
use event_platform_backend.Session.{Session, modify, write_audit_log, commit, query, ◌>>=◌, ◌>>◌}
use event_platform_backend.Session.Checked.{Triple-Holds}
use event_platform_backend.Session.Inside.{Open, Inside, after-Inside}
use event_platform_backend.Session.Invariants.{Both, Holds, Holds-modify, holds_rules}
use event_platform_backend.Session.Triples.{
  Triple, Triple-bind, Triple-err, Triple-given, after_guard,
}
use event_platform_backend.Session.Views.{tables, Frame-audit}
use event_platform_backend.Store.{Db, registration_key}
use event_platform_backend.Table.Laws.{key-get}

undecided-active :
    (status : RegistrationStatus)
    → is_undecided status ≡ true
    → is_active_registration status ≡ true
undecided-active status h = ground arith

pub Holds-audit :
    (t : String) (id : ℕ) (action : String) (actor : Option ℕ)
    → Holds WithinCapacity (write_audit_log t id action actor)
unfolding write_audit_log
Holds-audit t id action actor =
    Holds-modify _ _ (record { keeps = λ d h. same-WithinCapacity d _ refl refl h })

Holds-not_approved :
    (sign : BarcodePayload → String) (g : Registration)
    → Holds WithinCapacity (issue_if_approved sign false g)
unfolding issue_if_approved
Holds-not_approved sign g = search holds_rules

module _ (sign : BarcodePayload → String) (id actor : ℕ) (reason : Option String) (d l : Db)
    (both : WithinCapacity d × WithinCapacity l) where
  kept : (s : Session) → tables s ≡ (d, l) → Both WithinCapacity s
  kept s h = (
    subst WithinCapacity (sym (ap (λ (x : Db × Db). x.0) h)) both.0,
    subst WithinCapacity (sym (ap (λ (x : Db × Db). x.1) h)) both.1,
  )

  module _ (g : Registration) (found : get_registration id d ≡ some g)
      (undecided : is_undecided g.status ≡ true) where
    row-Seated : Seated id d
    unfolding get_registration
    row-Seated = record {
      bounded = both.0;
      live = λ k stored.
          subst (λ x. is_active_registration x.status ≡ true)
            (some-injective g k (sym found ∙ stored)) (undecided-active g.status undecided);
    }

    rejected-Within : WithinCapacity (update_registration id (decided false actor reason) d)
    rejected-Within =
        update-WithinCapacity id (decided false actor reason) d (λ x. refl) (λ x. refl)
          (λ k stored p. row-Seated.live k stored) both.0

    approved-Seated : Seated id (update_registration id (decided true actor reason) d)
    approved-Seated =
        (Safe-revise id (decided true actor reason) (λ x. refl) (λ x. refl) (λ x p. refl)).keeps d
          row-Seated

    issues-Inside : Inside (Seated id) (issue_if_approved sign true (decided true actor reason g))
    unfolding get_registration
    issues-Inside =
        subst (λ i. Inside (Seated i) (issue_if_approved sign true (decided true actor reason g)))
          (key-get id d.registrations {x = g} found)
          (Inside-issue_if_approved sign (decided true actor reason g))

    down : (s : Session) → Open (Seated id) WithinCapacity s → Both WithinCapacity s
    down s p = (p.0.bounded, p.1)

    stored-Triple :
        {A : Type 0} (q : Db → A)
        → Triple
            (Open (Seated id) WithinCapacity)
            (commit >> query q)
            (λ _. Both WithinCapacity)
            (Both WithinCapacity)
    unfolding commit ◌>>=◌
    stored-Triple q = record { run = λ s p. (p.0.bounded, p.0.bounded) }

    approve-Triple :
        Triple
          (Open (Seated id) WithinCapacity)
          (write_audit_log "registration" id "approved" (some actor)
            >> (issue_if_approved sign true (decided true actor reason g)
                >> (commit >> query (get_registration id))))
          (λ _. Both WithinCapacity)
          (Both WithinCapacity)
    approve-Triple = after-Inside _ _ down _ _ (Inside-audit id _ _ _ _) (Frame-audit _ _ _ _) λ _.
        after-Inside _ _ down _ _ issues-Inside (Frame-issue_if_approved sign true _)
          (λ _. stored-Triple _)

    reject-Holds : Holds WithinCapacity (
        write_audit_log "registration" id "rejected" (some actor)
        >> (issue_if_approved sign false (decided false actor reason g)
            >> (commit >> query (get_registration id))))
    reject-Holds = search (holds_rules, Holds-audit, Holds-not_approved) depth 12

    from :
        (f : Db → Db) (P : Db → Type 0) → P (f d) → (s : Session) → tables s ≡ (d, l) → P (f s.db)
    from f P p s h = subst (λ x. P (f x)) (sym (ap (λ (x : Db × Db). x.0) h)) p

  decided-Triple :
      (approve : Bool) (g : Registration)
      → get_registration id d ≡ some g
      → Triple
          (λ s. tables s ≡ (d, l))
          (decide_visible sign id actor approve reason g)
          (λ _. Both WithinCapacity)
          (Both WithinCapacity)
  unfolding decide_visible modify ◌>>=◌
  decided-Triple true g found = after_guard kept _ _ _ λ u. record {
    run = λ s h. (approve-Triple g found (not-eq_false _ u)).run _ (
      from g found (not-eq_false _ u) (update_registration id (decided true actor reason))
          (Seated id) (approved-Seated g found (not-eq_false _ u)) s h,
      (kept s h).1,
    );
  }
  decided-Triple false g found = after_guard kept _ _ _ λ u. record {
    run = λ s h. (Triple-Holds _ (reject-Holds g found (not-eq_false _ u))).run _ (
      from g found (not-eq_false _ u) (update_registration id (decided false actor reason))
          WithinCapacity (rejected-Within g found (not-eq_false _ u)) s h,
      (kept s h).1,
    );
  }

  pub decision-Triple :
      (approve : Bool)
      → Triple
          (λ s. tables s ≡ (d, l))
          (decide_registration sign id actor approve reason)
          (λ _. Both WithinCapacity)
          (Both WithinCapacity)
  unfolding decide_registration
  decision-Triple approve =
      Triple-bind _ _ (Triple-err _ kept (visible-Triple id actor d l))
        λ g. Triple-given _ λ both. decided-Triple approve g both.0
