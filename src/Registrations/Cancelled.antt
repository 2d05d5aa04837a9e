-- ===== src/Registrations/Cancelled.antt =====
-- RegistrationService.cancel_registration (app/modules/registrations/service.py) and the capacity.
use mathlib.Core.Option.{some-injective}
use event_platform_backend.Prelude.{
  ℕ, ◌≡◌, refl, ap, sym, ◌∙◌, subst, Bool, true, false, Option, none, some, String, arith,
  not-eq_false,
}
use event_platform_backend.Guardians.{ensure_child}
use event_platform_backend.Models.Events.{Event, EventConfiguration}
use event_platform_backend.Models.Registrations.{
  Registration, RegistrationStatus, is_active_registration,
}
use event_platform_backend.Registrations.Atomic.{get_registration_or_raise-Triple}
use event_platform_backend.Registrations.Cancellation.{
  is_cancellable, check_deadline, requested, cancel_allowed, cancel_found, cancel_registration,
}
use event_platform_backend.Registrations.Repository.{get_registration, update_registration}
use event_platform_backend.Registrations.Seated.{Seated, Safe-revise}
use event_platform_backend.Registrations.Seats.{WithinCapacity}
use event_platform_backend.Registrations.Window.{get_event_or_raise, get_config_or_raise}
use event_platform_backend.Session.{Session}
use event_platform_backend.Session.Frames.{
  Frame, Frame-bind, Frame-if, Frame-pure, Quiet-Frame, frame_rules,
}
use event_platform_backend.Session.Invariants.{Both}
use event_platform_backend.Session.Stores.{Quiet-tables-now, Steps-tables-modify}
use event_platform_backend.Session.Triples.{
  Triple, Triple-bind, Triple-err, Triple-given, after-Frame, after-Quiet, after_step, after_guard,
}
use event_platform_backend.Session.Views.{tables, Quiet-tables-lock}
use event_platform_backend.Store.{Db, registration_key, payment_key}
use event_platform_backend.Table.{get, IsKeyed}
use event_platform_backend.Table.Laws.{key-get}
use event_platform_backend.Registrations.Settling.{payment-Triple}

cancellable-active :
    (status : RegistrationStatus)
    → is_cancellable status ≡ true
    → is_active_registration status ≡ true
cancellable-active status h = ground arith

Frame-deadline : (owner : Bool) (o : Option ℕ) → Frame tables (check_deadline owner o)
unfolding check_deadline
Frame-deadline true (some deadline) =
    Frame-bind tables _ _ (Quiet-Frame Quiet-tables-now) λ t. search frame_rules
Frame-deadline true none = search frame_rules
Frame-deadline false o = search frame_rules

Frame-child : (actor : ℕ) (o : Option ℕ) → Frame tables (ensure_child actor o)
unfolding ensure_child
Frame-child actor none = search frame_rules
Frame-child actor (some i) = search frame_rules depth 12

Frame-event : (i : ℕ) → Frame tables (get_event_or_raise i)
unfolding get_event_or_raise
Frame-event i = search frame_rules

Frame-config : (i : ℕ) → Frame tables (get_config_or_raise i)
unfolding get_config_or_raise
Frame-config i = search frame_rules

pub at_own_id :
    (id : ℕ) (g : Registration) (d : Db)
    → get_registration id d ≡ some g
    → get_registration g.id d ≡ some g
unfolding get_registration
at_own_id id g d found =
    subst (λ i. get i d.registrations ≡ some g) (sym (key-get id d.registrations {x = g} found))
      found

module _ (d l : Db) (both : WithinCapacity d × WithinCapacity l) (keyed : IsKeyed d.payments) where
  kept : (s : Session) → tables s ≡ (d, l) → Both WithinCapacity s
  kept s h = (
    subst WithinCapacity (sym (ap (λ (x : Db × Db). x.0) h)) both.0,
    subst WithinCapacity (sym (ap (λ (x : Db × Db). x.1) h)) both.1,
  )

  row-Seated :
      (g : Registration)
      → get_registration g.id d ≡ some g
      → is_cancellable g.status ≡ true
      → Seated g.id d
  unfolding get_registration
  row-Seated g found cancellable = record {
    bounded = both.0;
    live = λ k stored.
        subst (λ x. is_active_registration x.status ≡ true)
          (some-injective g k (sym found ∙ stored)) (cancellable-active g.status cancellable);
  }

  allowed-Triple :
      (e : Event) (c : EventConfiguration) (actor : ℕ) (reason : Option String)
      (deadline : Option ℕ) (g : Registration)
      → Seated g.id d
      → Triple
          (λ s. tables s ≡ (d, l))
          (cancel_allowed e c actor reason deadline g)
          (λ _. Both WithinCapacity)
          (Both WithinCapacity)
  unfolding cancel_allowed update_registration
  allowed-Triple e c actor reason deadline g seated =
      after-Quiet tables (d, l) _ _ Quiet-tables-now
        λ t.
          let revised : Seated g.id
              (update_registration g.id (requested t actor reason deadline) d) =
            (Safe-revise g.id (requested t actor reason deadline) (λ x. refl) (λ x. refl)
                (λ x p. p)).keeps
              d seated in
          after_step tables (d, l) _ _ _ (Steps-tables-modify _)
            λ _. payment-Triple g _ l revised both.1 keyed e c t actor reason

  found-Triple :
      (g : Registration) (actor : ℕ) (reason : Option String)
      → get_registration g.id d ≡ some g
      → Triple
          (λ s. tables s ≡ (d, l))
          (cancel_found actor reason g)
          (λ _. Both WithinCapacity)
          (Both WithinCapacity)
  unfolding cancel_found
  found-Triple g actor reason found =
      after-Frame tables (d, l) kept _ _ (search frame_rules)
        λ manages. after_guard kept _ _ _ λ allowed. after_guard kept _ _ _ λ cancellable.
          after-Frame tables (d, l) kept _ _
            (Frame-if tables _ _ _ (Frame-child actor g.child_id) (Frame-pure tables tt))
            λ _.
              after-Frame tables (d, l) kept _ _ (Frame-event g.event_id)
                λ e.
                  after-Frame tables (d, l) kept _ _ (Frame-config g.event_id)
                    λ c.
                      after-Frame tables (d, l) kept _ _ (Frame-deadline _ _)
                        λ _.
                          allowed-Triple e c actor reason _ g
                            (row-Seated g found (not-eq_false _ cancellable))

  pub cancellation-Triple :
      (id actor : ℕ) (reason : Option String)
      → Triple
          (λ s. tables s ≡ (d, l))
          (cancel_registration id actor reason)
          (λ _. Both WithinCapacity)
          (Both WithinCapacity)
  unfolding cancel_registration
  cancellation-Triple id actor reason =
      Triple-bind _ _ (Triple-err _ kept (get_registration_or_raise-Triple id d l)) λ first.
        Triple-given _ λ _.
          after-Quiet tables (d, l) _ _ (Quiet-tables-lock first.event_id)
            λ _.
              Triple-bind _ _ (Triple-err _ kept (get_registration_or_raise-Triple id d l))
                λ g. Triple-given _ λ found. found-Triple g actor reason (at_own_id id g d found)
