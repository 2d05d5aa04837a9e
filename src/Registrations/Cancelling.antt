-- ===== src/Registrations/Cancelling.antt =====
-- RegistrationService.cancel_registration (app/modules/registrations/service.py): who may cancel,
-- and what of a cancellation is stored.
use event_platform_backend.Prelude.{
  ℕ, ◌≡◌, refl, ap, Bool, true, false, not, ◌&&◌, Option, none, some, List, [], ◌∷◌, String, ◌==◌,
  not-eq_false,
}
use event_platform_backend.Models.Events.{Event, EventConfiguration}
use event_platform_backend.Models.Payments.{Payment}
use event_platform_backend.Models.Registrations.{Registration}
use event_platform_backend.Models.Tickets.{Ticket}
use event_platform_backend.Store.{Db}
use event_platform_backend.Session.{Session}
use event_platform_backend.Session.Frames.{
  Frame, Frame-bind, Frame-if, Frame-pure, Frame-query, Frame-lift, frame_rules,
}
use event_platform_backend.Session.Triples.{
  Triple, Triple-bind, Triple-err, Triple-post, Triple-pre, Triple-given, after-Frame, after-Quiet,
  after_query, after_guard, Ends,
}
use event_platform_backend.Session.Views.{
  lasting, Ignores-lasting, durable_rules, Frame-modify, Frame-audit, Frame-now, Committed, tables,
  commit-Triple, Quiet-tables-lock,
}
use event_platform_backend.Waitlists.Quiet.{Frame-ensure_child}
use event_platform_backend.Waitlists.Durable.{Frame-promote_next}
use event_platform_backend.Payments.Durable.{Frame-request_refund}
use event_platform_backend.Registrations.Repository.{get_registration}
use event_platform_backend.Registrations.Window.{
  get_event_or_raise, get_config_or_raise, reopen_event_if_capacity_available,
}
use event_platform_backend.Registrations.Decision.{manages_event}
use event_platform_backend.Registrations.Cancellation.{
  is_cancellable, check_deadline, fail_payment, cancel_each, release, refund_first, settle,
  cancel_allowed, cancel_found, cancel_registration,
}
use event_platform_backend.Registrations.Atomic.{get_registration_or_raise-Triple}

Frame-check_deadline : (owner : Bool) (o : Option ℕ) → Frame lasting (check_deadline owner o)
unfolding check_deadline
Frame-check_deadline true (some deadline) = search (frame_rules, durable_rules)
Frame-check_deadline true none = search frame_rules
Frame-check_deadline false o = search frame_rules

Frame-fail_payment : (o : Option Payment) → Frame lasting (fail_payment o)
unfolding fail_payment
Frame-fail_payment none = search frame_rules
Frame-fail_payment (some p) = search (frame_rules, durable_rules)

Frame-cancel_each : (ts : List Ticket) → Frame lasting (cancel_each ts)
unfolding cancel_each
Frame-cancel_each [] = search frame_rules
Frame-cancel_each (t ∷ ts) = Frame-bind lasting _ _ (Frame-modify _) λ _. Frame-cancel_each ts

Frame-reopen :
    (e : Event) (c : EventConfiguration) → Frame lasting (reopen_event_if_capacity_available e c)
unfolding reopen_event_if_capacity_available
Frame-reopen e c = search (frame_rules, durable_rules) depth 12

Frame-release :
    (e : Event) (c : EventConfiguration) (t : ℕ) (g : Registration) (o : Option Payment)
    → Frame lasting (release e c t g o)
unfolding release
Frame-release e c t g o =
    search
      (
        frame_rules, durable_rules, Frame-fail_payment, Frame-cancel_each, Frame-reopen,
        Frame-promote_next,
      )
      depth 24

Frame-settle :
    (e : Event) (c : EventConfiguration) (t actor : ℕ) (reason : Option String) (g : Registration)
    (o : Option Payment)
    → Frame lasting (settle e c t actor reason g o)
unfolding settle refund_first
Frame-settle e c t actor reason g none = Frame-release e c t g none
Frame-settle e c t actor reason g (some p) =
    search (frame_rules, durable_rules, Frame-release, Frame-request_refund) depth 12

Frame-get_event_or_raise : (i : ℕ) → Frame lasting (get_event_or_raise i)
unfolding get_event_or_raise
Frame-get_event_or_raise i = search frame_rules

Frame-get_config_or_raise : (i : ℕ) → Frame lasting (get_config_or_raise i)
unfolding get_config_or_raise
Frame-get_config_or_raise i = search frame_rules

-- Why the registration `g` may be cancelled.
pub record MayCancel (registration_id actor_id : ℕ) (d : Db) (g : Registration) : Type 0 where
  pub found : get_registration registration_id d ≡ some g
  pub allowed : not (g.user_id == actor_id) && not (manages_event actor_id g.event_id d) ≡ false
  pub cancellable : is_cancellable g.status ≡ true

module _ (registration_id actor_id : ℕ) (reason : Option String) (d l : Db) where
  abbrev Stays : Session → Type 0
  Stays s = s.durable ≡ l

  abbrev Cancels : Option Registration → Session → Type 0
  Cancels o s = ((g : Registration) × MayCancel registration_id actor_id d g) × Committed s

  allowed-Triple :
      (e : Event) (c : EventConfiguration) (deadline : Option ℕ) (g : Registration)
      → MayCancel registration_id actor_id d g
      → Triple (λ s. lasting s ≡ l) (cancel_allowed e c actor_id reason deadline g) Cancels Stays
  unfolding cancel_allowed
  allowed-Triple e c deadline g may =
      after-Frame lasting l (λ s h. h) _ _ Frame-now
        λ t.
          after-Frame lasting l (λ s h. h) _ _ (Frame-modify _)
            λ _.
              after-Frame lasting l (λ s h. h) _ _ (Frame-query lasting _)
                λ rows.
                  after-Frame lasting l (λ s h. h) _ _ (Frame-lift lasting _)
                    λ payment.
                      after-Frame lasting l (λ s h. h) _ _
                        (Frame-settle e c t actor_id reason g payment)
                        λ action.
                          after-Frame lasting l (λ s h. h) _ _ (Frame-audit _ _ _ _)
                            λ _. Triple-post _ (λ o s h. ((g, may), h)) (commit-Triple Stays _)

  found-Triple :
      (g : Registration)
      → get_registration registration_id d ≡ some g
      → Triple (λ s. tables s ≡ (d, l)) (cancel_found actor_id reason g) Cancels Stays
  unfolding cancel_found manages_event
  found-Triple g found =
      after_query tables (d, l) _ (λ x. manages_event actor_id g.event_id x.0) _ (λ s. refl)
        (Triple-pre _ (λ s h. ap (λ (x : Db × Db). x.1) h)
          (after_guard (λ s h. h) _ _ _
            λ allowed.
              after_guard (λ s h. h) _ _ _
                λ cancellable.
                  after-Frame lasting l (λ s h. h) _ _
                    (Frame-if lasting _ _ _
                      (Frame-ensure_child lasting Ignores-lasting actor_id g.child_id)
                      (Frame-pure lasting tt))
                    λ _.
                      after-Frame lasting l (λ s h. h) _ _ (Frame-get_event_or_raise g.event_id)
                        λ e.
                          after-Frame lasting l (λ s h. h) _ _
                            (Frame-get_config_or_raise g.event_id)
                            λ c.
                              after-Frame lasting l (λ s h. h) _ _ (Frame-check_deadline _ _)
                                λ _. allowed-Triple e c _ g (record {
                                  found = found;
                                  allowed = allowed;
                                  cancellable = not-eq_false _ cancellable;
                                })))

  cancel-Triple :
      Triple
        (λ s. tables s ≡ (d, l))
        (cancel_registration registration_id actor_id reason)
        Cancels
        Stays
  unfolding cancel_registration
  cancel-Triple =
      Triple-bind _ _
        (Triple-err _ (λ s h. ap (λ (x : Db × Db). x.1) h)
          (get_registration_or_raise-Triple registration_id d l))
        λ first. Triple-given _ λ _.
          after-Quiet tables (d, l) _ _ (Quiet-tables-lock first.event_id)
            λ _.
              Triple-bind _ _
                (Triple-err _ (λ s h. ap (λ (x : Db × Db). x.1) h)
                  (get_registration_or_raise-Triple registration_id d l))
                λ g. Triple-given _ λ found. found-Triple g found

-- A cancellation is made only by the owner or a manager of the event, of a registration in one of
-- the cancellable statuses, and all that the session wrote is then stored. A refused one stores
-- nothing.
pub cancel_atomic :
    (registration_id actor_id : ℕ) (reason : Option String) (s : Session)
    → Ends
        (λ _ t. ((g : Registration) × MayCancel registration_id actor_id s.db g) × Committed t)
        (λ t. t.durable ≡ s.durable)
        (cancel_registration registration_id actor_id reason s)
cancel_atomic registration_id actor_id reason s =
    (cancel-Triple registration_id actor_id reason s.db s.durable).run s refl
