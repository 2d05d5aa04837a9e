-- ===== src/Registrations/Submitting.antt =====
-- RegistrationService.create_registration (app/modules/registrations/service.py), from the test of the
-- capacity to the commit.
use mathlib.Core.Option.{some-injective}
use event_platform_backend.Prelude.{
  ==_refl, ℕ, ◌≡◌, refl, ap, sym, subst, Bool, true, false, ◌||◌, Option, none, some, List, [], ◌∷◌,
  String,
}
use event_platform_backend.ConfigEngine.Service.{Submission, validate_registration, event_date}
use event_platform_backend.Prelude.{ℤ}
use event_platform_backend.Models.Events.{Event, EventConfiguration}
use event_platform_backend.Models.Registrations.{Registration, is_active_registration}
use event_platform_backend.Models.Tickets.{BarcodePayload}
use event_platform_backend.Registrations.Creation.{
  new_registration, is_refused, add_registration, add_participants, fill_event, complete, submit,
}
use event_platform_backend.Registrations.Intake.{RegistrationIn, ParticipantIn, team_size_of}
use event_platform_backend.Notifications.Warnings.{warn_each, queue_capacity_warning}
use event_platform_backend.Notifications.{create_notification}
use event_platform_backend.Registrations.Issuing.{Inside-issue_if_due, Frame-issue_if_due}
use event_platform_backend.Registrations.Seated.{
  Seated, Inside-participants, Inside-fill, Inside-audit, Safe-first,
}
use event_platform_backend.Registrations.Seats.{WithinCapacity, Room, add-WithinCapacity}
use event_platform_backend.Registrations.Window.{is_some}
use event_platform_backend.Session.{Session, Action, attempt, commit, query, modify, ◌>>=◌, ◌>>◌}
use event_platform_backend.Session.Frames.{Frame, Frame-bind, Frame-query, Quiet-Frame, frame_rules}
use event_platform_backend.Session.Inside.{Open, Inside-modify, after-Inside}
use event_platform_backend.Session.Invariants.{Both}
use event_platform_backend.Session.Stores.{Quiet-tables-now, Quiet-tables-uuid4}
use event_platform_backend.Session.Triples.{
  Triple, after-Frame, after-Quiet, after_query, after_guard,
}
use event_platform_backend.Session.Views.{lasting, tables, Frame-modify, Frame-audit, durable_rules}
use event_platform_backend.Store.{Db, registration_key}
use event_platform_backend.Table.{get}
use event_platform_backend.Table.Laws.{get-add}

pub Frame-add_participants :
    (id actor : ℕ) (ps : List ParticipantIn) → Frame lasting (add_participants id actor ps)
unfolding add_participants
Frame-add_participants id actor [] = search frame_rules
Frame-add_participants id actor (p ∷ ps) =
    Frame-bind lasting _ _ (search durable_rules)
      λ i. Frame-bind lasting _ _ (Frame-modify _) λ _. Frame-add_participants id actor ps

Frame-attempt : {A : Type 0} (m : Action A) → Frame lasting m → Frame lasting (attempt m)
unfolding attempt
Frame-attempt m h = record { at = λ s. h.at s }

Frame-warn_each : (event : ℕ) (users : List ℕ) → Frame lasting (warn_each event users)
unfolding warn_each create_notification
Frame-warn_each event [] = search frame_rules
Frame-warn_each event (u ∷ us) = Frame-bind lasting _ _ (Frame-query lasting _) λ wanted.
    Frame-bind lasting _ _ (search (frame_rules, durable_rules)) λ _. Frame-warn_each event us

pub Frame-fill :
    (event : ℕ) (e : Event) (c : EventConfiguration) → Frame lasting (fill_event event e c)
unfolding fill_event queue_capacity_warning
Frame-fill event e c = search (frame_rules, durable_rules, Frame-attempt, Frame-warn_each) depth 16

Frame-event_date : (o : Option Event) → Frame tables (event_date o)
unfolding event_date
Frame-event_date none = Frame-bind tables _ _ (Quiet-Frame Quiet-tables-now) λ t. search frame_rules
Frame-event_date (some e) = search frame_rules

pub Frame-validate :
    (event : ℕ) (sent : Submission) (n : Option ℤ)
    → Frame tables (validate_registration event sent n)
unfolding validate_registration
Frame-validate event sent n = search (frame_rules, Frame-event_date) depth 16

none_there : (o : Option Registration) (b : Bool) → is_some o || b ≡ false → o ≡ none
none_there none b h = refl
none_there (some g) b h = absurd (cc h)

module _ (sign : BarcodePayload → String) (e : Event) (c : EventConfiguration) (actor : ℕ)
    (r : RegistrationIn) where
  down : (id : ℕ) (s : Session) → Open (Seated id) WithinCapacity s → Both WithinCapacity s
  down id s p = (p.0.bounded, p.1)

  stored :
      (id : ℕ) {A : Type 0} (q : Db → A)
      → Triple
          (Open (Seated id) WithinCapacity)
          (commit >> query q)
          (λ _. Both WithinCapacity)
          (Both WithinCapacity)
  unfolding commit ◌>>=◌
  stored id q = record { run = λ s p. (p.0.bounded, p.0.bounded) }

  complete-Triple :
      (g : Registration)
      → Triple
          (Open (Seated g.id) WithinCapacity)
          (complete sign e c actor r g)
          (λ _. Both WithinCapacity)
          (Both WithinCapacity)
  unfolding complete
  complete-Triple g =
      after-Inside _ _ (down g.id) _ _ (Inside-participants g.id actor r.participants)
        (Frame-add_participants g.id actor r.participants)
        λ _.
          after-Inside _ _ (down g.id) _ _ (Inside-modify _ _ (Safe-first g.id c)) (Frame-modify _)
            λ _.
              after-Inside _ _ (down g.id) _ _ (Inside-fill g.id g.event_id e c)
                (Frame-fill g.event_id e c)
                λ _.
                  after-Inside _ _ (down g.id) _ _ (Inside-audit g.id _ _ _ _) (Frame-audit _ _ _ _)
                    λ _.
                      after-Inside _ _ (down g.id) _ _ (Inside-issue_if_due sign _ c)
                        (Frame-issue_if_due sign _ c) (λ _. stored g.id _)

  new-Seated :
      (g : Registration) (d : Db)
      → is_active_registration g.status ≡ true
      → is_refused g d ≡ false
      → Room g.event_id d
      → WithinCapacity d
      → Seated g.id (add_registration g d)
  unfolding add_registration
  new-Seated g d active accepted left h =
      let free : get g.id d.registrations ≡ none = none_there _ _ accepted in
      record {
        bounded = add-WithinCapacity g d free left h;
        live = λ k found.
            subst (λ x. is_active_registration x.status ≡ true)
              (some-injective g k
                (rw (get-add g.id g d.registrations, free, ==_refl g.id) at found))
              active;
      }

  -- From tables that are within the capacities and leave room.
  module _ (event_id : ℕ) (d l : Db) (both : WithinCapacity d × WithinCapacity l)
      (left : Room event_id d) where
    kept : (s : Session) → tables s ≡ (d, l) → Both WithinCapacity s
    kept s h = (
      subst WithinCapacity (sym (ap (λ (x : Db × Db). x.0) h)) both.0,
      subst WithinCapacity (sym (ap (λ (x : Db × Db). x.1) h)) both.1,
    )

    add-Triple :
        (g : Registration)
        → is_active_registration g.status ≡ true
        → g.event_id ≡ event_id
        → is_refused g d ≡ false
        → Triple
            (λ s. tables s ≡ (d, l))
            (modify (add_registration g) >> complete sign e c actor r g)
            (λ _. Both WithinCapacity)
            (Both WithinCapacity)
    unfolding modify ◌>>=◌
    add-Triple g active same accepted = record {
      run = λ s h. (complete-Triple g).run _ (
        subst (λ x. Seated g.id (add_registration g x)) (sym (ap (λ (x : Db × Db). x.0) h))
            (new-Seated g d active accepted (subst (λ i. Room i d) (sym same) left) both.0),
        (kept s h).1,
      );
    }

    tables-Triple :
        Triple
          (λ s. tables s ≡ (d, l))
          (submit sign event_id e c actor r)
          (λ _. Both WithinCapacity)
          (Both WithinCapacity)
    unfolding submit
    tables-Triple =
        after-Frame tables (d, l) kept _ _ (Frame-validate event_id r.sent (team_size_of r))
          λ errors. after_guard kept _ _ _ λ valid.
            after-Quiet tables (d, l) _ _ Quiet-tables-now
              λ t.
                after-Quiet tables (d, l) _ _ Quiet-tables-uuid4
                  λ id.
                    after_query tables (d, l) _
                      (λ x. is_refused (new_registration id event_id actor r c t) x.0) _ (λ s. refl)
                      (after_guard kept _ _ _ (λ accepted. add-Triple _ refl refl accepted))

  pub submit-Triple :
      (event_id : ℕ)
      → Triple
          (λ s. Both WithinCapacity s × Room event_id s.db)
          (submit sign event_id e c actor r)
          (λ _. Both WithinCapacity)
          (Both WithinCapacity)
  submit-Triple event_id = record {
    run = λ s p. (tables-Triple event_id s.db s.durable p.0 p.1).run s refl;
  }
