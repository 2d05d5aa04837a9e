-- ===== src/Registrations/Seated.antt =====
-- A registration in hand whose seat is counted, and the writes that go with it
-- (app/modules/registrations/service.py, app/modules/tickets/service.py).
use event_platform_backend.Prelude.{
  ℕ, ◌≡◌, refl, sym, Bool, false, subst, true, Option, none, some, List, [], ◌∷◌, String, arith,
  ==_refl, if◌then◌else◌,
}
use mathlib.Core.Option.{some-injective}
use event_platform_backend.Events.{get_configuration}
use event_platform_backend.Models.Events.{Event, EventConfiguration}
use event_platform_backend.Models.Notifications.{Notification}
use event_platform_backend.Models.Registrations.{
  Registration, RegistrationParticipant, confirmed, is_active_registration,
}
use event_platform_backend.Models.Tickets.{Ticket}
use event_platform_backend.Notifications.{create_notification, has_notification}
use event_platform_backend.Notifications.Warnings.{warn_each, queue_capacity_warning}
use event_platform_backend.Registrations.Creation.{
  add_participant, add_participants, first_status, fill_event,
}
use event_platform_backend.Registrations.Intake.{ParticipantIn}
use event_platform_backend.Registrations.Repository.{count_active_for_event, update_registration}
use event_platform_backend.Registrations.Seats.{WithinCapacity, update-WithinCapacity}
use event_platform_backend.Registrations.Window.{update_event}
use event_platform_backend.Session.{write_audit_log}
use event_platform_backend.Session.Inside.{Inside, Inside-bind, Inside-modify, inside_rules}
use event_platform_backend.Session.Invariants.{Safe}
use event_platform_backend.Store.{Db, registration_key}
use event_platform_backend.Table.{get, add}
use event_platform_backend.Table.Laws.{KeepsKey, get-update, on_some}
use event_platform_backend.Tickets.Repository.{add_ticket}

-- The tables are within the capacities, and the registration of this id, if it is there, is active.
pub record Seated (id : ℕ) (d : Db) : Type 0 where
  pub bounded : WithinCapacity d
  pub live :
      (g : Registration) → get id d.registrations ≡ some g → is_active_registration g.status ≡ true

-- Tables with the same configurations and registrations.
pub same-WithinCapacity :
    (d e : Db)
    → e.configurations ≡ d.configurations
    → e.registrations ≡ d.registrations
    → WithinCapacity d
    → WithinCapacity e
unfolding get_configuration count_active_for_event
same-WithinCapacity d e c r h = record {
  keyed = rw r h.keyed;
  within = λ i config found. rw r (h.within i config (rw (sym c) found));
}

module _ (id : ℕ) where
  pub Safe-Seated :
      (f : Db → Db)
      → ((d : Db) → (f d).configurations ≡ d.configurations)
      → ((d : Db) → (f d).registrations ≡ d.registrations)
      → Safe (Seated id) f
  Safe-Seated f c r = record {
    keeps = λ d h. record {
      bounded = same-WithinCapacity d (f d) (c d) (r d) h.bounded;
      live = λ g found. h.live g (rw (sym (r d)) found);
    };
  }

  pub Safe-revise :
      (f : Registration → Registration)
      → KeepsKey f
      → ((g : Registration) → (f g).event_id ≡ g.event_id)
      → ((g : Registration)
          → is_active_registration g.status ≡ true
          → is_active_registration (f g).status ≡ true)
      → Safe (Seated id) (update_registration id f)
  unfolding update_registration
  Safe-revise f keeps same active = record {
    keeps = λ d h. record {
      bounded = update-WithinCapacity id f d keeps same (λ g found p. h.live g found) h.bounded;
      live = λ g found.
          revised d h g (get id d.registrations) refl
            (rw (get-update id id f d.registrations keeps, ==_refl id) at found);
    };
  }
    where
      revised :
          (d : Db) (h : Seated id d) (g : Registration) (o : Option Registration)
          → get id d.registrations ≡ o
          → on_some f o ≡ some g
          → is_active_registration g.status ≡ true
      revised d h g none stored found = absurd (cc found)
      revised d h g (some k) stored found =
          subst (λ x. is_active_registration x.status ≡ true) (some-injective _ _ found)
            (active k (h.live k stored))

  pub Safe-confirmed :
      Safe (Seated id) (update_registration id λ g. record g { status = confirmed })
  Safe-confirmed = Safe-revise _ (λ g. refl) (λ g. refl) (λ g p. refl)

  first-active : (c : EventConfiguration) → is_active_registration (first_status c) ≡ true
  first-active c = ground arith

  pub Safe-first :
      (c : EventConfiguration)
      → Safe (Seated id) (update_registration id λ g. record g { status = first_status c })
  Safe-first c = Safe-revise _ (λ g. refl) (λ g. refl) (λ g p. first-active c)

  pub Safe-add_ticket : (t : Ticket) → Safe (Seated id) (add_ticket t)
  Safe-add_ticket t = Safe-Seated _ (λ d. refl) (λ d. refl)

  pub Safe-add_participant : (p : RegistrationParticipant) → Safe (Seated id) (add_participant p)
  unfolding add_participant
  Safe-add_participant p = Safe-Seated _ (λ d. refl) (λ d. refl)

  pub Safe-update_event : (i : ℕ) (f : Event → Event) → Safe (Seated id) (update_event i f)
  unfolding update_event
  Safe-update_event i f = Safe-Seated _ (λ d. refl) (λ d. refl)

  pub Inside-audit :
      (t : String) (i : ℕ) (action : String) (actor : Option ℕ)
      → Inside (Seated id) (write_audit_log t i action actor)
  unfolding write_audit_log
  Inside-audit t i action actor = Inside-modify _ _ (Safe-Seated _ (λ d. refl) (λ d. refl))

  pub Inside-notification : (n : Notification) → Inside (Seated id) (create_notification n)
  unfolding create_notification
  Inside-notification n = Inside-modify _ _ (
      Safe-Seated _ (λ d. (noticed d n (has_notification n.dedupe_key d.notifications)).0)
        (λ d. (noticed d n (has_notification n.dedupe_key d.notifications)).1))
    where
      noticed :
          (d : Db) (n : Notification) (b : Bool)
          → ((if b then d else record d { notifications = add n d.notifications }).configurations
              ≡ d.configurations)
            × ((if b then d else record d { notifications = add n d.notifications }).registrations
                ≡ d.registrations)
      noticed d n true = (refl, refl)
      noticed d n false = (refl, refl)

pub ruleset seated_rules = (
  inside_rules, Safe-confirmed, Safe-first, Safe-add_ticket, Safe-add_participant,
  Safe-update_event, Inside-audit, Inside-notification,
)

module _ (id : ℕ) where
  pub Inside-participants :
      (actor : ℕ) (ps : List ParticipantIn) → Inside (Seated id) (add_participants id actor ps)
  unfolding add_participants
  Inside-participants actor [] = search seated_rules
  Inside-participants actor (p ∷ ps) =
      Inside-bind _ _ _ (search seated_rules)
        λ i. Inside-bind _ _ _ (search seated_rules) λ _. Inside-participants actor ps

  Inside-warn_each : (event : ℕ) (users : List ℕ) → Inside (Seated id) (warn_each event users)
  unfolding warn_each
  Inside-warn_each event [] = search seated_rules
  Inside-warn_each event (u ∷ us) =
      Inside-bind _ _ _ (search seated_rules)
        λ wanted. Inside-bind _ _ _ (search seated_rules) λ _. Inside-warn_each event us

  pub Inside-fill :
      (event : ℕ) (e : Event) (c : EventConfiguration) → Inside (Seated id) (fill_event event e c)
  unfolding fill_event queue_capacity_warning
  Inside-fill event e c = search (seated_rules, Inside-warn_each) depth 16
