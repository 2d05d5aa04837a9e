-- ===== src/Registrations/Releasing.antt =====
-- The branch of cancel_registration without a refund (app/modules/registrations/service.py) and the
-- capacity.
use event_platform_backend.Prelude.{
  ℕ, refl, ap, sym, subst, Option, none, some, List, [], ◌∷◌, String,
}
use event_platform_backend.Models.Events.{Event, EventConfiguration}
use event_platform_backend.Models.Payments.{Payment}
use event_platform_backend.Models.Registrations.{Registration, cancelled}
use event_platform_backend.Models.Tickets.{Ticket}
use event_platform_backend.Payments.Repository.{update_payment}
use event_platform_backend.Registrations.Cancellation.{fail_payment, cancel_each, release}
use event_platform_backend.Registrations.Filling.{Safe-update_event}
use event_platform_backend.Registrations.Repository.{update_registration}
use event_platform_backend.Registrations.Seated.{same-WithinCapacity}
use event_platform_backend.Registrations.Seats.{WithinCapacity, update-WithinCapacity}
use event_platform_backend.Registrations.Window.{reopen_event_if_capacity_available}
use event_platform_backend.Session.{Action}
use event_platform_backend.Session.Frames.{Frame}
use event_platform_backend.Session.Invariants.{Holds, Safe, Holds-bind, holds_rules}
use event_platform_backend.Session.Kept.{kept, Listed}
use event_platform_backend.Store.{Db}
use event_platform_backend.Tickets.Repository.{update_ticket}
use event_platform_backend.Waitlists.Durable.{Kept-promote_next}
use event_platform_backend.Waitlists.Operations.Promote.{promote_next}

-- The tables that the capacity is about.
abbrev Seating : Type 0
Seating = List EventConfiguration × List Registration

abbrev seating : Db → Seating
seating d = (d.configurations, d.registrations)

Listed-seating : Listed seating
Listed-seating = record {
  notifications = λ d x. refl;
  audit_logs = λ d x. refl;
  waitlist_entries = λ d x. refl;
}

abbrev seen : {B : Type 0} → Db × B → B
seen x = x.1

Holds-kept : {A : Type 0} (m : Action A) → Frame (kept seating) m → Holds WithinCapacity m
Holds-kept m h = record {
  at = λ s p. (
    same-WithinCapacity s.db (m s).1.db (ap (λ (x : Db × Seating). (seen x).0) (h.at s))
        (ap (λ (x : Db × Seating). (seen x).1) (h.at s)) p.0,
    subst WithinCapacity (sym (ap (λ (x : Db × Seating). x.0) (h.at s))) p.1,
  );
}

Holds-promote_next :
    (event_id : ℕ) (k : Option String) → Holds WithinCapacity (promote_next event_id k)
Holds-promote_next event_id k = Holds-kept _ (Kept-promote_next seating Listed-seating event_id k)

Safe-update_payment : (i : ℕ) (f : Payment → Payment) → Safe WithinCapacity (update_payment i f)
unfolding update_payment
Safe-update_payment i f = record { keeps = λ d h. same-WithinCapacity d _ refl refl h }

Safe-update_ticket : (i : ℕ) (f : Ticket → Ticket) → Safe WithinCapacity (update_ticket i f)
Safe-update_ticket i f = record { keeps = λ d h. same-WithinCapacity d _ refl refl h }

Safe-cancelled :
    (i t : ℕ)
    → Safe WithinCapacity
        (update_registration i λ r. record r { status = cancelled; cancelled_at = some t })
Safe-cancelled i t = record {
  keeps =
      λ d h. update-WithinCapacity i _ d (λ r. refl) (λ r. refl) (λ r stored p. absurd (cc p)) h;
}

Holds-fail_payment : (o : Option Payment) → Holds WithinCapacity (fail_payment o)
unfolding fail_payment
Holds-fail_payment none = search holds_rules
Holds-fail_payment (some p) = search (holds_rules, Safe-update_payment)

Holds-cancel_each : (ts : List Ticket) → Holds WithinCapacity (cancel_each ts)
unfolding cancel_each
Holds-cancel_each [] = search holds_rules
Holds-cancel_each (t ∷ ts) =
    Holds-bind _ _ _ (search (holds_rules, Safe-update_ticket)) λ _. Holds-cancel_each ts

Holds-reopen :
    (e : Event) (c : EventConfiguration)
    → Holds WithinCapacity (reopen_event_if_capacity_available e c)
unfolding reopen_event_if_capacity_available
Holds-reopen e c = search (holds_rules, Safe-update_event) depth 12

pub Holds-release :
    (e : Event) (c : EventConfiguration) (t : ℕ) (g : Registration) (o : Option Payment)
    → Holds WithinCapacity (release e c t g o)
unfolding release
Holds-release e c t g o =
    search
      (
        holds_rules, Holds-fail_payment, Safe-cancelled, Holds-cancel_each, Holds-reopen,
        Holds-promote_next,
      )
      depth 24
