-- ===== src/Registrations/Rows.antt =====
-- The row of one registration, through the writes of cancel_registration
-- (app/modules/registrations/service.py) and request_refund (app/modules/payments/service.py).
use event_platform_backend.Prelude.{
  ℕ, ◌≡◌, refl, ap, Bool, true, false, Option, none, some, List, [], ◌∷◌, String, ℤ, ==_refl, ◌==◌,
  if◌then◌else◌,
}
use event_platform_backend.Models.Events.{Event, EventConfiguration}
use event_platform_backend.Models.Payments.{Payment, Refund}
use event_platform_backend.Models.Registrations.{Registration, refund_pending}
use event_platform_backend.Models.Tickets.{Ticket}
use event_platform_backend.Payments.Refunds.{
  add_refund, refund_registration, refund_amount, refund_payment, request_refund,
}
use event_platform_backend.Payments.Repository.{update_payment}
use event_platform_backend.Registrations.Cancellation.{fail_payment, cancel_each}
use event_platform_backend.Registrations.Repository.{get_registration, update_registration}
use event_platform_backend.Registrations.Window.{update_event, reopen_event_if_capacity_available}
use event_platform_backend.Session.{Action, LockKey, acquire_advisory_lock, write_audit_log}
use event_platform_backend.Session.Frames.{Frame}
use event_platform_backend.Session.Inside.{Inside, Inside-bind, Inside-modify, inside_rules}
use event_platform_backend.Session.Invariants.{Safe}
use event_platform_backend.Session.Kept.{kept, Listed}
use event_platform_backend.Store.{Db, registration_key}
use event_platform_backend.Table.{get, update}
use event_platform_backend.Table.Laws.{KeepsKey, get-update, on_some}
use event_platform_backend.Tickets.Repository.{update_ticket}
use event_platform_backend.Waitlists.Durable.{Kept-promote_next}
use event_platform_backend.Waitlists.Operations.Promote.{promote_next}

-- A condition on the row of one registration.
pub record Row (id : ℕ) (Q : Registration → Type 0) (d : Db) : Type 0 where
  pub row : Registration
  pub stored : get_registration id d ≡ some row
  pub meets : Q row

module _ (id : ℕ) where
  -- A write to the row of a registration that is there.
  pub update-Row :
      (Q R : Registration → Type 0) (j : ℕ) (f : Registration → Registration) (d : Db)
      → KeepsKey f
      → ((g : Registration) → Q g → R g)
      → ((g : Registration) → Q g → R (f g))
      → Row id Q d
      → Row id R (update_registration j f d)
  unfolding update_registration get_registration
  update-Row Q R j f d keeps same moved h =
      by_key (j == id) (get-update id j f d.registrations keeps)
    where
      by_key :
          (b : Bool)
          → get id (update j f d.registrations)
            ≡ (if b then on_some f (get id d.registrations) else get id d.registrations)
          → Row id R (record d { registrations = update j f d.registrations })
      by_key true e = record {
        row = f h.row;
        stored = rw h.stored at e;
        meets = moved h.row h.meets;
      }
      by_key false e = record { row = h.row; stored = rw h.stored at e; meets = same h.row h.meets }

  pub Safe-other :
      (Q : Registration → Type 0) (f : Db → Db)
      → ((d : Db) → (f d).registrations ≡ d.registrations)
      → Safe (Row id Q) f
  unfolding get_registration
  Safe-other Q f same = record {
    keeps = λ d h. record { row = h.row; stored = rw (same d) h.stored; meets = h.meets };
  }

  pub own-Row :
      (Q R : Registration → Type 0) (f : Registration → Registration) (d : Db)
      → KeepsKey f
      → ((g : Registration) → Q g → R (f g))
      → Row id Q d
      → Row id R (update_registration id f d)
  unfolding update_registration get_registration
  own-Row Q R f d keeps moved h = record {
    row = f h.row;
    stored = rw (==_refl id, h.stored) at (get-update id id f d.registrations keeps);
    meets = moved h.row h.meets;
  }

  Inside-Row-lock :
      (Q : Registration → Type 0) (l : LockKey) → Inside (Row id Q) (acquire_advisory_lock l)
  unfolding acquire_advisory_lock
  Inside-Row-lock Q l = record { at = λ s h. h }

  pub Inside-Row-audit :
      (Q : Registration → Type 0) (t : String) (i : ℕ) (action : String) (actor : Option ℕ)
      → Inside (Row id Q) (write_audit_log t i action actor)
  unfolding write_audit_log
  Inside-Row-audit Q t i action actor = Inside-modify _ _ (Safe-other Q _ (λ d. refl))

  Safe-ticket :
      (Q : Registration → Type 0) (i : ℕ) (f : Ticket → Ticket)
      → Safe (Row id Q) (update_ticket i f)
  Safe-ticket Q i f = Safe-other Q _ (λ d. refl)

  Safe-event :
      (Q : Registration → Type 0) (i : ℕ) (f : Event → Event) → Safe (Row id Q) (update_event i f)
  unfolding update_event
  Safe-event Q i f = Safe-other Q _ (λ d. refl)

  Safe-payment :
      (Q : Registration → Type 0) (i : ℕ) (f : Payment → Payment)
      → Safe (Row id Q) (update_payment i f)
  unfolding update_payment
  Safe-payment Q i f = Safe-other Q _ (λ d. refl)

  Safe-refund : (Q : Registration → Type 0) (r : Refund) → Safe (Row id Q) (add_refund r)
  unfolding add_refund
  Safe-refund Q r = Safe-other Q _ (λ d. refl)

  Inside-Row-kept :
      {A : Type 0} (Q : Registration → Type 0) (m : Action A)
      → Frame (kept (λ d. d.registrations)) m
      → Inside (Row id Q) m
  unfolding get_registration
  Inside-Row-kept Q m w = record {
    at = λ s h. record {
      row = h.row;
      stored = rw (ap (λ (x : Db × List Registration). x.1) (w.at s)) h.stored;
      meets = h.meets;
    };
  }

  Listed-registrations : Listed (λ (d : Db). d.registrations)
  Listed-registrations = record {
    notifications = λ d x. refl;
    audit_logs = λ d x. refl;
    waitlist_entries = λ d x. refl;
  }

  pub Inside-Row-promote :
      (Q : Registration → Type 0) (event_id : ℕ) (k : Option String)
      → Inside (Row id Q) (promote_next event_id k)
  Inside-Row-promote Q event_id k =
      Inside-Row-kept Q _ (Kept-promote_next (λ d. d.registrations) Listed-registrations event_id k)

ruleset row_rules = (
  inside_rules, Inside-Row-lock, Inside-Row-audit, Safe-ticket, Safe-event, Safe-payment,
  Safe-refund,
)

module _ (id : ℕ) (Q : Registration → Type 0) where
  pub Inside-Row-fail : (o : Option Payment) → Inside (Row id Q) (fail_payment o)
  unfolding fail_payment
  Inside-Row-fail none = search row_rules
  Inside-Row-fail (some p) = search row_rules

  pub Inside-Row-cancel_each : (ts : List Ticket) → Inside (Row id Q) (cancel_each ts)
  unfolding cancel_each
  Inside-Row-cancel_each [] = search row_rules
  Inside-Row-cancel_each (t ∷ ts) =
      Inside-bind _ _ _ (search row_rules) λ _. Inside-Row-cancel_each ts

  pub Inside-Row-reopen :
      (e : Event) (c : EventConfiguration)
      → Inside (Row id Q) (reopen_event_if_capacity_available e c)
  unfolding reopen_event_if_capacity_available
  Inside-Row-reopen e c = search row_rules depth 12

module _ (id : ℕ) where
  -- The registration is there.
  abbrev pub Present : Db → Type 0
  Present = Row id (λ _. Unit)

  Safe-mark :
      (j : ℕ) → Safe Present (update_registration j λ g. record g { status = refund_pending })
  Safe-mark j = record {
    keeps = λ d h. update-Row id _ _ j _ d (λ g. refl) (λ g q. q) (λ g q. q) h;
  }

  Inside-Row-registration :
      (p : Payment) (actor amount : ℕ) (reason : Option String) (o : Option Registration)
      → Inside Present (refund_registration p actor amount reason false o)
  unfolding refund_registration
  Inside-Row-registration p actor amount reason none = search row_rules
  Inside-Row-registration p actor amount reason (some g) = search (row_rules, Safe-mark) depth 20

  Inside-Row-amount :
      (p : Payment) (actor : ℕ) (reason : Option String) (o : Option ℕ)
      → Inside Present (refund_amount p actor reason false o)
  unfolding refund_amount
  Inside-Row-amount p actor reason none = search row_rules
  Inside-Row-amount p actor reason (some amount) =
      search (row_rules, Inside-Row-registration) depth 16

  Inside-Row-payment :
      (actor : ℕ) (amount : Option ℤ) (reason : Option String) (o : Option Payment)
      → Inside Present (refund_payment actor amount reason false o)
  unfolding refund_payment
  Inside-Row-payment actor amount reason none = search row_rules
  Inside-Row-payment actor amount reason (some p) = search (row_rules, Inside-Row-amount)

  pub Inside-Row-refund :
      (payment_id actor : ℕ) (amount : Option ℤ) (reason : Option String)
      → Inside Present (request_refund payment_id actor amount reason false)
  unfolding request_refund
  Inside-Row-refund payment_id actor amount reason = search (row_rules, Inside-Row-payment) depth 12

  pub Safe-Present :
      (f : Registration → Registration) → KeepsKey f → Safe Present (update_registration id f)
  Safe-Present f keeps = record {
    keeps = λ d h. update-Row id _ _ id f d keeps (λ g q. q) (λ g q. q) h;
  }
