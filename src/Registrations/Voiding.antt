-- ===== src/Registrations/Voiding.antt =====
-- RegistrationService.cancel_registration (app/modules/registrations/service.py): the tickets of a
-- registration that is cancelled.
use event_platform_backend.Prelude.{
  ℕ, ◌≡◌, refl, ap, subst, sym, Bool, true, not, ◌||◌, ◌==◌, List, [], ◌∷◌, All, Option, String,
  arith, select,
}
use event_platform_backend.Models.Events.{Event, EventConfiguration}
use event_platform_backend.Models.Registrations.{Registration}
use event_platform_backend.Models.Tickets.{Ticket, is_void}
use event_platform_backend.Registrations.Cancellation.{cancel_ticket, cancel_each}
use event_platform_backend.Registrations.Rows.{Row, Safe-other}
use event_platform_backend.Registrations.Window.{update_event, reopen_event_if_capacity_available}
use event_platform_backend.Session.{Session, Action, modify, write_audit_log, ◌>>=◌}
use event_platform_backend.Session.Frames.{Frame}
use event_platform_backend.Session.Inside.{Inside, Inside-modify, inside_rules}
use event_platform_backend.Session.Invariants.{Safe}
use event_platform_backend.Session.Kept.{kept, Listed}
use event_platform_backend.Session.Triples.{Triple, Triple-pure}
use event_platform_backend.Store.{Db, ticket_key}
use event_platform_backend.Table.{update}
use event_platform_backend.Table.Keys.{has_key}
use event_platform_backend.Tickets.Repository.{list_by_registration_id, update_ticket}
use event_platform_backend.Waitlists.Durable.{Kept-promote_next}
use event_platform_backend.Waitlists.Operations.Promote.{promote_next}

-- The tickets of the registration are cancelled or revoked.
abbrev pub AllVoid : ℕ → Db → Type 0
AllVoid id d = All (λ (t : Ticket). is_void t.status ≡ true) (list_by_registration_id id d)

module _ (id : ℕ) where
  abbrev ours : Ticket → Bool
  ours t = t.registration_id == id

  -- A ticket of the registration is void, or still to be cancelled.
  abbrev Due : List Ticket → Ticket → Type 0
  Due es t = (not (ours t) || is_void t.status || has_key t.id es) ≡ true

  select-Due :
      (rs es : List Ticket)
      → ((i : ℕ) → has_key i (select ours rs) ≡ true → has_key i es ≡ true)
      → All (Due es) rs
  select-Due [] es sub = tt
  select-Due (t ∷ rs) es sub =
      (ground (arith, sub t.id), select-Due rs es λ i h. ground (arith, sub i, h))

  step_Due :
      (t : Ticket) (es rs : List Ticket)
      → All (Due (t ∷ es)) rs
      → All (Due es) (update t.id cancel_ticket rs)
  step_Due t es [] h = tt
  step_Due t es (x ∷ rs) h = (ground (arith, h.0), step_Due t es rs h.1)

  nothing_left :
      (rs : List Ticket)
      → All (Due []) rs
      → All (λ (t : Ticket). is_void t.status ≡ true) (select ours rs)
  nothing_left [] h = tt
  nothing_left (x ∷ rs) h = ground (arith, h.0, nothing_left rs h.1)

  -- cancel_each, on the tickets that still have to be cancelled.
  cancel-Due-Triple :
      (Q : Registration → Type 0) (E : Session → Type 0) (es : List Ticket)
      → Triple
          (λ s. Row id Q s.db × All (Due es) s.db.tickets)
          (cancel_each es)
          (λ _ s. Row id Q s.db × AllVoid id s.db)
          E
  unfolding cancel_each modify ◌>>=◌ list_by_registration_id
  cancel-Due-Triple Q E [] = Triple-pure _ λ s h. (h.0, nothing_left s.db.tickets h.1)
  cancel-Due-Triple Q E (t ∷ es) = record {
    run = λ s h. (cancel-Due-Triple Q E es).run _ (
      (Safe-other id Q (update_ticket t.id cancel_ticket) (λ d. refl)).keeps s.db h.0,
      step_Due t es s.db.tickets h.1,
    );
  }

  pub cancel_each-Triple :
      (Q : Registration → Type 0) (E : Session → Type 0) (es : List Ticket)
      → Triple
          (λ s. Row id Q s.db × (list_by_registration_id id s.db ≡ es))
          (cancel_each es)
          (λ _ s. Row id Q s.db × AllVoid id s.db)
          E
  unfolding list_by_registration_id
  cancel_each-Triple Q E es = record {
    run = λ s h.
        (cancel-Due-Triple Q E es).run s
          (h.0, select-Due s.db.tickets es λ i on. subst (λ x. has_key i x ≡ true) h.1 on);
  }

  Inside-Void-kept :
      {A : Type 0} (m : Action A) → Frame (kept (λ d. d.tickets)) m → Inside (AllVoid id) m
  unfolding list_by_registration_id
  Inside-Void-kept m w = record {
    at = λ s h.
        subst (λ ts. All (λ (t : Ticket). is_void t.status ≡ true) (select ours ts))
          (sym (ap (λ (x : Db × List Ticket). x.1) (w.at s))) h;
  }

  Listed-tickets : Listed (λ (d : Db). d.tickets)
  Listed-tickets = record {
    notifications = λ d x. refl;
    audit_logs = λ d x. refl;
    waitlist_entries = λ d x. refl;
  }

  pub Inside-Void-promote :
      (event_id : ℕ) (k : Option String) → Inside (AllVoid id) (promote_next event_id k)
  Inside-Void-promote event_id k =
      Inside-Void-kept _ (Kept-promote_next (λ d. d.tickets) Listed-tickets event_id k)

  Safe-Void-event : (i : ℕ) (f : Event → Event) → Safe (AllVoid id) (update_event i f)
  unfolding update_event list_by_registration_id
  Safe-Void-event i f = record { keeps = λ d h. h }

  pub Inside-Void-reopen :
      (e : Event) (c : EventConfiguration)
      → Inside (AllVoid id) (reopen_event_if_capacity_available e c)
  unfolding reopen_event_if_capacity_available
  Inside-Void-reopen e c = search (inside_rules, Safe-Void-event) depth 12

  pub Inside-Void-audit :
      (t : String) (i : ℕ) (action : String) (actor : Option ℕ)
      → Inside (AllVoid id) (write_audit_log t i action actor)
  unfolding write_audit_log list_by_registration_id
  Inside-Void-audit t i action actor = Inside-modify _ _ (record { keeps = λ d h. h })
