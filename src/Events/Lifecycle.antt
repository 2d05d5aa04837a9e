-- ===== src/Events/Lifecycle.antt =====
-- The phases of the events under the operations on events (app/modules/events/service.py).
use event_platform_backend.Prelude.{
  ℕ, ◌+◌, ◌≡◌, ◌≤◌, refl, sym, subst, String, Bool, true, ◌&&◌, Option, none, some, arith,
  not-eq_false,
}
use event_platform_backend.ConfigEngine.{is_registration_open}
use event_platform_backend.Events.{get_event, get_configuration}
use event_platform_backend.Events.Calendar.{
  add_item, update_item, remove_item, add_schedule_item, update_schedule_item, cancel_schedule_item,
  delete_schedule_item,
}
use event_platform_backend.Events.Checks.{Holds-validate, Holds-check_capacity}
use event_platform_backend.Events.Forward.{
  phase, allowed-phase, Reached, Forward, update-Forward, Current, found-Current, closed-Current,
}
use event_platform_backend.Events.Status.{
  allowed, synchronize_with, synchronize_registration_state, get_event_or_raise, transition_status,
  deleted, revoke_assignments, delete_event,
}
use event_platform_backend.Events.Timetable.{
  ScheduleRequest, read, change_status, remove_event, add_slot, move_slot, cancel_slot, delete_slot,
  open_venue, change_venue, serve,
}
use event_platform_backend.Models.Events.{
  Event, EventConfiguration, EventStatus, registration_closed,
}
use event_platform_backend.Events.Venues.{add_venue_row, update_venue_row, add_venue, update_venue}
use event_platform_backend.Models.Schedule.{ScheduleItem, Venue}
use event_platform_backend.Registrations.Window.{update_event, with_status}
use event_platform_backend.Session.{
  Session, pure, or_raise, now, modify, commit, write_audit_log, ◌>>=◌, ◌>>◌,
}
use event_platform_backend.Session.Checked.{Holds-Triple, Triple-write}
use event_platform_backend.Session.Invariants.{Both, Holds, Safe, Holds-modify, holds_rules}
use event_platform_backend.Session.Triples.{
  Triple, Triple-bind, Triple-pure, Triple-post, Triple-if, after_guard,
}
use event_platform_backend.Session.Errors.{event_not_found}
use event_platform_backend.Store.{Db, event_key}
use event_platform_backend.Table.{get}

module _ (d₀ : Db) where
  -- The tables are further on than `d₀`, and `event` is the row in hand.
  abbrev With : Event → Session → Type 0
  With event s = Both (Forward d₀) s × Current event s.db

  closing-Triple :
      (event : Event)
      → is_registration_open event.status ≡ true
      → Triple
          (With event)
          (modify (update_event event.id (with_status registration_closed))
            >> (commit >> pure (with_status registration_closed event)))
          With
          (Both (Forward d₀))
  unfolding modify commit ◌>>=◌
  closing-Triple event opened = record {
    run = λ s p.
        let further : Forward d₀ (update_event event.id (with_status registration_closed) s.db) =
          update-Forward d₀ s.db event.id (with_status registration_closed) (λ e. refl)
            (λ e q.
              open_phase e.status
                (subst (λ x. is_registration_open x.status ≡ true) (sym (p.1.only e q)) opened))
            p.0.0 in
        ((further, further), closed-Current event registration_closed s.db p.1);
  }
    where
      open_phase : (a : EventStatus) → is_registration_open a ≡ true → phase a ≤ 2
      open_phase a h = ground arith

  synchronize-Triple :
      (event : Event) (o : Option EventConfiguration)
      → Triple (With event) (synchronize_with event o) With (Both (Forward d₀))
  unfolding synchronize_with ◌>>=◌ now
  synchronize-Triple event none = Triple-pure event λ s h. h
  synchronize-Triple event (some config) = record {
    run = λ s p.
        (Triple-if _ _ _ (λ both. closing-Triple event (opened _ _ both))
            λ _. Triple-pure event λ t h. h).run
          (record s { readings = s.readings + 1 }) p;
  }
    where
      opened : (b c : Bool) → b && c ≡ true → b ≡ true
      opened b c h = ground arith

  found-Triple :
      (i : ℕ) (o : Option Event)
      → Triple
          (λ s. Both (Forward d₀) s × (get_event i s.db ≡ o))
          (or_raise o (event_not_found "Event not found.") >>= synchronize_registration_state)
          With
          (Both (Forward d₀))
  unfolding synchronize_registration_state ◌>>=◌
  found-Triple i none = record { run = λ s p. p.0 }
  found-Triple i (some event) = record {
    run = λ s p.
        (synchronize-Triple event (get_configuration event.id s.db)).run s
          (p.0, found-Current i event s.db p.1);
  }

  read-Triple : (i : ℕ) → Triple (Both (Forward d₀)) (get_event_or_raise i) With (Both (Forward d₀))
  unfolding get_event_or_raise ◌>>=◌
  read-Triple i = record { run = λ s p. (found-Triple i (get_event i s.db)).run s (p, refl) }

  pub Forward-read : (i : ℕ) → Holds (Forward d₀) (get_event_or_raise i)
  Forward-read i =
      Holds-Triple (Forward d₀) (Triple-post (get_event_or_raise i) (λ e s h. h.0) (read-Triple i))

  -- A write that leaves the events alone.
  Safe-same : (f : Db → Db) → ((d : Db) → (f d).events ≡ d.events) → Safe (Forward d₀) f
  Safe-same f same = record {
    keeps = λ d h. record {
      at = λ i e q. subst (λ l. Reached (phase e.status) (get i l)) (sym (same d)) (h.at i e q);
    };
  }

  Forward-audit :
      (t : String) (id : ℕ) (action : String) (actor : Option ℕ)
      → Holds (Forward d₀) (write_audit_log t id action actor)
  unfolding write_audit_log
  Forward-audit t id action actor = Holds-modify (Forward d₀) _ (Safe-same _ λ d. refl)

  transition_phase :
      (event : Event) (status : EventStatus) (d : Db)
      → allowed event.status status ≡ true
      → Forward d₀ d
      → Current event d
      → Forward d₀ (update_event event.id (with_status status) d)
  transition_phase event status d step h c =
      update-Forward d₀ d event.id (with_status status) (λ e. refl)
        (λ e q.
          subst (λ x. phase x.status ≤ phase status) (sym (c.only e q)) (allowed-phase _ _ step))
        h

  pub Forward-transition :
      (i : ℕ) (status : EventStatus) (actor : ℕ)
      → Holds (Forward d₀) (transition_status i status actor)
  unfolding transition_status
  Forward-transition i status actor = Holds-Triple (Forward d₀) (
      Triple-bind _ _ (read-Triple i) λ event.
        after_guard (λ s h. h.0) _ _ _
          λ step.
            Triple-write (Forward d₀) (Current event) _ _
              (λ d h c. transition_phase event status d (not-eq_false _ step) h c)
              (search (holds_rules, Forward-audit) depth 9))

  Safe-deleted : (i t : ℕ) → Safe (Forward d₀) (update_event i (deleted t))
  Safe-deleted i t = record {
    keeps = λ d h. update-Forward d₀ d i (deleted t) (λ e. refl) (λ e q. last e.status) h;
  }
    where
      last : (a : EventStatus) → phase a ≤ 5
      last a = ground arith

  pub Forward-delete : (i actor : ℕ) → Holds (Forward d₀) (delete_event i actor)
  unfolding delete_event
  Forward-delete i actor = search (holds_rules, Forward-audit, Safe-deleted, safe_revoke) depth 20
    where
      safe_revoke : (j t : ℕ) → Safe (Forward d₀) (revoke_assignments j t)
      safe_revoke j t = Safe-same _ λ d. refl

  Safe-add_item : (i : ScheduleItem) → Safe (Forward d₀) (add_item i)
  Safe-add_item i = Safe-same _ λ d. refl

  Safe-update_item : (i : ℕ) (f : ScheduleItem → ScheduleItem) → Safe (Forward d₀) (update_item i f)
  Safe-update_item i f = Safe-same _ λ d. refl

  Safe-remove_item : (i : ℕ) → Safe (Forward d₀) (remove_item i)
  Safe-remove_item i = Safe-same _ λ d. refl

  Safe-add_venue : (v : Venue) → Safe (Forward d₀) (add_venue_row v)
  Safe-add_venue v = Safe-same _ λ d. refl

  Safe-update_venue : (i : ℕ) (f : Venue → Venue) → Safe (Forward d₀) (update_venue_row i f)
  Safe-update_venue i f = Safe-same _ λ d. refl

  ruleset item_rules = (
    holds_rules, Forward-read, Forward-audit, Holds-validate, Safe-add_item, Safe-update_item,
    Safe-remove_item, Safe-add_venue, Safe-update_venue, Holds-check_capacity,
  )

  serve-Forward : (r : ScheduleRequest) → Holds (Forward d₀) (serve r)
  unfolding add_schedule_item update_schedule_item cancel_schedule_item delete_schedule_item
      add_venue update_venue
  serve-Forward (read event) = search item_rules
  serve-Forward (change_status event status actor) = search (holds_rules, Forward-transition)
  serve-Forward (remove_event event actor) = Forward-delete event actor
  serve-Forward (add_slot event fields actor) = search item_rules depth 24
  serve-Forward (move_slot event i changes actor) = search item_rules depth 30
  serve-Forward (cancel_slot event i actor) = search item_rules depth 24
  serve-Forward (delete_slot event i actor) = search item_rules depth 24
  serve-Forward (open_venue event fields) = search item_rules depth 24
  serve-Forward (change_venue event i changes) = search item_rules depth 24

-- Requests, each in a session of its own that begins with what is stored, lead from `d` to `l`.
pub data Served (d : Db) : Db → Type 0 where
  nothing : Served d d
  next :
      (s : Session) (r : ScheduleRequest)
      → Served d s.durable
      → s.db ≡ s.durable
      → Served d (serve r s).1.durable

-- However requests on events, venues and schedules follow each other, succeed or are refused, every event that
-- was stored is still stored, and never in an earlier phase than before: from drafting (draft and
-- configured) to published, to its registration (open or closed), to live, completed and archived.
pub events-Forward : (d l : Db) → Served d l → Forward d l
events-Forward d l nothing = record {
  at = λ i e q. record { row = e; found = q; later = ground arith };
}
events-Forward d l (next s r before fresh) =
    let stored : Forward d s.durable = events-Forward d s.durable before in
    ((serve-Forward d r).at s (rw fresh stored, stored)).1
