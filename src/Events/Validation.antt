-- ===== src/Events/Validation.antt =====
-- The reading of an event, its status and its deletion leave the schedule as it is, and what passes
-- _validate_schedule is free of conflicts (app/modules/events/service.py).
use event_platform_backend.Prelude.{
  ℕ, ◌≡◌, refl, subst, String, Bool, true, false, Option, none, some, List, [], ◌∷◌, ◌==◌,
  if◌then◌else◌,
}
use event_platform_backend.Events.{get_event, not_deleted}
use event_platform_backend.Events.Bookings.{NoDoubleBooking, NoneRevived, left-NoDoubleBooking}
use event_platform_backend.Events.Checks.{Holds-check_venue, Holds-lock}
use event_platform_backend.Events.Schedule.{
  ScheduleFields, is_live_event, find_overlapping, refuse_conflicts, check_overlap,
  validate_schedule,
}
use event_platform_backend.Events.Status.{
  synchronize_with, synchronize_registration_state, get_event_or_raise, transition_status, deleted,
  revoke_assignments, delete_event,
}
use event_platform_backend.Events.Venues.{add_venue_row, update_venue_row}
use event_platform_backend.Models.Schedule.{Venue}
use event_platform_backend.Models.Events.{Event, EventConfiguration, EventStatus}
use event_platform_backend.Models.Schedule.{ScheduleItem}
use event_platform_backend.Registrations.Window.{update_event, with_status}
use event_platform_backend.Session.{Session, write_audit_log, ◌>>=◌}
use event_platform_backend.Session.Checked.{Triple-Holds}
use event_platform_backend.Session.Invariants.{
  Both, Holds, Safe, Holds-bind, Holds-modify, holds_rules,
}
use event_platform_backend.Session.Triples.{Ends, Triple, Triple-bind, Triple-pure}
use event_platform_backend.Store.{Db, event_key, schedule_item_key}
use event_platform_backend.Table.{get}
use event_platform_backend.Table.Laws.{get-update, on_some}

-- A write to an event that keeps its id and does not bring it back.
Safe-update_event :
    (i : ℕ) (f : Event → Event)
    → ((d : Db) → NoneRevived d (update_event i f d))
    → Safe NoDoubleBooking (update_event i f)
unfolding update_event
Safe-update_event i f r = record {
  keeps = λ d h. left-NoDoubleBooking d (update_event i f d) refl (r d) h;
}

module _ (f : Event → Event) (keyed : (e : Event) → (f e).id ≡ e.id)
    (lasting : (e : Event)
      → is_live_event (not_deleted (some (f e))) ≡ true
      → is_live_event (not_deleted (some e)) ≡ true) where
  update-NoneRevived : (i : ℕ) (d : Db) → NoneRevived d (update_event i f d)
  unfolding update_event get_event
  update-NoneRevived i d j h =
      by_key (i == j) (get j d.events)
        (subst (λ o. is_live_event (not_deleted o) ≡ true) (get-update j i f d.events keyed) h)
    where
      by_key :
          (b : Bool) (o : Option Event)
          → is_live_event (not_deleted (if b then on_some f o else o)) ≡ true
          → is_live_event (not_deleted o) ≡ true
      by_key false o h = h
      by_key true none h = h
      by_key true (some e) h = lasting e h

pub Safe-with_status :
    (i : ℕ) (status : EventStatus) → Safe NoDoubleBooking (update_event i (with_status status))
Safe-with_status i status =
    Safe-update_event i _
      (update-NoneRevived (with_status status) (λ e. refl) (λ e h. lasts e e.deleted_at h) i)
  where
    lasts :
        (e : Event) (o : Option ℕ)
        → is_live_event (elim o [ none ↦ some (with_status status e) | some t ↦ none ]) ≡ true
        → is_live_event (elim o [ none ↦ some e | some t ↦ none ]) ≡ true
    lasts e none h = refl
    lasts e (some t) h = absurd (cc h)

pub Safe-deleted : (i t : ℕ) → Safe NoDoubleBooking (update_event i (deleted t))
Safe-deleted i t =
    Safe-update_event i _ (update-NoneRevived (deleted t) (λ e. refl) (λ e h. absurd (cc h)) i)

pub Safe-revoke : (i t : ℕ) → Safe NoDoubleBooking (revoke_assignments i t)
unfolding get_event
Safe-revoke i t = record {
  keeps = λ d h. left-NoDoubleBooking d (revoke_assignments i t d) refl (λ j l. l) h;
}

pub Holds-audit :
    (t : String) (id : ℕ) (action : String) (actor : Option ℕ)
    → Holds NoDoubleBooking (write_audit_log t id action actor)
unfolding write_audit_log get_event
Holds-audit t id action actor =
    Holds-modify NoDoubleBooking _
      (record { keeps = λ d h. left-NoDoubleBooking d _ refl (λ j l. l) h })

pub Safe-add_venue : (v : Venue) → Safe NoDoubleBooking (add_venue_row v)
unfolding get_event
Safe-add_venue v = record {
  keeps = λ d h. left-NoDoubleBooking d (add_venue_row v d) refl (λ j l. l) h;
}

pub Safe-update_venue : (i : ℕ) (f : Venue → Venue) → Safe NoDoubleBooking (update_venue_row i f)
unfolding get_event
Safe-update_venue i f = record {
  keeps = λ d h. left-NoDoubleBooking d (update_venue_row i f d) refl (λ j l. l) h;
}

pub ruleset booking_rules = (
  holds_rules, Safe-with_status, Safe-deleted, Safe-revoke, Safe-add_venue, Safe-update_venue,
  Holds-audit,
)

Holds-synchronize_with :
    (e : Event) (o : Option EventConfiguration) → Holds NoDoubleBooking (synchronize_with e o)
unfolding synchronize_with
Holds-synchronize_with e none = search booking_rules
Holds-synchronize_with e (some c) = search booking_rules depth 16

pub Holds-get_event : (i : ℕ) → Holds NoDoubleBooking (get_event_or_raise i)
unfolding get_event_or_raise synchronize_registration_state
Holds-get_event i = search (booking_rules, Holds-synchronize_with) depth 12

pub Holds-transition :
    (i : ℕ) (status : EventStatus) (actor : ℕ)
    → Holds NoDoubleBooking (transition_status i status actor)
unfolding transition_status
Holds-transition i status actor = search (booking_rules, Holds-get_event) depth 16

pub Holds-delete_event : (i actor : ℕ) → Holds NoDoubleBooking (delete_event i actor)
unfolding delete_event
Holds-delete_event i actor = search booking_rules depth 20

-- No item that is there is in conflict with these fields.
abbrev pub Free : ScheduleFields → Option ℕ → ℕ × ℕ → Db → Type 0
Free fields excluded range d =
    find_overlapping fields.venue_id fields.resource_key range.0 range.1 excluded d ≡ []

module _ (fields : ScheduleFields) (excluded : Option ℕ) where
  overlap-Triple :
      (s e : ℕ)
      → Triple
          (Both NoDoubleBooking)
          (check_overlap fields excluded s e)
          (λ _ t. Both NoDoubleBooking t × Free fields excluded (s, e) t.db)
          (Both NoDoubleBooking)
  unfolding check_overlap ◌>>=◌
  overlap-Triple s e =
      Triple-bind _ _
        (Triple-Holds NoDoubleBooking
          (Holds-lock NoDoubleBooking fields.venue_id fields.resource_key))
        λ _. record {
          run = λ t p.
              refused (find_overlapping fields.venue_id fields.resource_key s e excluded t.db) t
                refl p;
        }
    where
      refused :
          (l : List ScheduleItem) (t : Session)
          → find_overlapping fields.venue_id fields.resource_key s e excluded t.db ≡ l
          → Both NoDoubleBooking t
          → Ends
              (λ _ u. Both NoDoubleBooking u × Free fields excluded (s, e) u.db)
              (Both NoDoubleBooking)
              (refuse_conflicts fields.venue_id l t)
      refused [] t found p = (p, found)
      refused (i ∷ l) t found p = p

  pub validate-Triple :
      (event : Event)
      → Triple
          (Both NoDoubleBooking)
          (validate_schedule event fields excluded)
          (λ range t. Both NoDoubleBooking t × Free fields excluded range t.db)
          (Both NoDoubleBooking)
  unfolding validate_schedule
  validate-Triple event =
      Triple-bind _ _ (Triple-Holds NoDoubleBooking (search holds_rules)) λ range.
        Triple-bind _ _ (Triple-Holds NoDoubleBooking (search holds_rules)) λ away.
          Triple-bind _ _ (Triple-Holds NoDoubleBooking (search holds_rules)) λ _.
            Triple-bind _ _
              (Triple-Holds NoDoubleBooking (Holds-check_venue NoDoubleBooking _ _ _ _ _))
              λ _. Triple-bind _ _ (overlap-Triple range.0 range.1) λ _. Triple-pure range λ t h. h
