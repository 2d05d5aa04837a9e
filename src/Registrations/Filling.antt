-- ===== src/Registrations/Filling.antt =====
-- RegistrationService.create_registration (app/modules/registrations/service.py) and the capacity.
use mathlib.Core.Option.{some-injective}
use event_platform_backend.Prelude.{ℕ, ◌≡◌, refl, ap, sym, subst, Option, none, some, String, ◌∙◌}
use event_platform_backend.Guardians.{ensure_child}
use event_platform_backend.ConfigEngine.Availability.{SeatsLeft}
use event_platform_backend.Events.{get_configuration}
use event_platform_backend.Models.Events.{Event, EventConfiguration}
use event_platform_backend.Registrations.Intake.{
  RegistrationIn, check_captain, check_team_reference,
}
use event_platform_backend.Registrations.Guards.{ensure_capacity_effect}
use event_platform_backend.Registrations.Repository.{count_active_for_event}
use event_platform_backend.Registrations.Seated.{same-WithinCapacity}
use event_platform_backend.Registrations.Seats.{WithinCapacity, Room}
use event_platform_backend.Registrations.Window.{
  get_event_or_raise, get_config_or_raise, ensure_registration_open, ensure_no_duplicate,
  ensure_capacity, update_event, close_event, refuse_late, refuse_full, ensure_seats,
}
use event_platform_backend.Session.{Session, Result, ok, err, acquire_event_capacity_lock}
use event_platform_backend.Session.Invariants.{Both, Holds, Safe, holds_rules}
use event_platform_backend.Session.Triples.{Ends, Triple}
use event_platform_backend.Session.Views.{Rows, rows, facts}
use event_platform_backend.Store.{registration_key, configuration_key}
use event_platform_backend.Table.{get}

pub Safe-update_event : (i : ℕ) (f : Event → Event) → Safe WithinCapacity (update_event i f)
unfolding update_event
Safe-update_event i f = record { keeps = λ d h. same-WithinCapacity d _ refl refl h }

pub Holds-capacity_lock : (i : ℕ) → Holds WithinCapacity (acquire_event_capacity_lock i)
unfolding acquire_event_capacity_lock
Holds-capacity_lock i = search holds_rules

pub Holds-get_event : (i : ℕ) → Holds WithinCapacity (get_event_or_raise i)
unfolding get_event_or_raise
Holds-get_event i = search holds_rules

pub Holds-get_config : (i : ℕ) → Holds WithinCapacity (get_config_or_raise i)
unfolding get_config_or_raise
Holds-get_config i = search holds_rules

pub Holds-ensure_child : (actor : ℕ) (o : Option ℕ) → Holds WithinCapacity (ensure_child actor o)
unfolding ensure_child
Holds-ensure_child actor none = search holds_rules
Holds-ensure_child actor (some i) = search holds_rules depth 12

Holds-check_captain :
    (actor event : ℕ) (o : Option ℕ) → Holds WithinCapacity (check_captain actor event o)
unfolding check_captain
Holds-check_captain actor event none = search holds_rules
Holds-check_captain actor event (some i) = search holds_rules

pub Holds-check_team :
    (actor event : ℕ) (r : RegistrationIn)
    → Holds WithinCapacity (check_team_reference actor event r)
unfolding check_team_reference
Holds-check_team actor event r = search (holds_rules, Holds-check_captain)

pub Holds-registration_open :
    (e : Event) (c : EventConfiguration) → Holds WithinCapacity (ensure_registration_open e c)
unfolding ensure_registration_open refuse_late ensure_seats refuse_full close_event
Holds-registration_open e c = search (holds_rules, Safe-update_event) depth 16

pub Holds-no_duplicate :
    (event user : ℕ) (child : Option ℕ) (type : String)
    → Holds WithinCapacity (ensure_no_duplicate event user child type)
unfolding ensure_no_duplicate
Holds-no_duplicate event user child type = search holds_rules

-- What _ensure_capacity establishes.
module _ (event_id : ℕ) where
  same_rows : (s t : Session) → rows t ≡ rows s → WithinCapacity s.db → WithinCapacity t.db
  same_rows s t e h =
      same-WithinCapacity s.db t.db (ap (λ (x : Rows). x.0.configurations) e)
        (ap (λ (x : Rows). x.0.registrations) e) h

  same_stored :
      (s t : Session) → rows t ≡ rows s → WithinCapacity s.durable → WithinCapacity t.durable
  same_stored s t e h =
      same-WithinCapacity s.durable t.durable (ap (λ (x : Rows). x.1.configurations) e)
        (ap (λ (x : Rows). x.1.registrations) e) h

  room :
      (s t : Session)
      → (c : EventConfiguration) × (get_configuration event_id (facts s.db) ≡ some c)
        × SeatsLeft c.capacity (count_active_for_event event_id (facts s.db))
      → rows t ≡ rows s
      → Room event_id t.db
  unfolding get_configuration count_active_for_event
  room s t (c, found, left) e c' found' =
      let same : c ≡ c' =
        some-injective c c'
          (sym found ∙ (sym (ap (λ (x : Rows). get event_id x.0.configurations) e) ∙ found')) in
      rw (ap (λ (x : Rows). x.0.registrations) e)
        (subst (λ k. SeatsLeft k.capacity (count_active_for_event event_id (facts s.db))) same left)

  pub ensure_capacity-Triple :
      Triple
        (Both WithinCapacity)
        (ensure_capacity event_id)
        (λ _ s. Both WithinCapacity s × Room event_id s.db)
        (Both WithinCapacity)
  ensure_capacity-Triple = record {
    run = λ s p. ended s p (ensure_capacity event_id s) (ensure_capacity_effect event_id s);
  }
    where
      ended :
          (s : Session)
          → Both WithinCapacity s
          → (x : Result (Unit {0}) × Session)
          → Ends
              (λ _ t.
                ((c : EventConfiguration) × (get_configuration event_id (facts s.db) ≡ some c)
                  × SeatsLeft c.capacity (count_active_for_event event_id (facts s.db)))
                × (rows t ≡ rows s))
              (λ t. rows t ≡ rows s)
              x
          → Ends (λ _ t. Both WithinCapacity t × Room event_id t.db) (Both WithinCapacity) x
      ended s p (ok a, t) h = ((same_rows s t h.1 p.0, same_stored s t h.1 p.1), room s t h.0 h.1)
      ended s p (err e, t) h = (same_rows s t h p.0, same_stored s t h p.1)
