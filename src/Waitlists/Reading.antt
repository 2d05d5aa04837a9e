-- ===== src/Waitlists/Reading.antt =====
-- What the waitlist's operations read: the event with its configuration, and the availability that
-- they compute from the two and the number of active registrations.
use event_platform_backend.Prelude.{ℕ, ◌≡◌, refl, ap, Option, none, some}
use event_platform_backend.Models.Events.{Event, EventConfiguration}
use event_platform_backend.Store.{Db}
use event_platform_backend.Events.{get_event, get_configuration}
use event_platform_backend.ConfigEngine.{
  RegistrationAvailability, parse_registration_end_at, calculate_registration_availability,
}
use event_platform_backend.Registrations.Repository.{count_active_for_event}
use event_platform_backend.Session.{Session, Action, ◌>>=◌}
use event_platform_backend.Session.Triples.{
  Triple, Triple-bind, Triple-pure, Triple-raise, after_query,
}
use event_platform_backend.Session.Views.{Rows, rows}
use event_platform_backend.Waitlists.Service.{event_config, both_found}
use event_platform_backend.Waitlists.Service.{availability_of}

-- The event is there, not deleted, and configured.
pub record Configured (event_id : ℕ) (d : Db) (event : Event) (config : EventConfiguration)
    : Type 0 where
  pub event_found : get_event event_id d ≡ some event
  pub config_found : get_configuration event_id d ≡ some config

-- The availability of an event at an instant.
abbrev pub availability : ℕ → Db → Event → EventConfiguration → ℕ → RegistrationAvailability
availability event_id d event config t =
    calculate_registration_availability event.status config.capacity
      (count_active_for_event event_id d) (parse_registration_end_at config.details) t

module _ (T : Rows) {E : Session → Type 0} (down : (s : Session) → rows s ≡ T → E s) where
  both_found-Triple :
      (event_id : ℕ) (event : Option Event) (config : Option EventConfiguration)
      → get_event event_id T.0 ≡ event
      → get_configuration event_id T.0 ≡ config
      → Triple
          (λ s. rows s ≡ T)
          (both_found event config)
          (λ b s. Configured event_id T.0 b.0 b.1 × (rows s ≡ T))
          E
  unfolding both_found
  both_found-Triple event_id none config p q = Triple-raise _ down
  both_found-Triple event_id (some e) none p q = Triple-raise _ down
  both_found-Triple event_id (some e) (some c) p q =
      Triple-pure _ (λ s h. (record { event_found = p; config_found = q }, h))

  pub event_config-Triple :
      (event_id : ℕ)
      → Triple
          (λ s. rows s ≡ T)
          (event_config event_id)
          (λ b s. Configured event_id T.0 b.0 b.1 × (rows s ≡ T))
          E
  unfolding event_config get_event get_configuration
  event_config-Triple event_id =
      after_query rows T _ (λ d. get_event event_id d.0) _ (λ s. refl)
        (after_query rows T _ (λ d. get_configuration event_id d.0) _ (λ s. refl)
          (both_found-Triple event_id _ _ refl refl))

module _ (T : Rows) {B : Type 0} {R : B → Session → Type 0} {E : Session → Type 0} where
  -- What follows _event_config.
  pub after_event_config :
      ((s : Session) → rows s ≡ T → E s)
      → (event_id : ℕ) (f : Event × EventConfiguration → Action B)
      → ((b : Event × EventConfiguration)
          → Configured event_id T.0 b.0 b.1
          → Triple (λ s. rows s ≡ T) (f b) R E)
      → Triple (λ s. rows s ≡ T) (event_config event_id >>= f) R E
  after_event_config down event_id f k =
      Triple-bind (event_config event_id) f (event_config-Triple T down event_id)
        λ b. record { run = λ s h. (k b h.0).run s h.1 }

  -- What follows the computation of the availability.
  pub after_availability :
      (event_id : ℕ) (e : Event) (c : EventConfiguration) (t : ℕ)
      (f : RegistrationAvailability → Action B)
      → Triple (λ s. rows s ≡ T) (f (availability event_id T.0 e c t)) R E
      → Triple (λ s. rows s ≡ T) (availability_of event_id e c t >>= f) R E
  unfolding availability_of ◌>>=◌ count_active_for_event
  after_availability event_id e c t f k = record {
    run = λ s h.
        let same : count_active_for_event event_id s.db ≡ count_active_for_event event_id T.0 =
          ap (λ (x : Rows). count_active_for_event event_id x.0) h in
        rw same (k.run s h);
  }
