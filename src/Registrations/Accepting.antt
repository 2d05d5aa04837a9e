-- ===== src/Registrations/Accepting.antt =====
-- RegistrationService.create_registration (app/modules/registrations/service.py): what it asks for, and
-- what of it is stored.
use event_platform_backend.Prelude.{ℕ, ◌≡◌, refl, ap, Option, none, some, String}
use event_platform_backend.Events.{get_event, get_configuration}
use event_platform_backend.Models.Events.{Event, EventConfiguration}
use event_platform_backend.Models.Registrations.{Registration}
use event_platform_backend.Models.Tickets.{BarcodePayload}
use event_platform_backend.Registrations.Creation.{new_registration, complete, submit}
use event_platform_backend.Registrations.Intake.{RegistrationIn, team_size_of}
use event_platform_backend.Registrations.Issuing.{Frame-issue_if_due}
use event_platform_backend.Registrations.Submitting.{
  Frame-add_participants, Frame-fill, Frame-validate,
}
use event_platform_backend.Registrations.Window.{get_event_or_raise, get_config_or_raise}
use event_platform_backend.Session.{Session, Action, query, or_raise, ◌>>=◌}
use event_platform_backend.Session.Errors.{Error}
use event_platform_backend.Session.Frames.{Frame, frame_rules}
use event_platform_backend.Session.Triples.{
  Triple, Triple-pure, Triple-raise, after-Frame, after_query, after_guard,
}
use event_platform_backend.Session.Views.{
  Rows, rows, facts, lasting, tables, Frame-modify, Frame-audit, Frame-now, Frame-uuid4, Committed,
  commit-Triple,
}
use event_platform_backend.Store.{Db}

of_tables : {A : Type 0} (m : Action A) → Frame tables m → Frame lasting m
of_tables m h = record { at = λ s. ap (λ (x : Db × Db). x.1) (h.at s) }

module _ (sign : BarcodePayload → String) (event : Event) (c : EventConfiguration) (actor : ℕ)
    (r : RegistrationIn) (l : Db) where
  abbrev Stays : Session → Type 0
  Stays s = lasting s ≡ l

  complete-Committed :
      (g : Registration) → Triple Stays (complete sign event c actor r g) (λ _. Committed) Stays
  unfolding complete
  complete-Committed g =
      after-Frame lasting l (λ s h. h) _ _ (Frame-add_participants g.id actor r.participants)
        λ _.
          after-Frame lasting l (λ s h. h) _ _ (Frame-modify _)
            λ _.
              after-Frame lasting l (λ s h. h) _ _ (Frame-fill g.event_id event c)
                λ _.
                  after-Frame lasting l (λ s h. h) _ _ (Frame-audit _ _ _ _)
                    λ _.
                      after-Frame lasting l (λ s h. h) _ _ (Frame-issue_if_due sign _ c)
                        λ _. commit-Triple Stays _

  pub submit-Committed :
      (event_id : ℕ) → Triple Stays (submit sign event_id event c actor r) (λ _. Committed) Stays
  unfolding submit
  submit-Committed event_id =
      after-Frame lasting l (λ s h. h) _ _
        (of_tables _ (Frame-validate event_id r.sent (team_size_of r)))
        λ errors.
          after_guard (λ s h. h) _ _ _
            λ valid.
              after-Frame lasting l (λ s h. h) _ _ Frame-now
                λ t.
                  after-Frame lasting l (λ s h. h) _ _ Frame-uuid4
                    λ id.
                      after-Frame lasting l (λ s h. h) _ _ (search frame_rules)
                        λ refused.
                          after_guard (λ s h. h) _ _ _
                            λ accepted.
                              after-Frame lasting l (λ s h. h) _ _ (Frame-modify _)
                                λ _. complete-Committed (new_registration id event_id actor r c t)

module _ (T : Rows) where
  lookup-Triple :
      {A : Type 0} (q : Db → Option A) (e : Error)
      → ((s : Session) → q s.db ≡ q (facts s.db))
      → Triple
          (λ s. rows s ≡ T)
          (query q >>= λ o. or_raise o e)
          (λ a s. (q T.0 ≡ some a) × (rows s ≡ T))
          (λ s. rows s ≡ T)
  lookup-Triple q e h = after_query rows T q (λ x. q x.0) _ h (found (q T.0) refl)
    where
      found :
          (o : Option _)
          → q T.0 ≡ o
          → Triple
              (λ s. rows s ≡ T)
              (or_raise o e)
              (λ a s. (q T.0 ≡ some a) × (rows s ≡ T))
              (λ s. rows s ≡ T)
      found none is = Triple-raise e (λ s p. p)
      found (some a) is = Triple-pure a (λ s p. (is, p))

  pub event-Triple :
      (event_id : ℕ)
      → Triple
          (λ s. rows s ≡ T)
          (get_event_or_raise event_id)
          (λ e s. (get_event event_id T.0 ≡ some e) × (rows s ≡ T))
          (λ s. rows s ≡ T)
  unfolding get_event_or_raise get_event
  event-Triple event_id = lookup-Triple (get_event event_id) _ (λ s. refl)

  pub config-Triple :
      (event_id : ℕ)
      → Triple
          (λ s. rows s ≡ T)
          (get_config_or_raise event_id)
          (λ c s. (get_configuration event_id T.0 ≡ some c) × (rows s ≡ T))
          (λ s. rows s ≡ T)
  unfolding get_config_or_raise get_configuration
  config-Triple event_id = lookup-Triple (get_configuration event_id) _ (λ s. refl)
