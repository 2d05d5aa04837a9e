-- ===== src/Registrations/Openings.antt =====
-- RegistrationService._ensure_registration_open (app/modules/registrations/service.py).
use event_platform_backend.Prelude.{
  ℕ, ◌+◌, ◌≡◌, ◌≢◌, ◌⊎◌, inl, inr, refl, Bool, true, false, Option, arith, if◌then◌else◌, ℤ,
}
use event_platform_backend.Models.Events.{
  Event, EventConfiguration, EventStatus, registration_open, registration_closed,
}
use event_platform_backend.Store.{Db}
use event_platform_backend.ConfigEngine.{
  is_registration_open, past_deadline, parse_registration_end_at,
  calculate_registration_availability,
}
use event_platform_backend.ConfigEngine.Availability.{SeatsLeft, BeforeDeadline}
use event_platform_backend.Registrations.Repository.{count_active_for_event}
use event_platform_backend.Registrations.Window.{
  update_event, with_status, is_over, is_full_state, close_event, refuse_late, refuse_full,
  ensure_seats, ensure_registration_open,
}
use event_platform_backend.Session.{Session, pure, raise, ◌>>◌}
use event_platform_backend.Session.Errors.{Error, invalid_registration_state}
use event_platform_backend.Session.Triples.{
  Triple, Triple-pure, Triple-raise, Triple-bind, Triple-if, Triple-pre, Triple-Steps, after_step,
  after_query, after_guard, Ends,
}
use event_platform_backend.Session.Views.{
  Rows, rows, moment, after_next_now, Steps-modify, Steps-commit,
}
use event_platform_backend.Registrations.Reopening.{facts-update_event, at_rows}

module _ (event : Event) (config : EventConfiguration) where
  -- Why a registration may go on: the deadline is ahead at reading `n` of the clock, the status is
  -- none of those after the registration, and an open event has a seat free, unless the deadline has
  -- come by the very next reading.
  pub record IsLetIn (T : Rows) (n : ℕ) : Type 0 where
    pub in_time : BeforeDeadline (parse_registration_end_at config.details) (T.2.clock n)
    pub not_over : is_over event.status ≡ false
    pub seat :
        (event.status ≢ registration_open)
        ⊎ (past_deadline (parse_registration_end_at config.details) (T.2.clock (n + 1)) ≡ true)
        ⊎ SeatsLeft config.capacity (count_active_for_event event.id T.0)

  -- A refusal: nothing is written, or the event, which was open, is closed and that is committed.
  abbrev pub TurnedAway : Rows → Session → Type 0
  TurnedAway T s =
      (rows s ≡ T)
      ⊎ ((event.status ≡ registration_open)
          × (rows s ≡ (
            update_event event.id (with_status registration_closed) T.0,
            update_event event.id (with_status registration_closed) T.0,
            T.2,
          )))

  module _ (T : Rows) (n : ℕ) where
    abbrev closing : Db
    closing = update_event event.id (with_status registration_closed) T.0

    close_event-Triple :
        (e : Error)
        → event.status ≡ registration_open
        → Triple
            (λ s. rows s ≡ T)
            (close_event event.id >> raise e)
            (λ (_ : Unit {0}) s. IsLetIn T n × (rows s ≡ T))
            (TurnedAway T)
    unfolding close_event
    close_event-Triple e was_open =
        Triple-bind {Q = λ _ s. rows s ≡ (closing, closing, T.2)} _ _
          (after_step rows T _ _ _
            (Steps-modify _ (facts-update_event event.id (with_status registration_closed)))
            λ _. Triple-Steps _ Steps-commit)
          λ _. Triple-raise e (λ s h. inr (was_open, h))

    is_open :
        (status : EventStatus) → is_registration_open status ≡ true → status ≡ registration_open
    is_open status h = ground arith

    refuse_late-Triple :
        Triple
          (λ s. rows s ≡ T)
          (refuse_late event)
          (λ (_ : Unit {0}) s. IsLetIn T n × (rows s ≡ T))
          (TurnedAway T)
    unfolding refuse_late
    refuse_late-Triple = late (is_registration_open event.status) refl
      where
        late :
            (b : Bool)
            → is_registration_open event.status ≡ b
            → Triple
                (λ s. rows s ≡ T)
                ((if b then close_event event.id else pure tt)
                  >> raise (invalid_registration_state "Registration is closed for this event."))
                (λ (_ : Unit {0}) s. IsLetIn T n × (rows s ≡ T))
                (TurnedAway T)
        late true h = close_event-Triple _ (is_open event.status h)
        late false h =
            Triple-bind {Q = λ _ s. rows s ≡ T} _ _ (Triple-pure tt (λ s p. p))
              λ _. Triple-raise _ (λ s p. inl p)

    full_open :
        (status : EventStatus) (capacity : Option ℤ) (n : ℕ) (deadline : Option ℕ) (t : ℕ)
        → is_full_state (calculate_registration_availability status capacity n deadline t) ≡ true
        → status ≡ registration_open
    unfolding calculate_registration_availability
    full_open status capacity n deadline t h = ground arith

    not_full :
        (status : EventStatus) (capacity : Option ℤ) (n : ℕ) (deadline : Option ℕ) (t : ℕ)
        → is_full_state (calculate_registration_availability status capacity n deadline t) ≡ false
        → (status ≢ registration_open) ⊎ (past_deadline deadline t ≡ true) ⊎ SeatsLeft capacity n
    unfolding calculate_registration_availability
    not_full status capacity n deadline t h = ground arith

    in_time_of :
        (deadline : Option ℕ) (t : ℕ) → past_deadline deadline t ≡ false → BeforeDeadline deadline t
    in_time_of deadline t h = ground arith

    ensure_seats-Triple :
        BeforeDeadline (parse_registration_end_at config.details) (T.2.clock n)
        → Triple
            (λ s. moment s ≡ (T, n + 1))
            (ensure_seats event config (count_active_for_event event.id T.0))
            (λ (_ : Unit {0}) s. IsLetIn T n × (rows s ≡ T))
            (TurnedAway T)
    unfolding ensure_seats refuse_full
    ensure_seats-Triple in_time =
        let seats : ℕ = count_active_for_event event.id T.0 in
        let deadline : Option ℕ = parse_registration_end_at config.details in
        let t : ℕ = T.2.clock (n + 1) in
        after_guard (λ s h. inl (at_rows T (n + 1) s h)) _ _ _
          λ not_over. after_next_now T (n + 1) _ (
            Triple-if _ _ _
              (λ h.
                Triple-pre _ (at_rows T (n + 1 + 1)) (
                  close_event-Triple _ (full_open event.status config.capacity seats deadline t h)))
              λ h. Triple-pure tt λ s same. (
                record {
                  in_time = in_time;
                  not_over = not_over;
                  seat = not_full event.status config.capacity seats deadline t h;
                },
                at_rows T (n + 1 + 1) s same,
              ))

    pub ensure_registration_open-Triple :
        Triple
          (λ s. moment s ≡ (T, n))
          (ensure_registration_open event config)
          (λ (_ : Unit {0}) s. IsLetIn T n × (rows s ≡ T))
          (TurnedAway T)
    unfolding ensure_registration_open count_active_for_event
    ensure_registration_open-Triple =
        after_query moment (T, n) _ (λ d. count_active_for_event event.id d.0.0) _ (λ s. refl)
          (after_next_now T n _ (
            Triple-if _ _ _ (λ late. Triple-pre _ (at_rows T (n + 1)) refuse_late-Triple)
              λ early. ensure_seats-Triple (in_time_of _ _ early)))

-- A registration is let in only before the deadline as of the next reading of the clock, at an event
-- whose status is none of registration_closed, live, completed and archived, and, if that is
-- registration_open, with a seat free unless the deadline has come by the reading after it; nothing is
-- written. A refusal writes nothing either, or closes an open event, and that is committed.
pub ensure_registration_open_effect :
    (event : Event) (config : EventConfiguration) (s : Session)
    → Ends
        (λ _ t. IsLetIn event config (rows s) s.readings × (rows t ≡ rows s))
        (TurnedAway event config (rows s))
        (ensure_registration_open event config s)
ensure_registration_open_effect event config s =
    (ensure_registration_open-Triple event config (rows s) s.readings).run s refl
