-- ===== src/Registrations/Reopening.antt =====
-- The reopening of an event (app/modules/registrations/service.py).
use event_platform_backend.Prelude.{
  ℕ, ◌≡◌, ◌≢◌, ◌⊎◌, ◌↔◌, inl, inr, refl, ap, ◌+◌, Bool, true, false, not, ◌||◌, Option, none, arith,
  ℤ,
}
use event_platform_backend.Models.Events.{
  Event, EventConfiguration, EventStatus, registration_open, registration_closed,
}
use event_platform_backend.Store.{Db}
use event_platform_backend.ConfigEngine.{
  parse_registration_end_at, calculate_registration_availability,
}
use event_platform_backend.ConfigEngine.Availability.{SeatsLeft, BeforeDeadline}
use event_platform_backend.Registrations.Repository.{count_active_for_event}
use event_platform_backend.Registrations.Window.{
  update_event, with_status, is_some, is_registration_closed, takes_registrations,
  reopen_event_if_capacity_available,
}
use event_platform_backend.Session.{Session}
use event_platform_backend.Session.Triples.{
  Triple, Triple-pure, Triple-if, Triple-post, Triple-pre, Triple-Steps, after_query, Ends,
}
use event_platform_backend.Session.Views.{
  Rows, rows, facts, Moment, moment, after_next_now, Steps-modify,
}

pub facts-update_event :
    (i : ℕ) (f : Event → Event) (d : Db) → facts (update_event i f d) ≡ update_event i f (facts d)
unfolding update_event
facts-update_event i f d = refl

pub at_rows : (T : Rows) (n : ℕ) (s : Session) → moment s ≡ (T, n) → rows s ≡ T
at_rows T n s h = ap (λ (x : Moment). x.0) h

clash : (b : Bool) → b ≡ true → b ≡ false → ⊥
clash true h k = cc k
clash false h k = cc h

module _ (event : Event) (config : EventConfiguration) where
  -- The event is closed, its deadline is ahead at the instant `t`, and of its finite capacity a seat is free.
  abbrev pub Reopens : Db → ℕ → Type 0
  Reopens d t =
      (event.status ≡ registration_closed)
      × (config.capacity ≢ none)
      × BeforeDeadline (parse_registration_end_at config.details) t
      × SeatsLeft config.capacity (count_active_for_event event.id d)

  -- At the instant `t` the event reopens just when it is to, and no other row is touched.
  abbrev pub Reopened : Rows → ℕ → Session → Type 0
  Reopened T t s =
      (Reopens T.0 t
        × (rows s ≡ (update_event event.id (with_status registration_open) T.0, T.1, T.2)))
      ⊎ ((¬ (Reopens T.0 t)) × (rows s ≡ T))

  takes_registrations_iff :
      (n : ℕ) (deadline : Option ℕ) (t : ℕ)
      → (takes_registrations
            (calculate_registration_availability registration_open config.capacity n deadline t)
          ≡ true)
        ↔ (BeforeDeadline deadline t × SeatsLeft config.capacity n)
  unfolding calculate_registration_availability
  takes_registrations_iff n deadline t = ground arith

  skipped :
      (status : EventStatus) (capacity : Option ℤ)
      → not (is_registration_closed status) || not (is_some capacity) ≡ true
      → (status ≢ registration_closed) ⊎ (capacity ≡ none)
  skipped status capacity h = ground arith

  considered :
      (status : EventStatus) (capacity : Option ℤ)
      → not (is_registration_closed status) || not (is_some capacity) ≡ false
      → (status ≡ registration_closed) × (capacity ≢ none)
  considered status capacity h = ground arith

  skip :
      (T : Rows) (t : ℕ) (s : Session)
      → not (is_registration_closed event.status) || not (is_some config.capacity) ≡ true
      → rows s ≡ T
      → Reopened T t s
  skip T t s h same = elim (skipped event.status config.capacity h) [
    | inl other ↦ inr (λ r. other r.0, same)
    | inr unlimited ↦ inr (λ r. r.1 unlimited, same)
  ]

  reopen-Triple :
      (T : Rows) (n : ℕ) (E : Session → Type 0)
      → Triple
          (λ s. moment s ≡ (T, n))
          (reopen_event_if_capacity_available event config)
          (λ _. Reopened T (T.2.clock n))
          E
  unfolding reopen_event_if_capacity_available count_active_for_event
  reopen-Triple T n E =
      let t : ℕ = T.2.clock n in
      Triple-if _ _ _ (λ h. Triple-pure _ (λ s same. skip T t s h (at_rows T n s same)))
        λ h.
          after_query moment (T, n) _ (λ d. count_active_for_event event.id d.0.0) _ (λ s. refl)
            (after_next_now T n _ (
              let both : (event.status ≡ registration_closed) × (config.capacity ≢ none) =
                considered event.status config.capacity h in
              let takes =
                takes_registrations_iff (count_active_for_event event.id T.0)
                  (parse_registration_end_at config.details) t in
              Triple-if _ _ _
                (λ yes.
                  Triple-post _
                    (λ o s same. inl ((both.0, both.1, (takes.0 yes).0, (takes.0 yes).1), same))
                    (Triple-pre _ (at_rows T (n + 1)) (
                      Triple-Steps _ (
                        Steps-modify _
                          (facts-update_event event.id (with_status registration_open))))))
                λ no.
                  Triple-pure _
                    λ s same. inr (λ r. clash _ (takes.1 (r.2, r.3)) no, at_rows T (n + 1) s same)))

-- Reopening cannot fail. An event that is registration_closed, of finite capacity, whose deadline is
-- ahead at the next reading of the clock and that has a seat free is set to registration_open, and no
-- other row is written; where one of these does not hold, none is. Nothing is committed.
pub reopen_effect :
    (event : Event) (config : EventConfiguration) (s : Session)
    → Ends
        (λ _. Reopened event config (rows s) (s.clock s.readings))
        (λ _. ⊥)
        (reopen_event_if_capacity_available event config s)
reopen_effect event config s = (reopen-Triple event config (rows s) s.readings (λ _. ⊥)).run s refl
