-- ===== src/Registrations/Acceptance.antt =====
-- RegistrationService.create_registration (app/modules/registrations/service.py): when it accepts a
-- registration.
use mathlib.Core.Option.{some-injective}
use event_platform_backend.Prelude.{
  ℕ, ◌≡◌, refl, ap, sym, subst, ◌∙◌, ◌⊎◌, inl, inr, true, Option, none, some, [], String,
  not-eq_false,
}
use event_platform_backend.ConfigEngine.Availability.{SeatsLeft}
use event_platform_backend.ConfigEngine.Rules.{provided}
use event_platform_backend.Events.{get_event, get_configuration}
use event_platform_backend.Models.Events.{Event, EventConfiguration}
use event_platform_backend.Models.Registrations.{Registration}
use event_platform_backend.Models.Tickets.{BarcodePayload}
use event_platform_backend.Registrations.Accepting.{event-Triple, config-Triple, submit-Committed}
use event_platform_backend.Registrations.Creation.{submit, create_registration}
use event_platform_backend.Registrations.Intake.{
  RegistrationIn, check_captain, check_team_reference,
}
use event_platform_backend.Registrations.Guards.{ensure_capacity-Triple, ensure_no_duplicate-Triple}
use event_platform_backend.Registrations.Openings.{
  IsLetIn, TurnedAway, ensure_registration_open-Triple,
}
use event_platform_backend.Registrations.Repository.{count_active_for_event, find_duplicate}
use event_platform_backend.Registrations.Window.{update_event, ensure_registration_open}
use event_platform_backend.Session.{Session, Result, ok, err}
use event_platform_backend.Session.Frames.{Frame, Quiet-Frame, frame_rules}
use event_platform_backend.Session.Triples.{
  Ends, Triple, Triple-bind, Triple-err, Triple-given, Triple-some, Triple-pre, Triple-post,
  after-Frame, after_guard,
}
use event_platform_backend.Session.Views.{Rows, rows, Ignores-rows, Quiet-capacity_lock, Committed}
use event_platform_backend.Store.{Db}
use event_platform_backend.Waitlists.Quiet.{Frame-ensure_child}

-- Why a registration is accepted, by the tables and the clock of `T`.
pub record Accepted (event_id actor_id : ℕ) (r : RegistrationIn) (T : Rows) : Type 0 where
  pub event : Event
  pub config : EventConfiguration
  pub event_found : get_event event_id T.0 ≡ some event
  pub config_found : get_configuration event_id T.0 ≡ some config
  pub type_enabled : provided r.sent.participation_type config.participation_types ≡ true
  pub reading : ℕ
  pub let_in : IsLetIn event config T reading
  pub first : find_duplicate event_id actor_id r.child_id r.sent.participation_type T.0 ≡ []
  pub seat : SeatsLeft config.capacity (count_active_for_event event_id T.0)

-- The registrations that are stored are those of `l` or of `d`.
abbrev pub StoresNone : Db → Db → Session → Type 0
StoresNone d l s =
    (s.durable.registrations ≡ l.registrations) ⊎ (s.durable.registrations ≡ d.registrations)

Frame-check_captain : (actor event : ℕ) (o : Option ℕ) → Frame rows (check_captain actor event o)
unfolding check_captain
Frame-check_captain actor event none = search frame_rules
Frame-check_captain actor event (some i) = search frame_rules

Frame-check_team :
    (actor event : ℕ) (r : RegistrationIn) → Frame rows (check_team_reference actor event r)
unfolding check_team_reference
Frame-check_team actor event r = search (frame_rules, Frame-check_captain)

module _ (sign : BarcodePayload → String) (event_id actor : ℕ) (r : RegistrationIn) (T : Rows) where
  abbrev Refused : Session → Type 0
  Refused s = StoresNone T.0 T.1 s

  unchanged : (s : Session) → rows s ≡ T → Refused s
  unchanged s p = inl (ap (λ (x : Rows). x.1.registrations) p)

  turned_away : (e : Event) (c : EventConfiguration) (s : Session) → TurnedAway e c T s → Refused s
  unfolding update_event
  turned_away e c s (inl p) = unchanged s p
  turned_away e c s (inr (was_open, p)) = inr (ap (λ (x : Rows). x.1.registrations) p)

  abbrev Accepts : Option Registration → Session → Type 0
  Accepts o s = Accepted event_id actor r T × Committed s

  submit-Triple :
      (e : Event) (c : EventConfiguration)
      → Accepted event_id actor r T
      → Triple (λ s. rows s ≡ T) (submit sign event_id e c actor r) Accepts Refused
  submit-Triple e c accepted = record {
    run = λ s p. ended s p _ ((submit-Committed sign e c actor r s.durable event_id).run s refl);
  }
    where
      ended :
          (s : Session)
          → rows s ≡ T
          → (x : Result (Option Registration) × Session)
          → Ends (λ _. Committed) (λ t. t.durable ≡ s.durable) x
          → Ends (λ _ t. Accepted event_id actor r T × Committed t) Refused x
      ended s p (ok o, t) h = (accepted, h)
      ended s p (err e, t) h =
          inl (ap (λ (x : Db). x.registrations) h ∙ ap (λ (x : Rows). x.1.registrations) p)

  -- Some reading of the clock comes next.
  let_in-Triple :
      (e : Event) (c : EventConfiguration)
      → Triple
          (λ s. rows s ≡ T)
          (ensure_registration_open e c)
          (λ (_ : Unit {0}) s. (n : ℕ) × (IsLetIn e c T n × (rows s ≡ T)))
          (TurnedAway e c T)
  let_in-Triple e c =
      Triple-pre _ (λ s h. (s.readings, ap (λ (x : Rows). (x, s.readings)) h))
        (Triple-some _
          λ n. Triple-post _ (λ u s h. (n, h)) (ensure_registration_open-Triple e c T n))

  same_seat :
      (c : EventConfiguration)
      → get_configuration event_id T.0 ≡ some c
      → (k : EventConfiguration) × (get_configuration event_id T.0 ≡ some k)
        × SeatsLeft k.capacity (count_active_for_event event_id T.0)
      → SeatsLeft c.capacity (count_active_for_event event_id T.0)
  same_seat c found (k, read, left) =
      subst (λ x. SeatsLeft x.capacity (count_active_for_event event_id T.0))
        (some-injective k c (sym read ∙ found)) left

  create-Triple :
      Triple (λ s. rows s ≡ T) (create_registration sign event_id actor r) Accepts Refused
  unfolding create_registration
  create-Triple = Triple-bind _ _ (Triple-err _ unchanged (event-Triple T event_id)) λ e.
      Triple-given _ λ event.
        Triple-bind _ _ (Triple-err _ unchanged (config-Triple T event_id)) λ c.
          Triple-given _ λ config. after_guard unchanged _ _ _ λ enabled.
            after-Frame rows T unchanged _ _ (Frame-ensure_child rows Ignores-rows actor r.child_id)
              λ _. after-Frame rows T unchanged _ _ (Frame-check_team actor event_id r) λ _.
                after-Frame rows T unchanged _ _
                  (Quiet-Frame (Quiet-capacity_lock rows Ignores-rows event_id))
                  λ _. Triple-bind _ _ (Triple-err _ (turned_away e c) (let_in-Triple e c)) λ _.
                    Triple-some _ λ n. Triple-given _ λ let_in.
                      Triple-bind _ _
                        (Triple-err _ unchanged
                          (ensure_no_duplicate-Triple T event_id actor r.child_id _))
                        λ _. Triple-given _ λ first.
                          Triple-bind _ _
                            (Triple-err _ unchanged (ensure_capacity-Triple T event_id))
                            λ _. Triple-given _ λ seat. submit-Triple e c (record {
                              event = e;
                              config = c;
                              event_found = event;
                              config_found = config;
                              type_enabled = not-eq_false _ enabled;
                              reading = n;
                              let_in = let_in;
                              first = first;
                              seat = same_seat c config seat;
                            })

-- A registration is made only at an event that is not deleted and has a configuration, for a type of
-- participation that is enabled there, when its deadline is ahead at a reading of the clock and its
-- status is none of registration_closed, live, completed and archived, no active registration of the
-- same user, child and type is there, and a seat is free; all that the session wrote is then stored.
-- A refused one stores no registration, in a session that begins with what is stored.
pub create_atomic :
    (sign : BarcodePayload → String) (event_id actor_id : ℕ) (r : RegistrationIn) (s : Session)
    → s.db ≡ s.durable
    → Ends
        (λ _ t. Accepted event_id actor_id r (rows s) × Committed t)
        (λ t. t.durable.registrations ≡ s.durable.registrations)
        (create_registration sign event_id actor_id r s)
create_atomic sign event_id actor_id r s fresh =
    ended _ ((create-Triple sign event_id actor_id r (rows s)).run s refl)
  where
    ended :
        (x : Result (Option Registration) × Session)
        → Ends
            (Accepts sign event_id actor_id r (rows s))
            (Refused sign event_id actor_id r (rows s))
            x
        → Ends
            (λ _ t. Accepted event_id actor_id r (rows s) × Committed t)
            (λ t. t.durable.registrations ≡ s.durable.registrations)
            x
    ended (ok o, t) h = h
    ended (err e, t) (inl p) = p
    ended (err e, t) (inr p) = p ∙ ap (λ (x : Db). x.registrations) fresh
