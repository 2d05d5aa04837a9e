-- ===== src/Registrations/Capacity.antt =====
-- Requests that create, decide and cancel registrations (app/modules/registrations/service.py), and
-- the capacity of the events.
use event_platform_backend.Prelude.{ℕ, ◌≡◌, refl, Bool, Option, [], String}
use event_platform_backend.Models.Tickets.{BarcodePayload}
use event_platform_backend.Registrations.Cancellation.{cancel_registration}
use event_platform_backend.Registrations.Cancelled.{cancellation-Triple}
use event_platform_backend.Registrations.Creation.{create_registration}
use event_platform_backend.Registrations.Intake.{RegistrationIn}
use event_platform_backend.Registrations.Deciding.{decision-Triple}
use event_platform_backend.Registrations.Decision.{decide_registration}
use event_platform_backend.Registrations.Filling.{
  Holds-capacity_lock, Holds-get_event, Holds-get_config, Holds-ensure_child, Holds-check_team,
  Holds-registration_open, Holds-no_duplicate, ensure_capacity-Triple,
}
use event_platform_backend.Registrations.Seats.{WithinCapacity, empty-WithinCapacity}
use event_platform_backend.Registrations.Seated.{same-WithinCapacity}
use event_platform_backend.Registrations.Submitting.{submit-Triple}
use event_platform_backend.Session.{Session, Action, Result, ok, err, pure, continue, ◌>>=◌, ◌>>◌}
use event_platform_backend.Session.Checked.{Holds-Triple, Triple-Holds}
use event_platform_backend.Session.Invariants.{Both, Holds, Holds-bind, Holds-raise_if}
use event_platform_backend.Session.Triples.{Ends, Triple-bind}
use event_platform_backend.Store.{Db, payment_key}
use event_platform_backend.Table.{IsKeyed}

module _ {A : Type 0} where
  ended :
      (r : Result A) (s : Session)
      → Ends (λ _. Both WithinCapacity) (Both WithinCapacity) (r, s)
      → Both WithinCapacity (continue r (λ _. pure tt) s).1
  unfolding ◌>>=◌
  ended (ok a) s h = h
  ended (err e) s h = h

  without_result :
      (m : Action A) (s : Session)
      → Ends (λ _. Both WithinCapacity) (Both WithinCapacity) (m s)
      → Both WithinCapacity ((m >> pure tt) s).1
  unfolding ◌>>=◌
  without_result m s h = ended (m s).0 (m s).1 h

module _ (sign : BarcodePayload → String) where
  Holds-create :
      (event actor : ℕ) (r : RegistrationIn)
      → Holds WithinCapacity (create_registration sign event actor r)
  unfolding create_registration
  Holds-create event_id actor r = Holds-bind _ _ _ (Holds-get_event event_id) λ event.
      Holds-bind _ _ _ (Holds-get_config event_id) λ config.
        Holds-bind _ _ _ (Holds-raise_if _ _ _) λ _.
          Holds-bind _ _ _ (Holds-ensure_child actor r.child_id) λ _.
            Holds-bind _ _ _ (Holds-check_team actor event_id r) λ _.
              Holds-bind _ _ _ (Holds-capacity_lock event_id) λ _.
                Holds-bind _ _ _ (Holds-registration_open event config) λ _.
                  Holds-bind _ _ _ (Holds-no_duplicate event_id actor _ _) λ _. Holds-Triple _ (
                    Triple-bind _ _ (ensure_capacity-Triple event_id)
                      λ _. submit-Triple sign event config actor r event_id)

  -- A request on registrations.
  pub data RegistrationRequest : Type 0 where
    create : ℕ → ℕ → RegistrationIn → RegistrationRequest
    decide : ℕ → ℕ → Bool → Option String → RegistrationRequest
    cancel : ℕ → ℕ → Option String → RegistrationRequest

  abbrev pub handle : RegistrationRequest → Action (Unit {0})
  handle (create event actor r) = create_registration sign event actor r >> pure tt
  handle (decide id actor approve reason) =
      decide_registration sign id actor approve reason >> pure tt
  handle (cancel id actor reason) = cancel_registration id actor reason >> pure tt

  handle-Within :
      (r : RegistrationRequest) (s : Session)
      → IsKeyed s.db.payments
      → Both WithinCapacity s
      → Both WithinCapacity (handle r s).1
  handle-Within (create event actor r) s keyed h =
      without_result _ s ((Triple-Holds _ (Holds-create event actor r)).run s h)
  handle-Within (decide id actor approve reason) s keyed h =
      without_result _ s
        ((decision-Triple sign id actor reason s.db s.durable h approve).run s refl)
  handle-Within (cancel id actor reason) s keyed h =
      without_result _ s ((cancellation-Triple s.db s.durable h keyed id actor reason).run s refl)

  -- Requests, each in a session of its own that begins with what is stored, lead from tables without
  -- registrations to `l`. The configurations, the clock and the new keys are arbitrary; other
  -- requests may change any table but those of registrations and configurations in between.
  pub data Registered : Db → Type 0 where
    start : (d : Db) → d.registrations ≡ [] → Registered d
    elsewhere :
        (d e : Db)
        → Registered d
        → e.configurations ≡ d.configurations
        → e.registrations ≡ d.registrations
        → Registered e
    request :
        (s : Session) (r : RegistrationRequest)
        → Registered s.durable
        → s.db ≡ s.durable
        → IsKeyed s.db.payments
        → Registered (handle r s).1.durable

-- However requests that create, decide and cancel registrations follow each other, in the tables that
-- are stored no two registrations have one id, and an event whose configuration sets a capacity has at
-- most that many active registrations; with a negative capacity it has none. The capacities do not
-- change meanwhile, no other request changes registrations, and payments have different ids.
pub never_overbooked :
    (sign : BarcodePayload → String) (l : Db) → Registered sign l → WithinCapacity l
never_overbooked sign l (start d none_yet) = empty-WithinCapacity l none_yet
never_overbooked sign l (elsewhere d e before c r) =
    same-WithinCapacity d l c r (never_overbooked sign d before)
never_overbooked sign l (request s r before fresh keyed) =
    let stored : WithinCapacity s.durable = never_overbooked sign s.durable before in
    (handle-Within sign r s keyed (rw fresh stored, stored)).1
