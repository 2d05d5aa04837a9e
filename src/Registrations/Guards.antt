-- ===== src/Registrations/Guards.antt =====
-- The two checks that create_registration makes under the capacity lock
-- (app/modules/registrations/service.py): seats, and duplicates.
use event_platform_backend.Prelude.{
  ℕ, ◌≡◌, refl, Bool, true, false, Option, none, some, List, [], ◌∷◌, String, arith, ℤ,
}
use event_platform_backend.Models.Events.{EventConfiguration}
use event_platform_backend.Models.Registrations.{Registration}
use event_platform_backend.Events.{get_configuration}
use event_platform_backend.ConfigEngine.{at_capacity}
use event_platform_backend.ConfigEngine.Availability.{SeatsLeft}
use event_platform_backend.Registrations.Repository.{count_active_for_event, find_duplicate}
use event_platform_backend.Registrations.Window.{
  get_config_or_raise, ensure_capacity, is_some, ensure_no_duplicate,
}
use event_platform_backend.Session.{Session, lift, raise_if, or_raise, scalar_one_or_none, ◌>>=◌}
use event_platform_backend.Session.Errors.{Error}
use event_platform_backend.Session.Triples.{
  Triple, Triple-bind, Triple-pure, Triple-raise, Triple-given, after_query, Ends,
}
use event_platform_backend.Session.Views.{Rows, rows, facts}

seats_of : (capacity : Option ℤ) (n : ℕ) → at_capacity capacity n ≡ false → SeatsLeft capacity n
seats_of capacity n h = ground arith

module _ (T : Rows) where
  config-Triple :
      (event_id : ℕ) (o : Option EventConfiguration) (e : Error)
      → get_configuration event_id T.0 ≡ o
      → Triple
          (λ s. rows s ≡ T)
          (or_raise o e)
          (λ c s. (get_configuration event_id T.0 ≡ some c) × (rows s ≡ T))
          (λ s. rows s ≡ T)
  config-Triple event_id none e found = Triple-raise e (λ s h. h)
  config-Triple event_id (some c) e found = Triple-pure c (λ s h. (found, h))

  seats-Triple :
      (b : Bool) (e : Error) {P : Type 0}
      → (b ≡ false → P)
      → Triple (λ s. rows s ≡ T) (raise_if b e) (λ _ s. P × (rows s ≡ T)) (λ s. rows s ≡ T)
  seats-Triple true e k = Triple-raise e (λ s h. h)
  seats-Triple false e k = Triple-pure tt (λ s h. (k refl, h))

  pub ensure_capacity-Triple :
      (event_id : ℕ)
      → Triple
          (λ s. rows s ≡ T)
          (ensure_capacity event_id)
          (λ _ s.
            ((c : EventConfiguration) × (get_configuration event_id T.0 ≡ some c)
              × SeatsLeft c.capacity (count_active_for_event event_id T.0))
            × (rows s ≡ T))
          (λ s. rows s ≡ T)
  unfolding ensure_capacity get_config_or_raise get_configuration count_active_for_event
  ensure_capacity-Triple event_id =
      Triple-bind _ _
        (after_query rows T _ (λ d. get_configuration event_id d.0) _ (λ s. refl)
          (config-Triple event_id _ _ refl))
        λ c. Triple-given _ λ found.
          after_query rows T _ (λ d. count_active_for_event event_id d.0) _ (λ s. refl)
            (seats-Triple _ _ (λ h. (c, found, seats_of c.capacity _ h)))

  no_rows-Triple :
      (found : List Registration) (e : Error)
      → Triple
          (λ s. rows s ≡ T)
          (lift (scalar_one_or_none found) >>= λ duplicate. raise_if (is_some duplicate) e)
          (λ _ s. (found ≡ []) × (rows s ≡ T))
          (λ s. rows s ≡ T)
  unfolding ◌>>=◌
  no_rows-Triple [] e = record { run = λ s h. (refl, h) }
  no_rows-Triple (x ∷ []) e = record { run = λ s h. h }
  no_rows-Triple (x ∷ y ∷ r) e = record { run = λ s h. h }

  pub ensure_no_duplicate-Triple :
      (event_id user_id : ℕ) (child_id : Option ℕ) (participation_type : String)
      → Triple
          (λ s. rows s ≡ T)
          (ensure_no_duplicate event_id user_id child_id participation_type)
          (λ _ s.
            (find_duplicate event_id user_id child_id participation_type T.0 ≡ []) × (rows s ≡ T))
          (λ s. rows s ≡ T)
  unfolding ensure_no_duplicate find_duplicate
  ensure_no_duplicate-Triple event_id user_id child_id participation_type =
      after_query rows T _ (λ d. find_duplicate event_id user_id child_id participation_type d.0) _
        (λ s. refl) (no_rows-Triple _ _)

-- _ensure_capacity returns only if the event has a configuration and a seat free, counting every
-- active registration, and writes nothing.
pub ensure_capacity_effect :
    (event_id : ℕ) (s : Session)
    → Ends
        (λ _ t.
          ((c : EventConfiguration) × (get_configuration event_id (facts s.db) ≡ some c)
            × SeatsLeft c.capacity (count_active_for_event event_id (facts s.db)))
          × (rows t ≡ rows s))
        (λ t. rows t ≡ rows s)
        (ensure_capacity event_id s)
ensure_capacity_effect event_id s = (ensure_capacity-Triple (rows s) event_id).run s refl

-- _ensure_no_duplicate returns only if there is no active registration of this user, child and
-- participation type at the event, and writes nothing; it also refuses when there are several.
pub ensure_no_duplicate_effect :
    (event_id user_id : ℕ) (child_id : Option ℕ) (participation_type : String) (s : Session)
    → Ends
        (λ _ t.
          (find_duplicate event_id user_id child_id participation_type (facts s.db) ≡ [])
          × (rows t ≡ rows s))
        (λ t. rows t ≡ rows s)
        (ensure_no_duplicate event_id user_id child_id participation_type s)
ensure_no_duplicate_effect event_id user_id child_id participation_type s =
    (ensure_no_duplicate-Triple (rows s) event_id user_id child_id participation_type).run s refl
