-- ===== src/Events/Checks.antt =====
-- _validate_schedule (app/modules/events/service.py) writes to no table.
use event_platform_backend.Prelude.{ℕ, Option, none, some, List, [], ◌∷◌, String, ℤ}
use event_platform_backend.Events.Schedule.{
  ScheduleFields, parse_availability, read_window, check_venue, lock_venue, lock_resource,
  scope_key, lock_conflict_scope, refuse_conflicts, check_overlap, validate_schedule,
}
use event_platform_backend.Events.Venues.{check_capacity}
use event_platform_backend.Models.Events.{Event}
use event_platform_backend.Models.Schedule.{RawWindow, times, malformed_times, ScheduleItem}
use event_platform_backend.Session.Invariants.{Holds, Holds-bind, holds_rules}
use event_platform_backend.Store.{Db}

module _ (I : Db → Type 0) where
  Holds-read_window : (w : RawWindow) → Holds I (read_window w)
  Holds-read_window malformed_times = search holds_rules
  Holds-read_window (times s e) = search holds_rules depth 9

  Holds-parse : (ws : List RawWindow) → Holds I (parse_availability ws)
  unfolding parse_availability
  Holds-parse [] = search holds_rules
  Holds-parse (w ∷ ws) =
      Holds-bind I _ _ (Holds-read_window w)
        λ x. Holds-bind I _ _ (Holds-parse ws) λ rest. search holds_rules

  pub Holds-check_venue :
      (i s e : ℕ) (expected venue : Option ℕ) → Holds I (check_venue i s e expected venue)
  unfolding check_venue
  Holds-check_venue i s e expected none = search holds_rules
  Holds-check_venue i s e expected (some v) = search (holds_rules, Holds-parse) depth 20

  pub Holds-lock : (v : Option ℕ) (k : Option String) → Holds I (lock_conflict_scope v k)
  unfolding lock_conflict_scope
  Holds-lock v k = Holds-bind I _ _ (venue v) λ _. resource (scope_key k)
    where
      venue : (o : Option ℕ) → Holds I (lock_venue o)
      venue none = search holds_rules
      venue (some i) = search holds_rules

      resource : (o : Option String) → Holds I (lock_resource o)
      resource none = search holds_rules
      resource (some i) = search holds_rules

  Holds-refuse : (v : Option ℕ) (l : List ScheduleItem) → Holds I (refuse_conflicts v l)
  unfolding refuse_conflicts
  Holds-refuse v [] = search holds_rules
  Holds-refuse v (i ∷ l) = search holds_rules

  pub Holds-validate :
      (event : Event) (fields : ScheduleFields) (excluded : Option ℕ)
      → Holds I (validate_schedule event fields excluded)
  unfolding validate_schedule check_overlap
  Holds-validate event fields excluded =
      search (holds_rules, Holds-check_venue, Holds-lock, Holds-refuse) depth 30

  pub Holds-check_capacity :
      (event venue : ℕ) (c : Option (Option ℤ)) → Holds I (check_capacity event venue c)
  unfolding check_capacity
  Holds-check_capacity event venue none = search holds_rules
  Holds-check_capacity event venue (some none) = search holds_rules
  Holds-check_capacity event venue (some (some c)) = search holds_rules depth 9
