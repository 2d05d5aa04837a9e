-- ===== src/ConfigEngine/Availability.antt =====
-- The four states of a registration window (calculate_registration_availability): when each is
-- reported, and how they follow one another.
use event_platform_backend.Prelude.{
  ℕ, ◌≡◌, ◌≢◌, ◌⊎◌, ◌↔◌, ◌≤◌, ◌<◌, ◌*◌, true, Option, none, some, ℤ, pos, negsuc, arith,
}
use event_platform_backend.Models.Events.{EventStatus, registration_open}
use event_platform_backend.ConfigEngine.{
  RegistrationAvailability, opened, limited, full, closed, past_deadline,
  calculate_registration_availability,
}

-- A seat is free: there is no capacity, or the count is below it.
abbrev pub SeatsLeft : Option ℤ → ℕ → Type 0
SeatsLeft none n = Unit
SeatsLeft (some (pos c)) n = n < c
SeatsLeft (some (negsuc c)) n = ⊥

-- The deadline, if any, is still ahead.
abbrev pub BeforeDeadline : Option ℕ → ℕ → Type 0
BeforeDeadline none now = Unit
BeforeDeadline (some t) now = now < t

abbrev pub TakesRegistrations : RegistrationAvailability → Type 0
TakesRegistrations a = (a ≡ opened) ⊎ (a ≡ limited)

abbrev pub rank : RegistrationAvailability → ℕ
rank opened = 0
rank limited = 1
rank full = 2
rank closed = 3

module _ (s : EventStatus) (capacity : Option ℤ) (n : ℕ) (deadline : Option ℕ) (now : ℕ) where
  -- The state is open or limited exactly when the event's status is registration_open, the deadline
  -- is ahead and a seat is free.
  pub takes_iff :
      TakesRegistrations (calculate_registration_availability s capacity n deadline now)
      ↔ ((s ≡ registration_open) × BeforeDeadline deadline now × SeatsLeft capacity n)
  unfolding calculate_registration_availability
  takes_iff = ground arith

  -- The state is closed exactly when the event's status is another or the deadline has come,
  -- whatever the capacity.
  pub closed_iff :
      (calculate_registration_availability s capacity n deadline now ≡ closed)
      ↔ ((s ≢ registration_open) ⊎ (past_deadline deadline now ≡ true))
  unfolding calculate_registration_availability
  closed_iff = ground arith

-- Four fifths of a positive capacity are taken.
abbrev pub NearlyFull : Option ℤ → ℕ → Type 0
NearlyFull none n = ⊥
NearlyFull (some (negsuc c)) n = ⊥
NearlyFull (some (pos c)) n = 4 * c ≤ 5 * n

-- The state is limited exactly when registrations are taken and at least 80 percent of the seats
-- are gone.
pub limited_iff :
    (s : EventStatus) (capacity : Option ℤ) (n : ℕ) (deadline : Option ℕ) (now : ℕ)
    → (calculate_registration_availability s capacity n deadline now ≡ limited) ↔ (
        (s ≡ registration_open)
        × BeforeDeadline deadline now
        × SeatsLeft capacity n
        × NearlyFull capacity n)
unfolding calculate_registration_availability
limited_iff s capacity n deadline now = ground arith

-- As seats are taken and time passes, the state only moves on: open, limited, full, closed.
pub availability_mono :
    (s : EventStatus) (capacity : Option ℤ) (n m : ℕ) (deadline : Option ℕ) (now later : ℕ)
    → n ≤ m
    → now ≤ later
    → rank (calculate_registration_availability s capacity n deadline now)
      ≤ rank (calculate_registration_availability s capacity m deadline later)
unfolding calculate_registration_availability
availability_mono s capacity n m deadline now later h k = ground arith
