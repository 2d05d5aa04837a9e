-- ===== src/ConfigEngine.antt =====
-- app/modules/config_engine/registration_state.py: whether an event takes registrations.
pub mod Availability
pub mod Dates
pub mod Service
pub mod Configuration
pub mod Shown
pub mod Rules
pub mod Eligibility
pub mod Tests
use event_platform_backend.Prelude.{
  ℕ, ◌+◌, ◌-◌, ◌*◌, Bool, true, false, not, ◌&&◌, Option, none, some, leb, if◌then◌else◌, ℤ, pos,
  negsuc, reaches,
}
use event_platform_backend.Models.Events.{
  EventStatus, registration_open, DateTime, naive, aware, east, west, RawDate, falsy, iso,
  malformed, Details,
}

pub data RegistrationAvailability : Type 0 where
  opened limited full closed : RegistrationAvailability

-- parsed.replace(tzinfo=utc) of a naive value, parsed.astimezone(utc) of an aware one.
unfoldable pub to_utc : DateTime → ℕ
to_utc (naive t) = t
to_utc (aware t (east o)) = t - o
to_utc (aware t (west o)) = t + o

parse_date : RawDate → Option ℕ
parse_date falsy = none
parse_date (iso t) = some (to_utc t)
parse_date malformed = none

unfoldable pub parse_registration_end_at : Option Details → Option ℕ
unfolding parse_date to_utc
parse_registration_end_at none = none
parse_registration_end_at (some details) = parse_date details.registration_end_at

pub parse_cancellation_deadline_at : Option Details → Option ℕ
unfolding parse_date to_utc
parse_cancellation_deadline_at none = none
parse_cancellation_deadline_at (some details) = parse_date details.cancellation_deadline_at

abbrev pub is_registration_open : EventStatus → Bool
is_registration_open registration_open = true
is_registration_open _ = false

-- registration_end_at is not None and current_time >= registration_end_at
abbrev pub past_deadline : Option ℕ → ℕ → Bool
past_deadline none now = false
past_deadline (some t) now = leb t now

-- capacity is not None and registered_count >= capacity
abbrev pub at_capacity : Option ℤ → ℕ → Bool
at_capacity none n = false
at_capacity (some c) n = reaches n c

-- capacity is not None and capacity > 0 and registered_count / capacity >= 0.8, where the
-- quotient of two 32-bit integers compares with the double 0.8 as the fraction does with 4/5.
abbrev pub nearly_full : Option ℤ → ℕ → Bool
nearly_full none n = false
nearly_full (some (negsuc c)) n = false
nearly_full (some (pos c)) n = leb 1 c && leb (4 * c) (5 * n)

unfoldable pub calculate_registration_availability :
    EventStatus → Option ℤ → ℕ → Option ℕ → ℕ → RegistrationAvailability
calculate_registration_availability event_status capacity registered_count registration_end_at now =
    if not (is_registration_open event_status)
    then closed
    else if past_deadline registration_end_at now
    then closed
    else if at_capacity capacity registered_count
    then full
    else if nearly_full capacity registered_count
    then limited
    else opened
