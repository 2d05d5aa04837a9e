-- ===== src/Registrations/Tests.antt =====
-- Runs of the registration service at concrete sessions.
use event_platform_backend.Prelude.{◌≡◌, true, none}
use event_platform_backend.Models.Registrations.{Registration}
use event_platform_backend.Models.Events.{registration_closed}
use event_platform_backend.Scenario.{open_event, capacity_of_two, one_left, sold_out, paid_seat}
use event_platform_backend.Session.Triples.{Ends}
use event_platform_backend.Session.Views.{rows, Committed}
use event_platform_backend.Registrations.Window.{
  with_status, ensure_registration_open, reopen_event_if_capacity_available,
}
use event_platform_backend.Registrations.Decision.{decide_registration}
use event_platform_backend.Registrations.Cancellation.{cancel_registration}
use event_platform_backend.Registrations.Reopening.{Reopened, reopen_effect}
use event_platform_backend.Registrations.Openings.{
  IsLetIn, TurnedAway, ensure_registration_open_effect,
}
use event_platform_backend.Registrations.Atomic.{MayDecide, decide_atomic}
use event_platform_backend.Registrations.Ending.{cancel_settled}
use event_platform_backend.Registrations.Outcomes.{Closed}
use event_platform_backend.Registrations.Cancelling.{MayCancel}

reopen_effect_example :
    Ends
      (λ _.
        Reopened
          (with_status registration_closed open_event)
          capacity_of_two
          (rows one_left)
          (one_left.clock one_left.readings))
      (λ _. ⊥)
      (reopen_event_if_capacity_available
        (with_status registration_closed open_event)
        capacity_of_two
        one_left)
reopen_effect_example =
    reopen_effect (with_status registration_closed open_event) capacity_of_two one_left

ensure_registration_open_effect_example :
    Ends
      (λ _ t.
        IsLetIn open_event capacity_of_two (rows sold_out) sold_out.readings
        × (rows t ≡ rows sold_out))
      (TurnedAway open_event capacity_of_two (rows sold_out))
      (ensure_registration_open open_event capacity_of_two sold_out)
ensure_registration_open_effect_example =
    ensure_registration_open_effect open_event capacity_of_two sold_out

decide_atomic_example :
    Ends
      (λ _ t. ((g : Registration) × MayDecide 20 4 sold_out.db g) × Committed t)
      (λ t. t.durable ≡ sold_out.durable)
      (decide_registration (λ payload. payload.ticket_code) 20 4 true none sold_out)
decide_atomic_example = decide_atomic (λ payload. payload.ticket_code) 20 4 true none sold_out

cancel_settled_example :
    Ends
      (λ _ t.
        ((g : Registration) × MayCancel 20 5 paid_seat.db g) × Committed t × Closed 20 t.durable)
      (λ t. t.durable ≡ paid_seat.durable)
      (cancel_registration 20 5 none paid_seat)
cancel_settled_example = cancel_settled 20 5 none paid_seat
