-- ===== src/Registrations/Issuing.antt =====
-- The issue of tickets (app/modules/tickets/service.py) for a registration whose seat is counted.
use event_platform_backend.Prelude.{ℕ, true, Option, none, some, List, [], ◌∷◌, String}
use event_platform_backend.Models.Events.{EventConfiguration}
use event_platform_backend.Models.Registrations.{Registration, RegistrationParticipant}
use event_platform_backend.Models.Tickets.{BarcodePayload, Ticket}
use event_platform_backend.Registrations.Creation.{issue_if_due}
use event_platform_backend.Registrations.Decision.{issue_if_free, issue_if_approved}
use event_platform_backend.Registrations.Seated.{Seated, seated_rules}
use event_platform_backend.Session.Frames.{Frame, frame_rules}
use event_platform_backend.Session.Inside.{Inside, Inside-bind}
use event_platform_backend.Session.Views.{lasting}
use event_platform_backend.Tickets.Durable.{Frame-issue_ticket_for_registration}
use event_platform_backend.Tickets.Issue.{
  TicketRequest, create_unless, create_ticket, create_each, issue_for, issue_registration_tickets,
  issue_ticket_for_registration,
}

module _ (sign : BarcodePayload → String) where
  Inside-create_unless :
      (r : TicketRequest) (o : Option Ticket)
      → Inside (Seated r.registration_id) (create_unless sign r o)
  unfolding create_unless
  Inside-create_unless r (some t) = search seated_rules
  Inside-create_unless r none = search seated_rules depth 20

  Inside-create_ticket :
      (r : TicketRequest) → Inside (Seated r.registration_id) (create_ticket sign r)
  unfolding create_ticket
  Inside-create_ticket r = search (seated_rules, Inside-create_unless) depth 9

  Inside-create_each :
      (g : Registration) (payment : Option ℕ) (fallback : ℕ) (ps : List RegistrationParticipant)
      → Inside (Seated g.id) (create_each sign g payment fallback ps)
  unfolding create_each
  Inside-create_each g payment fallback [] = search seated_rules
  Inside-create_each g payment fallback (p ∷ ps) =
      Inside-bind _ _ _ (Inside-create_ticket _) λ _. Inside-create_each g payment fallback ps

  Inside-issue_for :
      (g : Registration) (payment : Option ℕ) (fallback : ℕ) (ps : List RegistrationParticipant)
      → Inside (Seated g.id) (issue_for sign g payment fallback ps)
  unfolding issue_for
  Inside-issue_for g payment fallback [] =
      Inside-bind _ _ _ (Inside-create_ticket _) λ t. search seated_rules
  Inside-issue_for g payment fallback (p ∷ ps) = search (seated_rules, Inside-create_each)

  Inside-issue : (g : Registration) → Inside (Seated g.id) (issue_ticket_for_registration sign g)
  unfolding issue_ticket_for_registration issue_registration_tickets
  Inside-issue g = Inside-bind _ _ _ (search seated_rules) λ ps. Inside-issue_for g none g.user_id _

  pub Inside-issue_if_due :
      (g : Registration) (c : EventConfiguration) → Inside (Seated g.id) (issue_if_due sign g c)
  unfolding issue_if_due
  Inside-issue_if_due g c = search (seated_rules, Inside-issue)

  Inside-issue_if_free :
      (g : Registration) (c : Option EventConfiguration)
      → Inside (Seated g.id) (issue_if_free sign g c)
  unfolding issue_if_free
  Inside-issue_if_free g none = search seated_rules
  Inside-issue_if_free g (some c) = search (seated_rules, Inside-issue)

  pub Inside-issue_if_approved :
      (g : Registration) → Inside (Seated g.id) (issue_if_approved sign true g)
  unfolding issue_if_approved
  Inside-issue_if_approved g = Inside-bind _ _ _ (search seated_rules) λ c. Inside-issue_if_free g c

  pub Frame-issue_if_due :
      (g : Registration) (c : EventConfiguration) → Frame lasting (issue_if_due sign g c)
  unfolding issue_if_due
  Frame-issue_if_due g c = search (frame_rules, Frame-issue_ticket_for_registration)
