-- ===== src/Tickets/Durable.antt =====
-- The issue of tickets (app/modules/tickets/service.py) and the stored tables.
use event_platform_backend.Prelude.{ℕ, Option, none, some, List, [], ◌∷◌, String}
use event_platform_backend.Models.Registrations.{Registration, RegistrationParticipant}
use event_platform_backend.Models.Tickets.{BarcodePayload, Ticket}
use event_platform_backend.Session.Frames.{Frame, Frame-bind, frame_rules}
use event_platform_backend.Session.Kept.{
  kept, Operational, Operational-nothing, Frame-lasting, kept_rules,
}
use event_platform_backend.Session.Views.{lasting}
use event_platform_backend.Store.{Db}
use event_platform_backend.Tickets.Issue.{
  TicketRequest, create_unless, create_ticket, create_each, issue_for, issue_registration_tickets,
  issue_ticket_for_registration,
}

module _ {B : Type 0} (b : Db → B) (o : Operational b) (sign : BarcodePayload → String) where
  Kept-create_unless :
      (r : TicketRequest) (o : Option Ticket) → Frame (kept b) (create_unless sign r o)
  unfolding create_unless
  Kept-create_unless r (some t) = search frame_rules
  Kept-create_unless r none = search (frame_rules, kept_rules) depth 20

  Kept-create_ticket : (r : TicketRequest) → Frame (kept b) (create_ticket sign r)
  unfolding create_ticket
  Kept-create_ticket r = search (frame_rules, Kept-create_unless) depth 9

  Kept-create_each :
      (g : Registration) (payment : Option ℕ) (fallback : ℕ) (ps : List RegistrationParticipant)
      → Frame (kept b) (create_each sign g payment fallback ps)
  unfolding create_each
  Kept-create_each g payment fallback [] = search frame_rules
  Kept-create_each g payment fallback (p ∷ ps) =
      Frame-bind (kept b) _ _ (Kept-create_ticket _) λ _. Kept-create_each g payment fallback ps

  Kept-issue_for :
      (g : Registration) (payment : Option ℕ) (fallback : ℕ) (ps : List RegistrationParticipant)
      → Frame (kept b) (issue_for sign g payment fallback ps)
  unfolding issue_for
  Kept-issue_for g payment fallback [] = search (frame_rules, Kept-create_ticket)
  Kept-issue_for g payment fallback (p ∷ ps) = search (frame_rules, kept_rules, Kept-create_each)

  pub Kept-issue_registration_tickets :
      (g : Registration) (payment : Option ℕ) (fallback : ℕ)
      → Frame (kept b) (issue_registration_tickets sign g payment fallback)
  unfolding issue_registration_tickets
  Kept-issue_registration_tickets g payment fallback = search (frame_rules, Kept-issue_for)

pub Frame-issue_ticket_for_registration :
    (sign : BarcodePayload → String) (g : Registration)
    → Frame lasting (issue_ticket_for_registration sign g)
unfolding issue_ticket_for_registration
Frame-issue_ticket_for_registration sign g =
    Frame-lasting (λ _. tt) _
      (Kept-issue_registration_tickets (λ _. tt) Operational-nothing sign g _ _)
