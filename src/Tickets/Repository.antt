-- ===== src/Tickets/Repository.antt =====
-- app/modules/tickets/repository.py
use event_platform_backend.Prelude.{ℕ, ◌&&◌, some, List, ◌==◌, opt_eq, str_eq, select}
use event_platform_backend.Models.Tickets.{Ticket, AccessPolicy}
use event_platform_backend.Store.{Db, ticket_key}
use event_platform_backend.Table.{update, add}

-- The rows of get_by_registration_id, before scalar_one_or_none, and those of
-- list_by_registration_id, in the order of their creation.
unfoldable pub list_by_registration_id : ℕ → Db → List Ticket
list_by_registration_id registration_id d =
    select (λ t. t.registration_id == registration_id) d.tickets

-- The rows of the ticket of a participant.
unfoldable pub list_by_participant_id : ℕ → Db → List Ticket
list_by_participant_id participant_id d =
    select (λ t. opt_eq t.participant_id (some participant_id)) d.tickets

-- The rows of the general access policy of an event.
abbrev pub general_policies : ℕ → Db → List AccessPolicy
general_policies event_id d =
    select (λ p. p.event_id == event_id && str_eq p.access_type "general") d.access_policies

-- TicketRepository.create
abbrev pub add_ticket : Ticket → Db → Db
add_ticket t d = record d { tickets = add t d.tickets }

-- Assignments to the attributes of a ticket of the session.
abbrev pub update_ticket : ℕ → (Ticket → Ticket) → Db → Db
update_ticket ticket_id f d = record d { tickets = update ticket_id f d.tickets }
