-- ===== src/Tickets/Tests.antt =====
-- Tickets at concrete sessions: a ticket of an event that ends at 900, and a member of the gate's staff.
use event_platform_backend.Prelude.{ℕ, ◌≡◌, ◌⊎◌, refl, none, some, List, [], ◌∷◌, String}
use event_platform_backend.Models.Rbac.{RoleAssignment, staff_member, active}
use event_platform_backend.Models.Tickets.{Ticket, CheckIn, online}
use event_platform_backend.Permissions.{user_has_scoped_role, get_active_assignments}
use event_platform_backend.Scenario.{open_event, seat, seats, session}
use event_platform_backend.Session.{
  Session, ok, modify, now, uuid4, token_hex, commit, write_audit_log, ◌>>=◌,
}
use event_platform_backend.Session.Triples.{Ends}
use event_platform_backend.Session.Views.{facts}
use event_platform_backend.Session.Worlds.{world}
use event_platform_backend.Registrations.Repository.{get_registration, update_registration}
use event_platform_backend.Tickets.Entries.{Entered, Replayed, Stored}
use event_platform_backend.Tickets.Admission.{check_in_effect}
use event_platform_backend.Tickets.Barcodes.{issued_barcode_resolves}
use event_platform_backend.Tickets.Counts.{AllCount}
use event_platform_backend.Tickets.Entry.{Scan, check_in, new_check_in}
use event_platform_backend.Tickets.Gate.{
  get_ticket, get_ticket_or_raise, policy_of, add_check_in, violates_unique,
}
use event_platform_backend.Tickets.Issue.{
  TicketRequest, new_ticket, existing_tickets, create_unless, create_ticket,
}
use event_platform_backend.Tickets.Lifecycle.{issue, start, request, perform, ticket_counts}
use event_platform_backend.Tickets.Limits.{WithinLimit, check_in-WithinLimit}
use event_platform_backend.Tickets.Repository.{list_by_registration_id}
use event_platform_backend.Tickets.Scanning.{
  payload_parts, sign_payload, tickets_of_code, resolve_by_scan_payload,
}

abbrev hmac : List String → String
hmac parts = "mac"

abbrev str_id : ℕ → String
str_id n = "id"

abbrev iso_date : ℕ → String
iso_date t = "2026-01-01"

abbrev usher : RoleAssignment
usher = record {
  id = 31;
  user_id = 3;
  role = staff_member;
  event_id = some 1;
  status = active;
  revoked_at = none;
}

abbrev request_seat : TicketRequest
request_seat = record {
  event_id = 1;
  registration_id = 20;
  payment_id = none;
  user_id = 5;
  participant_id = none;
}

-- The seat is confirmed and has no ticket.
abbrev no_ticket : Session
no_ticket = session (record (seats (seat 20 5 ∷ [])) {
  events = record open_event { end_date = some 900 } ∷ [];
  assignments = usher ∷ [];
})

abbrev printed : Ticket
printed = new_ticket (sign_payload hmac str_id) 1000 request_seat "TKT-token" none 200

abbrev with_ticket : Session
with_ticket = (create_ticket (sign_payload hmac str_id) request_seat no_ticket).1

create_run :
    create_ticket (sign_payload hmac str_id) request_seat no_ticket ≡ (ok printed, with_ticket)
unfolding create_ticket ◌>>=◌ list_by_registration_id create_unless token_hex now uuid4 modify
    update_registration write_audit_log existing_tickets
create_run = refl

no_existing : existing_tickets request_seat no_ticket.db ≡ []
unfolding existing_tickets list_by_registration_id
no_existing = refl

free_code : tickets_of_code "TKT-token" no_ticket.db ≡ []
unfolding tickets_of_code
free_code = refl

issued_barcode_resolves_example :
    resolve_by_scan_payload hmac str_id
      (payload_parts str_id printed.barcode_payload)
      printed.barcode_signature
      with_ticket
    ≡ (ok printed, with_ticket)
issued_barcode_resolves_example =
    issued_barcode_resolves hmac str_id request_seat no_ticket with_ticket printed no_existing
      create_run free_code

-- The ticket is stored.
abbrev at_the_gate : Session
at_the_gate = session (record no_ticket.db { tickets = printed ∷ [] })

abbrev scan : Scan
scan = record { venue_id = none; access_zone_id = none; offline_batch_id = none; source = online }

check_in_effect_example :
    Ends
      (λ c t.
        Entered iso_date 1000 3 scan (world at_the_gate) c t
        ⊎ Replayed 1000 3 scan (world at_the_gate) c t)
      (Stored (world at_the_gate))
      (check_in iso_date 1000 3 scan at_the_gate)
check_in_effect_example = check_in_effect iso_date 1000 3 scan at_the_gate

abbrev let_in : Session
let_in = (check_in iso_date 1000 3 scan at_the_gate).1

abbrev entry : CheckIn
entry = new_check_in 1000 printed 3 scan none

check_in_run : check_in iso_date 1000 3 scan at_the_gate ≡ (ok entry, let_in)
unfolding check_in ◌>>=◌ get_ticket_or_raise user_has_scoped_role get_active_assignments
    get_registration uuid4 violates_unique modify now update_registration write_audit_log commit
    add_check_in
check_in_run = refl

check_in-WithinLimit_example :
    ((t : Ticket) × ((get_ticket 1000 (facts at_the_gate.db) ≡ some t)
        × WithinLimit (policy_of t (facts at_the_gate.db)) 1))
    ⊎ Replayed 1000 3 scan (world at_the_gate) entry let_in
check_in-WithinLimit_example =
    check_in-WithinLimit iso_date 1000 3 scan at_the_gate let_in entry (refl, tt) check_in_run

ticket_counts_example :
    AllCount (perform hmac str_id iso_date (issue request_seat) no_ticket).1.durable
ticket_counts_example =
    ticket_counts hmac str_id iso_date
      (perform hmac str_id iso_date (issue request_seat) no_ticket).1.durable
      (request no_ticket (issue request_seat) (start no_ticket.durable refl) refl)
