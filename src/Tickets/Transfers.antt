-- ===== src/Tickets/Transfers.antt =====
-- The transfers of TicketService (app/modules/tickets/service.py), up to the commit: the notice that
-- follows it, whose failures are swallowed, is left out.
use event_platform_backend.Prelude.{
  ℕ, Bool, true, false, not, ◌&&◌, ◌||◌, Option, none, some, List, String, ◌==◌, select,
  if◌then◌else◌,
}
use event_platform_backend.Models.People.{User}
use event_platform_backend.Models.Registrations.{RegistrationParticipant}
use event_platform_backend.Models.Tickets.{
  Ticket, TicketTransfer, TicketTransferStatus, pending, is_pending,
}
use event_platform_backend.Store.{Db, ticket_transfer_key, participant_key}
use event_platform_backend.Table.{get, update, add}
use event_platform_backend.Tickets.Care.{is_bound, get_user}
use event_platform_backend.Tickets.Gate.{get_ticket}
use event_platform_backend.Tickets.Repository.{update_ticket}
use event_platform_backend.Session.{
  Action, pure, raise_if, or_raise, query, lift, modify, now, uuid4, commit, LockKey,
  acquire_advisory_lock, scalar_one_or_none, write_audit_log, ◌>>=◌, ◌>>◌,
}
use event_platform_backend.Session.Errors.{invalid_ticket_state, ticket_not_found}

-- TicketRepository.get_transfer
unfoldable get_transfer : ℕ → Db → Option TicketTransfer
get_transfer transfer_id d = get transfer_id d.ticket_transfers

-- The rows of get_pending_transfer.
unfoldable pending_transfers : ℕ → Db → List TicketTransfer
pending_transfers ticket_id d =
    select (λ t. t.ticket_id == ticket_id && is_pending t.status) d.ticket_transfers

abbrev pub add_transfer : TicketTransfer → Db → Db
add_transfer t d = record d { ticket_transfers = add t d.ticket_transfers }

abbrev pub update_transfer : ℕ → (TicketTransfer → TicketTransfer) → Db → Db
update_transfer i f d = record d { ticket_transfers = update i f d.ticket_transfers }

abbrev pub update_participant : ℕ → (RegistrationParticipant → RegistrationParticipant) → Db → Db
update_participant i f d = record d { participants = update i f d.participants }

abbrev pub is_transfer : Option TicketTransfer → Bool
is_transfer none = false
is_transfer (some t) = true

abbrev pub new_transfer : ℕ → Ticket → ℕ → ℕ → TicketTransfer
new_transfer id ticket actor_id recipient_id = record {
  id = id;
  ticket_id = ticket.id;
  event_id = ticket.event_id;
  from_user_id = actor_id;
  to_user_id = recipient_id;
  status = pending;
  responded_at = none;
  accepted_at = none;
}

-- recipient is None or recipient.id == actor.id
abbrev pub bad_recipient : Option User → ℕ → Bool
bad_recipient none actor_id = true
bad_recipient (some u) actor_id = u.id == actor_id

unfoldable pub initiate_transfer : ℕ → ℕ → ℕ → Action TicketTransfer
unfolding get_user get_ticket pending_transfers
initiate_transfer ticket_id actor_id recipient_id = do
  acquire_advisory_lock (LockKey.ticket_transfer ticket_id)
  row ← query (get_ticket ticket_id)
  recipient ← query (get_user recipient_id)
  ticket ← or_raise row (ticket_not_found "Ticket not found.")
  raise_if (bad_recipient recipient actor_id || not (ticket.user_id == actor_id))
      (invalid_ticket_state "The ticket recipient is not valid.")
  raise_if (is_bound ticket) (
      invalid_ticket_state
        "A used, cancelled, revoked, expired, or checked-in ticket cannot be transferred.")
  rows ← query (pending_transfers ticket.id)
  open_one ← lift (scalar_one_or_none rows)
  raise_if (is_transfer open_one)
      (invalid_ticket_state "This ticket already has a pending transfer.")
  id ← uuid4
  modify (add_transfer (new_transfer id ticket actor_id recipient_id))
  write_audit_log "ticket_transfer" id "initiated" (some actor_id)
  commit
  pure (new_transfer id ticket actor_id recipient_id)

-- The transfer, if it is pending.
abbrev pub pending_only : Option TicketTransfer → Option TicketTransfer
pending_only none = none
pending_only (some t) = if is_pending t.status then some t else none

-- The ticket of a transfer, if it can still change hands.
abbrev pub transferable : ℕ → Option Ticket → Option Ticket
transferable from_user_id none = none
transferable from_user_id (some t) =
    if not (t.user_id == from_user_id) || is_bound t then none else some t

abbrev pub responded : Bool → ℕ → TicketTransfer → TicketTransfer
responded true t x = record x {
  status = TicketTransferStatus.accepted;
  responded_at = some t;
  accepted_at = some t;
}
responded false t x = record x { status = TicketTransferStatus.rejected; responded_at = some t }

-- The participant of the ticket, if there is one, goes with it.
unfoldable pub hand_participant : ℕ → Option ℕ → Action (Unit {0})
hand_participant actor_id none = pure tt
hand_participant actor_id (some i) =
    modify (update_participant i λ p. record p { user_id = some actor_id })

-- if accept: the ticket changes hands.
unfoldable pub hand_over : Bool → ℕ → Ticket → Action (Unit {0})
unfolding hand_participant
hand_over false actor_id ticket = pure tt
hand_over true actor_id ticket = do
  modify (update_ticket ticket.id λ t. record t { user_id = actor_id })
  hand_participant actor_id ticket.participant_id

unfoldable pub respond_transfer : ℕ → ℕ → Bool → Action TicketTransfer
unfolding get_transfer get_ticket hand_over
respond_transfer transfer_id actor_id accept = do
  acquire_advisory_lock (LockKey.ticket_transfer transfer_id)
  row ← query (get_transfer transfer_id)
  transfer ←
      or_raise (pending_only row) (invalid_ticket_state "This transfer is no longer pending.")
  raise_if (not (transfer.to_user_id == actor_id))
      (invalid_ticket_state "You cannot respond to this transfer.")
  held ← query (get_ticket transfer.ticket_id)
  ticket ←
      or_raise (transferable transfer.from_user_id held)
        (invalid_ticket_state "This ticket is no longer transferable.")
  t ← now
  modify (update_transfer transfer.id (responded accept t))
  hand_over accept actor_id ticket
  write_audit_log "ticket_transfer" transfer.id (if accept then "accepted" else "rejected")
      (some actor_id)
  commit
  pure (responded accept t transfer)

abbrev pub withdrawn : ℕ → TicketTransfer → TicketTransfer
withdrawn t x = record x { status = TicketTransferStatus.cancelled; responded_at = some t }

-- The pending transfer that the actor made.
abbrev pub own_pending : ℕ → Option TicketTransfer → Option TicketTransfer
own_pending actor_id none = none
own_pending actor_id (some t) =
    if not (is_pending t.status) || not (t.from_user_id == actor_id) then none else some t

unfoldable pub withdraw : TicketTransfer → String → ℕ → Action TicketTransfer
withdraw transfer action actor_id = do
  t ← now
  modify (update_transfer transfer.id (withdrawn t))
  write_audit_log "ticket_transfer" transfer.id action (some actor_id)
  commit
  pure (withdrawn t transfer)

unfoldable pub cancel_transfer : ℕ → ℕ → Action TicketTransfer
unfolding get_transfer withdraw
cancel_transfer transfer_id actor_id = do
  row ← query (get_transfer transfer_id)
  transfer ←
      or_raise (own_pending actor_id row)
        (invalid_ticket_state "This transfer cannot be cancelled.")
  withdraw transfer "cancelled" actor_id

-- The pending transfer of the event.
abbrev pub event_pending : ℕ → Option TicketTransfer → Option TicketTransfer
event_pending event_id none = none
event_pending event_id (some t) =
    if not (t.event_id == event_id) || not (is_pending t.status) then none else some t

unfoldable pub cancel_transfer_as_staff : ℕ → ℕ → ℕ → Action TicketTransfer
unfolding get_transfer withdraw
cancel_transfer_as_staff transfer_id event_id actor_id = do
  acquire_advisory_lock (LockKey.ticket_transfer transfer_id)
  row ← query (get_transfer transfer_id)
  transfer ←
      or_raise (event_pending event_id row)
        (invalid_ticket_state "This transfer is no longer pending for this event.")
  withdraw transfer "cancelled_by_staff" actor_id
