-- ===== src/Tickets/Care.antt =====
-- The operations of TicketService (app/modules/tickets/service.py) that staff apply to one ticket.
use event_platform_backend.Prelude.{
  ℕ, Bool, not, ◌&&◌, ◌||◌, Option, none, some, List, String, concat, str_eq, ◌==◌, ltb, select,
}
use event_platform_backend.Models.People.{User}
use event_platform_backend.Models.Tickets.{
  Ticket, TicketStatus, AccessPolicy, CheckIn, BarcodePayload, is_void, is_settled,
}
use event_platform_backend.Store.{Db, user_key}
use event_platform_backend.Table.{get}
use event_platform_backend.Tickets.Gate.{
  get_ticket_or_raise, can_check_in_ticket, latest_check_in, update_check_in,
}
use event_platform_backend.Tickets.Repository.{update_ticket}
use event_platform_backend.Session.{
  Action, pure, raise_if, or_raise, query, lift, modify, now, token_hex, commit, scalar_one_or_none,
  write_audit_log, ◌>>=◌, ◌>>◌,
}
use event_platform_backend.Session.Errors.{invalid_ticket_state}

unfoldable pub revoke_ticket : ℕ → ℕ → Action Ticket
unfolding get_ticket_or_raise
revoke_ticket ticket_id actor_id = do
  ticket ← get_ticket_or_raise ticket_id
  modify (update_ticket ticket.id λ t. record t { status = TicketStatus.revoked })
  write_audit_log "ticket" ticket.id "revoked" (some actor_id)
  commit
  get_ticket_or_raise ticket.id

-- A ticket that is settled or has been used stays with its owner.
abbrev pub is_bound : Ticket → Bool
is_bound t = is_settled t.status || ltb 0 t.entry_count

unfoldable pub get_user : ℕ → Db → Option User
get_user user_id d = get user_id d.users

unfoldable pub reassign_ticket : ℕ → ℕ → ℕ → Action Ticket
unfolding get_ticket_or_raise get_user
reassign_ticket ticket_id target_user_id actor_id = do
  ticket ← get_ticket_or_raise ticket_id
  row ← query (get_user target_user_id)
  target ← or_raise row (invalid_ticket_state "The target ticket owner does not exist.")
  raise_if (is_bound ticket) (
      invalid_ticket_state
        "A used, cancelled, revoked, expired, or checked-in ticket cannot be reassigned.")
  modify (update_ticket ticket.id λ t. record t { user_id = target_user_id })
  write_audit_log "ticket" ticket.id "reassigned" (some actor_id)
  commit
  get_ticket_or_raise ticket.id

-- The latest check-in, if its holder has not left.
abbrev pub inside : Option CheckIn → Option CheckIn
inside none = none
inside (some c) = elim c.exited_at [ none ↦ some c | some t ↦ none ]

unfoldable pub check_out : ℕ → ℕ → Action CheckIn
unfolding get_ticket_or_raise can_check_in_ticket latest_check_in update_check_in
check_out ticket_id actor_id = do
  ticket ← get_ticket_or_raise ticket_id
  allowed ← query (can_check_in_ticket actor_id ticket)
  raise_if (not allowed) (invalid_ticket_state "You cannot check out this ticket.")
  row ← query (latest_check_in ticket.id)
  latest ←
      or_raise (inside row) (invalid_ticket_state "This ticket is not currently inside the venue.")
  t ← now
  modify (update_check_in latest.id λ c. record c { exited_at = some t })
  write_audit_log "ticket" ticket.id "checked_out" (some actor_id)
  commit
  pure (record latest { exited_at = some t })

-- The rows of the policy of an event and an access type.
unfoldable pub policies_of : ℕ → String → Db → List AccessPolicy
policies_of event_id access_type d =
    select (λ p. p.event_id == event_id && str_eq p.access_type access_type) d.access_policies

abbrev pub with_policy : AccessPolicy → Ticket → Ticket
with_policy p t = record t {
  access_type = p.access_type;
  access_policy_id = some p.id;
  valid_from = p.valid_from;
  valid_until = p.valid_until;
  valid_dates = p.valid_dates;
}

-- `access_type` is the text after strip() and lower().
unfoldable pub assign_access_type : ℕ → String → ℕ → Action Ticket
unfolding get_ticket_or_raise policies_of
assign_access_type ticket_id access_type actor_id = do
  ticket ← get_ticket_or_raise ticket_id
  rows ← query (policies_of ticket.event_id access_type)
  found ← lift (scalar_one_or_none rows)
  policy ← or_raise found (invalid_ticket_state "No access policy exists for this access type.")
  modify (update_ticket ticket.id (with_policy policy))
  write_audit_log "ticket" ticket.id "access_type_changed" (some actor_id)
  commit
  get_ticket_or_raise ticket.id

module _ (sign : BarcodePayload → String) where
  -- The ticket's row under a new code.
  abbrev pub replaced : String → Ticket → Ticket
  replaced code t =
      let payload : BarcodePayload = record {
        ticket_code = code;
        event_id = t.event_id;
        registration_id = t.registration_id;
        payment_id = t.payment_id;
      } in
      record t {
        ticket_code = code;
        barcode_payload = payload;
        barcode_signature = sign payload;
        status = TicketStatus.active;
        entry_count = 0;
        checked_in_at = none;
        checked_in_by = none;
      }

  unfoldable pub replace_ticket : ℕ → ℕ → Action Ticket
  unfolding get_ticket_or_raise
  replace_ticket ticket_id actor_id = do
    ticket ← get_ticket_or_raise ticket_id
    raise_if (is_void ticket.status || ltb 0 ticket.entry_count)
        (invalid_ticket_state "A cancelled, revoked, or already-used ticket cannot be replaced.")
    token ← token_hex
    modify (update_ticket ticket.id (replaced (concat "TKT-" token)))
    write_audit_log "ticket" ticket.id "replaced" (some actor_id)
    commit
    get_ticket_or_raise ticket.id
