-- ===== src/Tickets/Entry.antt =====
-- TicketService.check_in (app/modules/tickets/service.py), up to the commit: the evaluation of a
-- referral, which follows it and whose failures are swallowed, is left out.
use event_platform_backend.Prelude.{
  ℕ, ◌+◌, Bool, true, not, ◌||◌, Option, none, some, String, str_eq, ◌==◌, leb, if◌then◌else◌,
}
use event_platform_backend.Models.Registrations.{Registration, RegistrationStatus}
use event_platform_backend.Models.Tickets.{
  Ticket, TicketStatus, CheckIn, CheckInSource, online, offline, is_enterable,
}
use event_platform_backend.Registrations.Repository.{get_registration, update_registration}
use event_platform_backend.Tickets.Gate.{
  get_ticket_or_raise, can_check_in_ticket, policy_of, zone_denied, zone_invalid, used_up,
  before_start, after_end, other_day, event_row, end_of, unpaid, admissible, check_ins_of_batch,
  add_check_in, violates_unique,
}
use event_platform_backend.Tickets.Repository.{update_ticket}
use event_platform_backend.Session.{
  Action, pure, raise, raise_if, or_raise, query, lift, modify, now, uuid4, commit, rollback,
  scalar_one_or_none, write_audit_log, ◌>>=◌, ◌>>◌,
}
use event_platform_backend.Session.Errors.{invalid_ticket_state, duplicate_check_in}

pub record Scan : Type 0 where
  pub venue_id : Option ℕ
  pub access_zone_id : Option ℕ
  -- An empty text counts as none.
  pub offline_batch_id : Option String
  pub source : CheckInSource

-- existing.ticket_id != ticket.id or existing.scanned_by != actor.id
abbrev pub is_other_operation : ℕ → ℕ → CheckIn → Bool
is_other_operation ticket_id actor_id c =
    not (c.ticket_id == ticket_id) || not (c.scanned_by == actor_id)

-- The row that an earlier delivery of the same offline operation made.
unfoldable pub find_batch : Option String → Action (Option CheckIn)
unfolding check_ins_of_batch
find_batch none = pure none
find_batch (some batch) =
    if str_eq batch ""
    then pure none
    else (do rows ← query (check_ins_of_batch batch); lift (scalar_one_or_none rows))

-- The end of the event is set and ahead.
abbrev pub is_over : Option ℕ → ℕ → Bool
is_over none t = true
is_over (some u) t = leb u t

-- datetime.now(timezone.utc) if source == OFFLINE else None
unfoldable pub synced_at : CheckInSource → Action (Option ℕ)
synced_at online = pure none
synced_at offline = do t ← now; pure (some t)

-- The ticket's row after one more entry.
abbrev pub entered : ℕ → ℕ → Ticket → Ticket
entered t actor_id x = record x {
  entry_count = x.entry_count + 1;
  status = if x.entry_count == 0 then TicketStatus.checked_in else TicketStatus.used;
  checked_in_at = some t;
  checked_in_by = some actor_id;
}

abbrev pub new_check_in : ℕ → Ticket → ℕ → Scan → Option ℕ → CheckIn
new_check_in id ticket actor_id scan synced = record {
  id = id;
  ticket_id = ticket.id;
  event_id = ticket.event_id;
  venue_id = scan.venue_id;
  scanned_by = actor_id;
  source = scan.source;
  offline_batch_id = scan.offline_batch_id;
  synced_at = synced;
  exited_at = none;
  entry_number = ticket.entry_count + 1;
}

-- The except clause: the row of the same operation that got in first.
unfoldable pub answer_duplicate : ℕ → ℕ → Option CheckIn → Action CheckIn
answer_duplicate ticket_id actor_id none =
    raise (duplicate_check_in "This ticket has already been checked in.")
answer_duplicate ticket_id actor_id (some c) =
    if is_other_operation ticket_id actor_id c
    then raise (duplicate_check_in "This ticket has already been checked in.")
    else pure c

-- The writes of an accepted check-in.
unfoldable pub record_entry : Ticket → Registration → ℕ → Scan → CheckIn → Action CheckIn
unfolding add_check_in
record_entry ticket g actor_id scan c = do
  modify (add_check_in c)
  t ← now
  modify (update_ticket ticket.id (entered t actor_id))
  modify (
      update_registration g.id
        λ h. record h { status = RegistrationStatus.checked_in; checked_in_at = some t })
  write_audit_log "ticket" ticket.id "checked_in" (some actor_id)
  commit
  pure c

-- The insert of the check-in, which the unique indexes may refuse.
unfoldable pub enter : Ticket → Registration → ℕ → Scan → Action CheckIn
unfolding synced_at rollback find_batch answer_duplicate record_entry
enter ticket g actor_id scan = do
  synced ← synced_at scan.source
  id ← uuid4
  clash ← query (λ d. violates_unique (new_check_in id ticket actor_id scan synced) d.check_ins)
  if clash
      then (do
        rollback
        existing ← find_batch scan.offline_batch_id
        answer_duplicate ticket.id actor_id existing)
      else record_entry ticket g actor_id scan (new_check_in id ticket actor_id scan synced)

module _ (iso_date : ℕ → String) where
  -- The guards that read the clock.
  unfoldable pub check_times : Ticket → Action (Unit {0})
  unfolding event_row
  check_times ticket = do
    event ← query (event_row ticket.event_id)
    t ← now
    raise_if (is_over (end_of event) t)
        (invalid_ticket_state "This ticket has expired because the event has ended.")
    u ← now
    raise_if (before_start ticket.valid_from u)
        (invalid_ticket_state "This ticket is not active yet.")
    raise_if (after_end ticket.valid_until u) (invalid_ticket_state "This ticket has expired.")
    raise_if (other_day ticket.valid_dates (iso_date u))
        (invalid_ticket_state "This pass is not valid on this date.")

  -- check_in, once it is known not to be a replay.
  unfoldable pub admit : Ticket → ℕ → Scan → Action CheckIn
  unfolding policy_of zone_invalid check_times unpaid enter
  admit ticket actor_id scan = do
    policy ← query (policy_of ticket)
    raise_if (zone_denied policy scan.access_zone_id)
        (invalid_ticket_state "This pass is not valid for this access zone.")
    invalid ← query (zone_invalid ticket.event_id scan.access_zone_id)
    raise_if invalid (invalid_ticket_state "This access zone is not valid for the event.")
    raise_if (used_up policy ticket) (duplicate_check_in "This ticket has already been checked in.")
    raise_if (not (is_enterable ticket.status))
        (invalid_ticket_state "This ticket is not valid for check-in.")
    check_times ticket
    due ← query (unpaid ticket.payment_id)
    raise_if due (invalid_ticket_state "Payment has not been verified for this ticket.")
    found ← query (get_registration ticket.registration_id)
    g ← or_raise (admissible found) (invalid_ticket_state "Registration is not confirmed.")
    enter ticket g actor_id scan

  -- A replay answers with the row that it made, if the row is the caller's own.
  unfoldable pub admit_or_replay : Ticket → ℕ → Scan → Option CheckIn → Action CheckIn
  unfolding admit
  admit_or_replay ticket actor_id scan none = admit ticket actor_id scan
  admit_or_replay ticket actor_id scan (some c) =
      if is_other_operation ticket.id actor_id c
      then raise (invalid_ticket_state "This offline operation key is already used.")
      else pure c

  unfoldable pub check_in : ℕ → ℕ → Scan → Action CheckIn
  unfolding get_ticket_or_raise can_check_in_ticket find_batch admit_or_replay
  check_in ticket_id actor_id scan = do
    ticket ← get_ticket_or_raise ticket_id
    allowed ← query (can_check_in_ticket actor_id ticket)
    raise_if (not allowed) (invalid_ticket_state "You cannot check in this ticket.")
    existing ← find_batch scan.offline_batch_id
    admit_or_replay ticket actor_id scan existing
