-- ===== src/Tickets/Scanning.antt =====
-- TicketService.resolve_by_scan_payload, validate_scan and sync_offline_checkins
-- (app/modules/tickets/service.py). A scanned text is given by its parts, as split(":") returns them.
use event_platform_backend.Prelude.{
  ℕ, Bool, false, not, ◌&&◌, Option, none, some, List, [], ◌∷◌, ◌++◌, String, str_eq, ◌==◌, select,
  if◌then◌else◌, leb,
}
use event_platform_backend.Models.Payments.{is_verified, is_refunded}
use event_platform_backend.Models.Tickets.{
  Ticket, AccessPolicy, BarcodePayload, CheckIn, CheckInSource, TicketValidationReason, valid,
  wrong_event, invalid_signature, unknown_ticket, already_used, access_denied, outside_time_window,
  event_ended, payment_not_verified, registration_not_confirmed, unauthorized_staff, is_void,
  is_expired, is_used,
}
use event_platform_backend.Registrations.Repository.{get_registration}
use event_platform_backend.Store.{Db, payment_key}
use event_platform_backend.Table.{get}
use event_platform_backend.Tickets.Entry.{Scan, check_in}
use event_platform_backend.Tickets.Gate.{
  can_check_in_ticket, policy_of, zone_denied, zone_invalid, no_reentry, before_start, after_end,
  other_day, event_row, end_of, admissible,
}
use event_platform_backend.Session.{
  Action, pure, raise_if, or_raise, query, lift, now, scalar_one_or_none, ◌>>=◌, ◌>>◌,
}
use event_platform_backend.Session.Errors.{invalid_ticket_state, ticket_not_found}

-- TicketRepository.get_by_code, before scalar_one_or_none.
unfoldable pub tickets_of_code : String → Db → List Ticket
tickets_of_code code d = select (λ t. str_eq t.ticket_code code) d.tickets

abbrev pub first_part : List String → String
first_part [] = ""
first_part (x ∷ xs) = x

-- OfflineCheckInIn: an offline check-in, as the device sends it.
pub record OfflineScan : Type 0 where
  pub scan_payload : List String
  pub barcode_signature : String
  pub venue_id : Option ℕ
  pub offline_batch_id : Option String

abbrev pub offline_scan : OfflineScan → Scan
offline_scan s = record {
  venue_id = s.venue_id;
  access_zone_id = none;
  offline_batch_id = s.offline_batch_id;
  source = CheckInSource.offline;
}

-- resolve_by_ticket_code
unfoldable resolve_by_ticket_code : String → Action Ticket
unfolding tickets_of_code
resolve_by_ticket_code code = do
  rows ← query (tickets_of_code code)
  found ← lift (scalar_one_or_none rows)
  or_raise found (ticket_not_found "Ticket not found.")

-- event_id is not None and ticket.event_id != event_id
abbrev pub not_asked : Option ℕ → ℕ → Bool
not_asked none event_id = false
not_asked (some i) event_id = not (event_id == i)

-- The answer that the payment of a ticket gives, if it is not in order.
unfoldable payment_reason : Option ℕ → Db → Option TicketValidationReason
payment_reason none d = none
payment_reason (some i) d = elim (get i d.payments) [
  | none ↦ some TicketValidationReason.refunded
  | some p ↦
      if is_refunded p.status
      then some TicketValidationReason.refunded
      else if is_verified p.status
      then none
      else some payment_not_verified
]

-- The tests of validate_scan that look at the payment and the registration.
unfoldable reason_by_standing : Ticket → Db → TicketValidationReason
unfolding payment_reason
reason_by_standing ticket d = elim (payment_reason ticket.payment_id d) [
  | some r ↦ r
  | none ↦ elim (admissible (get_registration ticket.registration_id d)) [
    | none ↦ registration_not_confirmed
    | some g ↦ valid
  ]
]

-- The tests before it; none where all of them pass.
unfoldable reason_by_status : Ticket → Option AccessPolicy → Option TicketValidationReason
reason_by_status ticket policy =
    if is_void ticket.status
    then some TicketValidationReason.cancelled
    else if is_expired ticket.status
    then some TicketValidationReason.expired
    else if is_used ticket.status
        && leb 1 ticket.entry_count
        && no_reentry policy ticket.entry_count
    then some already_used
    else none

-- `str_id` is str() of a UUID.
module _ (str_id : ℕ → String) where
  abbrev pub payment_text : Option ℕ → String
  payment_text none = "free"
  payment_text (some i) = str_id i

  -- The parts of f"{ticket_code}:{event_id}:{registration_id}:{payment_id or 'free'}".
  abbrev pub payload_parts : BarcodePayload → List String
  payload_parts p =
      p.ticket_code ∷ str_id p.event_id ∷ str_id p.registration_id ∷ payment_text p.payment_id ∷ []

  -- len(parts) == 4 and parts[1] != str(ticket.event_id)
  abbrev pub other_event : List String → ℕ → Bool
  other_event (code ∷ event ∷ registration ∷ payment ∷ []) event_id =
      not (str_eq event (str_id event_id))
  other_event _ event_id = false

-- `iso_date` is the date of an instant, as isoformat() prints it.
module _ (iso_date : ℕ → String) where
  -- The tests from the reading of the clock on.
  unfoldable reason_at : Ticket → Option ℕ → ℕ → Db → TicketValidationReason
  unfolding event_row policy_of zone_invalid reason_by_standing
  reason_at ticket zone_id t d =
      if after_end (end_of (event_row ticket.event_id d)) t
      then event_ended
      else if before_start ticket.valid_from t
      then outside_time_window
      else if after_end ticket.valid_until t
      then TicketValidationReason.expired
      else if other_day ticket.valid_dates (iso_date t)
      then outside_time_window
      else if zone_denied (policy_of ticket d) zone_id
      then access_denied
      else if zone_invalid ticket.event_id zone_id d
      then access_denied
      else reason_by_standing ticket d

-- `hmac` is HMAC-SHA256 under the barcode secret.
module _ (hmac : List String → String) (str_id : ℕ → String) where
  -- _sign_payload
  unfoldable pub sign_payload : BarcodePayload → String
  sign_payload p = hmac (payload_parts str_id p)

  -- verify_barcode_payload
  unfoldable pub verify_barcode_payload : List String → String → Bool
  verify_barcode_payload scanned signature = str_eq (hmac scanned) signature

  unfoldable pub resolve_by_scan_payload : List String → String → Action Ticket
  unfolding tickets_of_code verify_barcode_payload
  resolve_by_scan_payload scanned signature = do
    raise_if (not (verify_barcode_payload scanned signature))
        (invalid_ticket_state "Invalid or tampered barcode.")
    rows ← query (tickets_of_code (first_part scanned))
    found ← lift (scalar_one_or_none rows)
    ticket ← or_raise found (ticket_not_found "Ticket not found.")
    raise_if (other_event str_id scanned ticket.event_id)
        (invalid_ticket_state "Barcode is for a different event.")
    pure ticket

  module _ (iso_date : ℕ → String) where
    unfoldable validate_found : Ticket → Option ℕ → Action TicketValidationReason
    unfolding reason_by_status reason_at policy_of
    validate_found ticket zone_id = do
      policy ← query (policy_of ticket)
      answer_or (reason_by_status ticket policy)
      where
        answer_or : Option TicketValidationReason → Action TicketValidationReason
        answer_or (some r) = pure r
        answer_or none = do t ← now; query (reason_at iso_date ticket zone_id t)

    unfoldable validate_ticket :
        List String → ℕ → Option ℕ → Option ℕ → Option Ticket → Action TicketValidationReason
    unfolding validate_found can_check_in_ticket
    validate_ticket scanned actor_id event_id zone_id none = pure unknown_ticket
    validate_ticket scanned actor_id event_id zone_id (some ticket) =
        if other_event str_id scanned ticket.event_id
        then pure wrong_event
        else if not_asked event_id ticket.event_id
        then pure wrong_event
        else (do
          allowed ← query (can_check_in_ticket actor_id ticket)
          if allowed then validate_found ticket zone_id else pure unauthorized_staff)

    -- The reason that validate_scan answers with.
    unfoldable validate_scan :
        List String → String → ℕ → Option ℕ → Option ℕ → Action TicketValidationReason
    unfolding validate_ticket tickets_of_code verify_barcode_payload
    validate_scan scanned signature actor_id event_id zone_id =
        if not (verify_barcode_payload scanned signature) then pure invalid_signature else (do
          rows ← query (tickets_of_code (first_part scanned))
          found ← lift (scalar_one_or_none rows)
          validate_ticket scanned actor_id event_id zone_id found)

    unfoldable pub sync_offline_checkins :
        ℕ → List OfflineScan → List CheckIn → Action (List CheckIn)
    unfolding resolve_by_scan_payload check_in
    sync_offline_checkins actor_id [] done = pure done
    sync_offline_checkins actor_id (s ∷ rest) done = do
      ticket ← resolve_by_scan_payload s.scan_payload s.barcode_signature
      c ← check_in iso_date ticket.id actor_id (offline_scan s)
      sync_offline_checkins actor_id rest (done ++ c ∷ [])
