-- ===== src/Models/Tickets.antt =====
-- app/modules/tickets/models.py: tickets, access policies and zones, check-ins and transfers.
use event_platform_backend.Prelude.{ℕ, Bool, true, false, Option, List, String, ℤ}

pub data TicketStatus : Type 0 where
  active issued used checked_in expired cancelled revoked : TicketStatus

-- The text f"{ticket_code}:{event_id}:{registration_id}:{payment_id or 'free'}", by its parts.
pub record BarcodePayload : Type 0 where
  pub ticket_code : String
  pub event_id : ℕ
  pub registration_id : ℕ
  pub payment_id : Option ℕ

pub record AccessPolicy : Type 0 where
  pub id : ℕ
  pub event_id : ℕ
  pub access_type : String
  pub valid_from : Option ℕ
  pub valid_until : Option ℕ
  pub valid_dates : Option (List String)
  pub allowed_zone_ids : List ℕ
  pub allows_reentry : Bool
  pub max_entries : ℤ

pub record AccessZone : Type 0 where
  pub id : ℕ
  pub event_id : ℕ
  pub code : String
  pub name : String
  pub is_active : Bool

pub record Ticket : Type 0 where
  pub id : ℕ
  pub event_id : ℕ
  pub registration_id : ℕ
  pub participant_id : Option ℕ
  pub payment_id : Option ℕ
  pub user_id : ℕ
  pub ticket_code : String
  pub barcode_payload : BarcodePayload
  pub barcode_signature : String
  pub access_type : String
  pub access_policy_id : Option ℕ
  pub entry_count : ℕ
  pub valid_from : Option ℕ
  pub valid_until : Option ℕ
  pub valid_dates : Option (List String)
  pub status : TicketStatus
  pub issued_at : Option ℕ
  pub checked_in_at : Option ℕ
  pub checked_in_by : Option ℕ

pub data CheckInSource : Type 0 where
  online offline : CheckInSource

-- `scan_payload` is kept for display only, and is left out.
pub record CheckIn : Type 0 where
  pub id : ℕ
  pub ticket_id : ℕ
  pub event_id : ℕ
  pub venue_id : Option ℕ
  pub scanned_by : ℕ
  pub source : CheckInSource
  pub offline_batch_id : Option String
  pub synced_at : Option ℕ
  pub exited_at : Option ℕ
  pub entry_number : ℕ

pub data TicketTransferStatus : Type 0 where
  pending accepted rejected cancelled : TicketTransferStatus

pub record TicketTransfer : Type 0 where
  pub id : ℕ
  pub ticket_id : ℕ
  pub event_id : ℕ
  pub from_user_id : ℕ
  pub to_user_id : ℕ
  pub status : TicketTransferStatus
  pub responded_at : Option ℕ
  pub accepted_at : Option ℕ

pub data TicketValidationReason : Type 0 where
  valid wrong_event invalid_signature unknown_ticket cancelled refunded expired already_used
        access_denied outside_time_window event_ended payment_not_verified
        registration_not_confirmed unauthorized_staff :
      TicketValidationReason

-- {TicketStatus.CANCELLED, TicketStatus.REVOKED}
abbrev pub is_void : TicketStatus → Bool
is_void TicketStatus.cancelled = true
is_void revoked = true
is_void _ = false

abbrev pub is_checked_in : TicketStatus → Bool
is_checked_in checked_in = true
is_checked_in _ = false

-- {USED, CHECKED_IN}
abbrev pub is_used : TicketStatus → Bool
is_used used = true
is_used checked_in = true
is_used _ = false

-- {ACTIVE, ISSUED, USED, CHECKED_IN}
abbrev pub is_enterable : TicketStatus → Bool
is_enterable active = true
is_enterable issued = true
is_enterable used = true
is_enterable checked_in = true
is_enterable _ = false

-- {CANCELLED, REVOKED, EXPIRED, USED, CHECKED_IN}
abbrev pub is_settled : TicketStatus → Bool
is_settled active = false
is_settled issued = false
is_settled _ = true

abbrev pub is_expired : TicketStatus → Bool
is_expired TicketStatus.expired = true
is_expired _ = false

abbrev pub is_pending : TicketTransferStatus → Bool
is_pending pending = true
is_pending _ = false
