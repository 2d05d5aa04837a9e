-- ===== src/Models/Registrations.antt =====
-- app/modules/registrations/models.py: registrations and their statuses.
use event_platform_backend.Prelude.{ℕ, Bool, true, false, Option, String}
use event_platform_backend.ConfigEngine.Rules.{Date}

pub data RegistrationStatus : Type 0 where
  started submitted pending_verification pending_payment refund_pending refund_failed approved
        confirmed checked_in completed rejected cancelled :
      RegistrationStatus

-- ACTIVE_REGISTRATION_STATUSES
abbrev pub is_active_registration : RegistrationStatus → Bool
is_active_registration rejected = false
is_active_registration cancelled = false
is_active_registration _ = true

pub record Registration : Type 0 where
  pub id : ℕ
  pub event_id : ℕ
  pub user_id : ℕ
  pub child_id : Option ℕ
  pub team_id : Option ℕ
  pub participation_type : String
  pub status : RegistrationStatus
  pub submitted_at : Option ℕ
  pub approved_by : Option ℕ
  pub rejected_by : Option ℕ
  pub rejection_reason : Option String
  pub checked_in_at : Option ℕ
  pub cancellation_deadline_at : Option ℕ
  pub cancellation_requested_at : Option ℕ
  pub cancelled_at : Option ℕ
  pub cancelled_by : Option ℕ
  pub cancellation_reason : Option String

-- `created_at` is not kept: the rows of the table are in the order of their creation.
pub record RegistrationParticipant : Type 0 where
  pub id : ℕ
  pub registration_id : ℕ
  pub user_id : Option ℕ
  pub full_name : String
  pub date_of_birth : Option Date
  pub is_captain : Bool
