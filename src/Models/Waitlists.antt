-- ===== src/Models/Waitlists.antt =====
-- app/modules/waitlists/models.py: waitlist entries and their statuses.
use event_platform_backend.Prelude.{ℕ, Bool, true, false, Option, String}

pub data WaitlistStatus : Type 0 where
  waiting promoted expired left closed : WaitlistStatus

-- ACTIVE_WAITLIST_STATUSES
abbrev pub is_active_waitlist : WaitlistStatus → Bool
is_active_waitlist waiting = true
is_active_waitlist promoted = true
is_active_waitlist _ = false

abbrev pub is_waiting : WaitlistStatus → Bool
is_waiting waiting = true
is_waiting _ = false

abbrev pub is_promoted : WaitlistStatus → Bool
is_promoted promoted = true
is_promoted _ = false

abbrev pub is_expired : WaitlistStatus → Bool
is_expired expired = true
is_expired _ = false

pub record WaitlistEntry : Type 0 where
  pub id : ℕ
  pub event_id : ℕ
  pub user_id : ℕ
  pub child_id : Option ℕ
  pub team_id : Option ℕ
  pub participation_type : String
  pub status : WaitlistStatus
  pub joined_at : ℕ
  pub promoted_at : Option ℕ
  pub promotion_expires_at : Option ℕ
  pub left_at : Option ℕ
  pub expired_at : Option ℕ
