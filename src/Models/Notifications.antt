-- ===== src/Models/Notifications.antt =====
-- The notifications and the audit entries that the services write.
use event_platform_backend.Prelude.{ℕ, Bool, Option, String}

-- The `kind` argument of WaitlistService._notify.
pub data NoticeKind : Type 0 where
  joined promoted promotion_expired left position_changed closed : NoticeKind

-- The texts f"waitlist:{entry.id}:{kind}", with an instant behind it for some, and
-- f"capacity-warning:{event_id}:{recipient_id}", by their parts.
pub data DedupeKey : Type 0 where
  waitlist : ℕ → NoticeKind → Option ℕ → DedupeKey
  capacity_warning : ℕ → ℕ → DedupeKey

pub record Notification : Type 0 where
  pub event_id : ℕ
  pub recipient_user_id : ℕ
  pub title : String
  pub body : String
  pub position : Option ℕ
  pub dedupe_key : DedupeKey

pub record AuditLog : Type 0 where
  pub entity_type : String
  pub entity_id : ℕ
  pub action : String
  pub actor_user_id : Option ℕ

-- `user_id` is unique.
pub record NotificationPreference : Type 0 where
  pub user_id : ℕ
  pub event_reminders : Bool
  pub registration_updates : Bool
  pub cancellation_refund_updates : Bool
  pub event_changes : Bool
  pub operational_notifications : Bool
  pub marketing_notifications : Bool
