-- ===== src/Models/People.antt =====
-- The rows of the identity, guardians and teams modules that the other services read.
use event_platform_backend.Prelude.{ℕ, Bool}

pub record ChildProfile : Type 0 where
  pub id : ℕ

pub record GuardianChildRelationship : Type 0 where
  pub guardian_user_id : ℕ
  pub child_id : ℕ

pub record User : Type 0 where
  pub id : ℕ
  pub is_event_manager : Bool
  pub is_active : Bool

pub record Team : Type 0 where
  pub id : ℕ
  pub event_id : ℕ
  pub captain_user_id : ℕ
