-- ===== src/Waitlists/Operations.antt =====
-- WaitlistService (app/modules/waitlists/service.py): its operations.
pub mod Join
pub mod Leave
pub mod Promote
pub mod Retry
pub mod Pages
