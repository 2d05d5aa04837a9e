-- ===== src/Waitlists.antt =====
-- The waitlist of a full event (app/modules/waitlists).
pub mod Repository
pub mod Notices
pub mod Service
pub mod Operations
pub mod Quiet
pub mod Identities
pub mod Rounds
pub mod Fifo
pub mod Positions
pub mod Reading
pub mod Leaving
pub mod Expiring
pub mod Closing
pub mod ClosingLoop
pub mod Outcomes
pub mod Promotion
pub mod Durable
pub mod Listing
pub mod Tests
pub mod Joining
pub mod Retrying
