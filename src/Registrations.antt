-- ===== src/Registrations.antt =====
-- Registrations (app/modules/registrations).
pub mod Repository
pub mod Window
pub mod Decision
pub mod Intake
pub mod Creation
pub mod Cancellation
pub mod Reopening
pub mod Openings
pub mod Guards
pub mod Atomic
pub mod Cancelling
pub mod Seats
pub mod Seated
pub mod Issuing
pub mod Filling
pub mod Submitting
pub mod Deciding
pub mod Releasing
pub mod Refunding
pub mod Settling
pub mod Cancelled
pub mod Capacity
pub mod Accepting
pub mod Acceptance
pub mod Rows
pub mod Voiding
pub mod Asking
pub mod Outcomes
pub mod Closings
pub mod Ending
pub mod CreationTests
pub mod Tests
