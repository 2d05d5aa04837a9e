-- ===== src/Models.antt =====
-- The tables' rows, by the module of the source that declares them.
pub mod Events
pub mod Schedule
pub mod Rbac
pub mod People
pub mod Registrations
pub mod Waitlists
pub mod Notifications
pub mod Payments
pub mod Tickets
