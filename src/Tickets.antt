-- ===== src/Tickets.antt =====
-- Tickets (app/modules/tickets).
pub mod Repository
pub mod Issue
pub mod Durable
pub mod Gate
pub mod Entry
pub mod Scanning
pub mod Care
pub mod Transfers
pub mod Policies
pub mod Counts
pub mod Lifecycle
pub mod Barcodes
pub mod Entries
pub mod Admission
pub mod Limits
pub mod Tests
