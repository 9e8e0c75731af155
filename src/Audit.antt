-- ===== src/Audit.antt =====
-- go/audit: the difference of two states of an object, audit events, and their way to the outbox.
pub mod Diff
pub mod Event
pub mod Trail
mod Tests
