-- ===== src/Enrich.antt =====
-- internal/enrich/enrich.go: from an event of the task log to the event that is published.
pub mod Target
pub mod TaskLog
pub mod Lifecycle
