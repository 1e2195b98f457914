-- ===== src/Snapshot.antt =====
-- internal/snapshot: the periodic reports of the state of every guest.
pub mod State
pub mod Emitter
pub mod Schedule
pub mod Qmp
