-- ===== src/Tasks.antt =====
-- internal/tasks: the parser of task identifiers, the worker types, and the watcher of the task
-- log.
pub mod Upid
pub mod Status
pub mod Workers
pub mod Watcher
pub mod LogFile
pub mod Run
pub mod Synced
