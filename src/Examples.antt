-- ===== src/Examples.antt =====
-- The theorems at concrete inputs, and tests by evaluation.
mod Text
mod Events
mod Tasks
mod Watcher
mod Run
mod Published
mod LogFile
mod Synced
mod Enrich
mod Waiting
mod Pmxcfs
mod Bus
mod Qmp
mod Tls
mod Issue
mod Tail
mod Daemon
mod Pipeline
mod Startup
mod Json
mod Consumer
mod TaskLog
