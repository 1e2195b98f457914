-- ===== src/Lib.antt =====
-- proxmox-eventbus: a daemon on each node of a Proxmox VE cluster that publishes what happens to the
-- guests on an embedded NATS bus.
--
-- The parts, and how they work together. The task watcher (internal/tasks) reads the file of the
-- active tasks each time that it changes, parses its lines, and sends an event for the start and for
-- the end of each task. The daemon (cmd/proxmox-eventbus/main.go, `runWatcher`) takes these events
-- one by one, remembers the start times, and lets the enricher (internal/enrich) make a CloudEvent of
-- each: the guest's configuration comes from internal/pmxcfs, the target of a migration from the
-- process's arguments or the task's log. A second source is the snapshot emitter (internal/snapshot),
-- which reports the state of every guest of the node in batches. The publisher gives each event its
-- subject (internal/events), and the bus (internal/bus) keeps its routes to the peers up to date.
--
-- The files, by the code that they model; functions keep their names in snake case:
--   Events, Events/*          internal/events/events.go
--   Tasks/Upid, Tasks/Status  internal/tasks/upid.go
--   Tasks/Workers             internal/tasks/workers.go
--   Tasks/Watcher             internal/tasks/watcher.go: the scans
--   Tasks/Synced              internal/tasks/watcher.go: `watchMigrationSynced`
--   Tasks/Run                 internal/tasks/watcher.go: `Run`
--   Tasks/LogFile             internal/tasks/logfile.go
--   Enrich/Target             internal/enrich/enrich.go: the arguments of a migration's process
--   Enrich/TaskLog            internal/enrich/enrich.go: the target in a task's log
--   Enrich/Lifecycle          internal/enrich/enrich.go: `Lifecycle` and the map of the targets
--   Enrich/Lifecycle/Sources  internal/enrich/enrich.go: the files that a target is read from
--   Enrich/Lifecycle/Polling  internal/enrich/enrich.go: the wait for a target, with its clock
--   Pmxcfs/VmConf             internal/pmxcfs/vmconf.go
--   Pmxcfs/Members            internal/pmxcfs/members.go
--   Bus/Routes                internal/bus/routes.go, and `routesToURLs` of internal/bus/server.go
--   Bus/Server, Bus/LogAdapter
--                             internal/bus/server.go, internal/bus/log_adapter.go
--   Snapshot/State            internal/snapshot/state.go
--   Snapshot/Qmp              internal/snapshot/qmp.go
--   Snapshot/Emitter          internal/snapshot/snapshot.go
--   Snapshot/Schedule         internal/snapshot/snapshot.go: `Run`
--   Tlsutil/Loader            internal/tlsutil/loader.go
--   Tlsutil/Issue             internal/tlsutil/issue.go
--   Config                    internal/config/config.go
--   Journal                   internal/journal/journal.go
--   Version                   internal/version/version.go
--   Tail                      cmd/proxmox-eventbus/tail.go
--   Main                      cmd/proxmox-eventbus/main.go
--   Main/Channel              cmd/proxmox-eventbus/main.go: the channel of events and the publisher loop
--   Main/Pipeline             cmd/proxmox-eventbus/main.go: the goroutines between the two channels
--   Main/Startup              cmd/proxmox-eventbus/main.go: `runDaemon`, and sd_notify.go
--   Main/Requests             cmd/proxmox-eventbus/main.go: the subscriptions for snapshot requests
--   Main/Logging              cmd/proxmox-eventbus/main.go: `slogLoggerAdapter`, with what reaches the journal
--   Main/Commands             cmd/proxmox-eventbus/main.go: `main`, and issue_client_cert.go
-- Strings, Strconv, Bufio and Filepath are what the program uses of Go's packages of these names. Prelude holds
-- the shared names, Examples the theorems at concrete inputs and tests by evaluation.
--
-- Conventions. A Go string is the list of its bytes. An int is an integer, with its 64 bits where a
-- parser checks them. A time is the nanoseconds since year 1, 0 for the zero time. A map is a function
-- from keys to optional values. What comes from outside (files, clocks, random identifiers, other processes) is
-- an argument. State is passed and returned: the map `known` of the watcher, the targets of the
-- enricher, the start times of `runWatcher`, the routes of the bus, the variables of the watcher's
-- loop, the pointers of the TLS loader, the channel of events, the file system that `IssueClientCert` writes to. Most loops
-- are over finite lists and are structural recursions. Three take fuel: the decimal digits of a number
-- (Strconv/Decimal), as many rounds as its value, which is enough since each round divides by ten; the
-- blocks of a PEM text (Tlsutil/Issue), one more than its bytes, which is enough since each block
-- leaves a shorter text; and the wait for a migration's target (Enrich/Lifecycle/Polling), two more
-- than the intervals in the wait, which is enough since each round sleeps for an interval.
--
-- The libraries are parameters: crypto/tls and crypto/x509 by the record `Crypto` and the arguments of
-- Tlsutil/Loader, the text of JSON (encoding/json) by the record `Decoders` of Tail, with its objects in Events/Json, the YAML decoder by an argument of
-- `load`, the NATS server by what its calls return and by which messages it delivers (Main/Requests).
-- What the goroutines of the daemon do in any order is the relation `Runs` of Main/Pipeline, and `Reach` where they begin with the daemon; an interleaving of the
-- lock sections of the watcher is the list of `Section`s in Tasks/Synced.
--
-- Not modelled: the parsing of flags, and the libraries: the texts of JSON and YAML, the NATS server, inotify.
pub mod Prelude
pub mod Strings
pub mod Strconv
pub mod Bufio
pub mod Filepath
pub mod Events
pub mod Tasks
pub mod Pmxcfs
pub mod Enrich
pub mod Bus
pub mod Config
pub mod Journal
pub mod Version
pub mod Snapshot
pub mod Tlsutil
pub mod Tail
pub mod Main
pub mod Examples
