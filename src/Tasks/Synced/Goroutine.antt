-- ===== src/Tasks/Synced/Goroutine.antt =====
-- internal/tasks/watcher.go: the loop of `watchMigrationSynced`, of what it meets at each tick.
--
-- The path of the log file is kept once it is found. The list of the ticks ends where the context
-- is cancelled, or where nothing more has happened yet.
use proxmox_eventbus.Prelude.{
  ◌≡◌, Bool, true, false, not, List, [], ◌∷◌, Option, none, Bytes, ◌==◌, bytes_eq, if◌then◌else◌,
  ◌⊎◌,
}
use proxmox_eventbus.Events.{Time}
use proxmox_eventbus.Tasks.Upid.{Upid}
use proxmox_eventbus.Tasks.Watcher.{UpidState, TaskEvent}
use proxmox_eventbus.Tasks.LogFile.{Files, find_log_file}
use proxmox_eventbus.Tasks.Synced.{goes_on, log_synced, synced_event}

-- What a round meets: the UPID's entry of `known` in the first lock section, the files, whether the
-- mark is set already in the second one, and the clock at the send.
pub record Tick : Type 0 where
  pub state : Option UpidState
  pub files : Files
  pub contents : Bytes → Option Bytes
  pub already : Bool
  pub now : Time

-- The goroutine waits for the next tick, with the path that it keeps, or it has returned, with the
-- event that it has sent.
pub data SyncOutcome : Type 0 where
  waits : Bytes → SyncOutcome
  returned : Option TaskEvent → SyncOutcome

-- the log of a round; a path that is empty is not read
unfoldable pub log_of : Tick → Bytes → Option Bytes
log_of t file = if file == [] then none else t.contents file

unfoldable pub keep_or_find : Bytes → Upid → Bytes → Tick → Bytes
unfolding find_log_file
keep_or_find dir upid file t = if file == [] then find_log_file t.files dir upid.raw else file

-- behind the second lock section
unfoldable pub sent : Upid → Tick → Option TaskEvent
unfolding synced_event
sent upid t = if t.already then none else synced_event upid t.now

unfoldable pub watch_migration_synced : Bytes → Upid → Bytes → List Tick → SyncOutcome
unfolding goes_on log_synced log_of keep_or_find sent
watch_migration_synced dir upid file [] = waits file
watch_migration_synced dir upid file (t ∷ ticks) =
    let next = keep_or_find dir upid file t in
    let later = watch_migration_synced dir upid next ticks in
    if not (goes_on t.state)
    then returned none
    else if log_synced (log_of t next)
    then returned (sent upid t)
    else later

-- Where the task's log file is found at all, it is found at the path.
abbrev pub FoundAt : Bytes → Bytes → Upid → Tick → Type 0
FoundAt path dir upid t =
    (find_log_file t.files dir upid.raw ≡ []) ⊎ (find_log_file t.files dir upid.raw ≡ path)

-- A tick at which the task runs and its log does not hold the marker.
pub record IsQuiet (path dir : Bytes) (upid : Upid) (t : Tick) : Type 0 where
  pub runs : goes_on t.state ≡ true
  pub found : FoundAt path dir upid t
  pub unmarked : log_synced (t.contents path) ≡ false

-- A tick at which the task has ended, or its log is found and holds the marker.
abbrev pub Decides : Bytes → Bytes → Upid → Tick → Type 0
Decides path dir upid t =
    (goes_on t.state ≡ false)
    ⊎ ((find_log_file t.files dir upid.raw ≡ path) × (log_synced (t.contents path) ≡ true))

-- What the goroutine does at that tick.
unfoldable pub decision : Upid → Tick → SyncOutcome
decision upid t = if goes_on t.state then returned (sent upid t) else returned none

-- Nothing is found yet, or the path is kept.
abbrev Kept : Bytes → Bytes → Type 0
Kept path file = (file ≡ []) ⊎ (file ≡ path)
