-- ===== src/Tasks/Synced.antt =====
-- internal/tasks/watcher.go: `watchMigrationSynced`, in its lock sections.
--
-- A round of its loop looks at `known` in one lock section, reads the log without the lock, and
-- marks the UPID in a second one; in between, the scans and other such goroutines may change
-- `known`. What the log holds at each round is an argument.
pub mod Once
pub mod Late
pub mod Goroutine
use proxmox_eventbus.Prelude.{
  Bool, true, false, not, ◌&&◌, List, [], ◌∷◌, Option, none, some, Bytes, codes, if◌then◌else◌,
}
use proxmox_eventbus.Prelude.GoMap
use proxmox_eventbus.Strings.Affix.{contains}
use proxmox_eventbus.Events.{Time, phase_synced}
use proxmox_eventbus.Tasks.Upid.{Upid}
use proxmox_eventbus.Tasks.Workers.{worker_type_map}
use proxmox_eventbus.Tasks.Watcher.{
  UpidState, zero_state, Known, Observation, TaskEvent, next_state, collect_garbage,
}

-- `migrationSyncedMarker`
abbrev pub migration_synced_marker : Bytes
migration_synced_marker = codes "migration status: completed"

-- The first lock section: whether the goroutine goes on.
unfoldable pub goes_on : Option UpidState → Bool
goes_on none = false
goes_on (some st) = not st.finished_emitted

-- Whether the log is found, is read, and holds the marker.
unfoldable pub log_synced : Option Bytes → Bool
log_synced none = false
log_synced (some b) = contains b migration_synced_marker

-- The second lock section: what it stores, and whether the mark was there already.
unfoldable pub mark_synced : Bytes → Known → Known
mark_synced raw known =
    GoMap.set known raw (record (GoMap.get_or (known raw) zero_state) { synced_emitted = true })

unfoldable pub already_synced : Bytes → Known → Bool
already_synced raw known = (GoMap.get_or (known raw) zero_state).synced_emitted

-- The send behind it.
unfoldable pub synced_event : Upid → Time → Option TaskEvent
synced_event upid now = elim (worker_type_map upid.type) [
  | none ↦ none
  | some (kind, action) ↦ some (record {
    upid = upid;
    kind = kind;
    action = action;
    phase = phase_synced;
    status = [];
    obs_time = now;
  })
]

-- The end of a round: the goroutine returns, it waits for the next tick, or it marks the UPID.
pub data Round : Type 0 where
  return_now next_tick mark_now : Round

-- A round up to its second lock section.
unfoldable pub sync_round : Option UpidState → Option Bytes → Round
unfolding goes_on log_synced
sync_round st log =
    if not (goes_on st)
    then Round.return_now
    else if log_synced log
    then Round.mark_now
    else Round.next_tick

-- The lock sections that change `known`: of a scan at a line, of the collection behind the lines,
-- and of a goroutine.
pub data Section : Type 0 where
  line : Observation → Section
  collection : (Bytes → Bool) → Section
  marking : Upid → Section

unfoldable pub section_known : Section → Known → Known
unfolding next_state collect_garbage mark_synced
section_known (Section.line o) known =
    GoMap.set known o.upid.raw (next_state (GoMap.get_or (known o.upid.raw) zero_state) o.status)
section_known (Section.collection seen) known = collect_garbage seen known
section_known (Section.marking upid) known = mark_synced upid.raw known
