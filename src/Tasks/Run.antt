-- ===== src/Tasks/Run.antt =====
-- internal/tasks/watcher.go: `Run`, one round of its `select` at a time.
--
-- What a round receives is an input: a cancellation, an error or an event of inotify, or the timer
-- with what opening the active file then gives. The timer is modelled by whether it is armed: it
-- fires only then. `ev.Op&fsnotify.Create` and the path of the event come with it.
pub mod Debounce
use proxmox_eventbus.Prelude.{
  Bool, true, false, not, ◌&&◌, ◌||◌, List, [], ◌∷◌, ◌++◌, map, Option, none, some, Bytes, ◌==◌,
  bytes_eq, if◌then◌else◌, codes,
}
use proxmox_eventbus.Bufio.{FileRead}
use proxmox_eventbus.Filepath.{join_path}
use proxmox_eventbus.Events.{Time}
use proxmox_eventbus.Tasks.Watcher.{Watcher, Effect, ScanResult, parse_all, scan, relevant_path}

-- What `os.Open` gives.
pub data Opened : Type 0 where
  opened : FileRead → Opened
  not_exist : Opened
  open_error : Opened

-- What the loop does besides its changes of the watcher.
pub data RunEffect : Type 0 where
  emit : Effect → RunEffect
  add_active : RunEffect

-- The variables of the loop, and whether the timer is armed.
pub record Loop : Type 0 where
  pub watcher : Watcher
  pub active_path : Bytes
  pub pending : Bool
  pub armed : Bool

pub data Input : Type 0 where
  cancelled : Input
  errors_closed : Input
  inotify_error : Bool → Input
  events_closed : Input
  file_event : Bytes → Bool → Input
  debounce_fired : Time → Opened → Input

-- Why the loop returned.
pub data Stop : Type 0 where
  setup_failed ctx_done channel_closed inotify_failed scan_failed : Stop

pub data RunResult : Type 0 where
  go_on : Loop → List RunEffect → RunResult
  stop : Stop → List RunEffect → RunResult

-- `w.scan(...)`, with whether `err != nil && !errors.Is(err, fs.ErrNotExist)`
unfoldable pub scan_opened : Watcher → Time → Opened → ScanResult × Bool
scan_opened w now (opened r) = let s = scan w now (some r) in (s, s.failed)
scan_opened w now not_exist = (scan w now none, false)
scan_opened w now open_error = (scan w now none, true)

-- behind a scan
unfoldable pub scanned : Loop → ScanResult × Bool → RunResult
scanned l (s, true) = stop scan_failed (map emit s.effects)
scanned l (s, false) = go_on (record l { watcher = s.watcher }) (map emit s.effects)

-- `debounce.Reset` under its guard
unfoldable pub arm : Loop → Loop
arm l = if not l.pending then record l { pending = true; armed = true } else l

-- One round of the loop.
unfoldable pub run_step : Loop → Input → RunResult
unfolding scan_opened scanned arm
run_step l cancelled = stop ctx_done []
run_step l errors_closed = stop channel_closed []
run_step l (inotify_error true) = stop inotify_failed []
run_step l (inotify_error false) = go_on l []
run_step l events_closed = stop channel_closed []
run_step l (file_event name create) =
    if not (relevant_path name l.active_path)
    then go_on l []
    else go_on (arm l) (if create && name == l.active_path then add_active ∷ [] else [])
run_step l (debounce_fired now file) =
    scanned (record l { pending = false; armed = false }) (scan_opened l.watcher now file)

-- The loop before its first round.
abbrev pub loop_start : Watcher → Bytes → Loop
loop_start w tasks_dir = record {
  watcher = w;
  active_path = join_path tasks_dir (codes "active");
  pending = false;
  armed = false;
}

-- The part of `Run` in front of the loop: whether inotify watches the directory, whether the active
-- file exists and could be added to it, and the initial scan.
unfoldable pub run_setup : Watcher → Bytes → Bool → Bool → Bool → Time → Opened → RunResult
unfolding scan_opened scanned
run_setup w tasks_dir watches_dir active_exists watches_active now file =
    if not watches_dir || active_exists && not watches_active
    then stop setup_failed []
    else scanned (loop_start w tasks_dir) (scan_opened w now file)

unfoldable pub prepend : List RunEffect → RunResult → RunResult
prepend es (go_on l fs) = go_on l (es ++ fs)
prepend es (stop why fs) = stop why (es ++ fs)

-- The rounds over a list of inputs, from what the rounds before them gave.
unfoldable pub run_loop : RunResult → List Input → RunResult
unfolding run_step prepend
run_loop (stop why es) ins = stop why es
run_loop (go_on l es) [] = go_on l es
run_loop (go_on l es) (i ∷ ins) = prepend es (run_loop (run_step l i) ins)
