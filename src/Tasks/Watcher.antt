-- ===== src/Tasks/Watcher.antt =====
-- internal/tasks/watcher.go: `NewWatcher`, `parseAll`, `scan`, `relevantPath` and `isOK`.
--
-- Sends on the event channel block until there is room, so what the channel delivers is the list of
-- the events in the order of the sends. A scan is modelled by what it does to `known` and the list
-- of its effects: the sends, and the start of a goroutine for a migration. What such a goroutine
-- (`watchMigrationSynced`) does to `known` in the meantime is left to Tasks/Synced.
pub mod Protocol
pub mod Settled
pub mod Rescan
pub mod Vocabulary
pub mod Kinds
use proxmox_eventbus.Prelude.{
  ℕ, ◌*◌, ◌≡◌, refl, Bool, true, false, not, ◌&&◌, ◌||◌, List, [], ◌∷◌, ◌++◌, Option, none, some,
  Bytes, codes, ◌==◌, bytes_eq, bytes_beq, if◌then◌else◌,
}
use proxmox_eventbus.Prelude.GoMap
use proxmox_eventbus.Prelude.GoMap.{GoMap}
use proxmox_eventbus.Prelude.Result.{Result, ok, err}
use proxmox_eventbus.Strings.Affix.{has_prefix, has_suffix}
use proxmox_eventbus.Bufio.{FileRead, scan_lines}
use proxmox_eventbus.Events.{
  Time, Kind, kind_qemu, kind_lxc, Action, action_migrate, Phase, phase_started, phase_finished,
  phase_failed,
}
use proxmox_eventbus.Tasks.Upid.{Upid, parse_active_line}
use proxmox_eventbus.Tasks.Workers.{worker_type_map}

-- `tasks.Event`
pub record TaskEvent : Type 0 where
  pub upid : Upid
  pub kind : Kind
  pub action : Action
  pub phase : Phase
  pub status : Bytes
  pub obs_time : Time

-- `upidState`
pub record UpidState : Type 0 where
  pub started_emitted : Bool
  pub finished_emitted : Bool
  pub synced_emitted : Bool

abbrev pub zero_state : UpidState
zero_state = record { started_emitted = false; finished_emitted = false; synced_emitted = false }

abbrev pub Known : Type 0
Known = GoMap UpidState

-- The fields of `Watcher` that its methods read and write.
pub record Watcher : Type 0 where
  pub include : Kind → Bool
  pub known : Known

-- the loop over `include`
include_only : List Kind → Kind → Bool
include_only [] k = false
include_only (i ∷ is) k = k == i || include_only is k

-- `NewWatcher`
unfoldable pub new_watcher : List Kind → Watcher
unfolding include_only
new_watcher [] = record { include = include_only (kind_qemu ∷ kind_lxc ∷ []); known = GoMap.empty }
new_watcher (i ∷ is) = record { include = include_only (i ∷ is); known = GoMap.empty }

-- What a scan does besides its changes of `known`.
pub data Effect : Type 0 where
  send : TaskEvent → Effect
  watch : Upid → Effect

-- `isOK`
unfoldable pub is_ok : Bytes → Bool
is_ok status = status == codes "OK" || has_prefix status (codes "OK")

-- A line that passes the filters.
pub record Observation : Type 0 where
  pub upid : Upid
  pub kind : Kind
  pub action : Action
  pub status : Bytes

-- The filters of the loop: lines that are empty, that do not parse, whose type is not published, or
-- whose kind is not included are skipped.
unfoldable pub observe : (Kind → Bool) → Bytes → Option Observation
observe include line = if line == [] then none else elim (parse_active_line line) [
  | err _ ↦ none
  | ok (upid, status) ↦ elim (worker_type_map upid.type) [
    | none ↦ none
    | some (kind, action) ↦
        if include kind
        then some (record { upid = upid; kind = kind; action = action; status = status })
        else none
  ]
]

unfoldable pub emits_start : UpidState → Bool
emits_start st = not st.started_emitted

unfoldable pub emits_end : UpidState → Bytes → Bool
emits_end st status = not (status == []) && not st.finished_emitted

-- The state that the lock section stores.
unfoldable pub next_state : UpidState → Bytes → UpidState
unfolding emits_start emits_end
next_state st status = record {
  started_emitted = if emits_start st then true else st.started_emitted;
  finished_emitted = if emits_end st status then true else st.finished_emitted;
  synced_emitted = st.synced_emitted;
}

start_effects : Observation → Time → List Effect
start_effects o obs =
    send (record {
      upid = o.upid;
      kind = o.kind;
      action = o.action;
      phase = phase_started;
      status = [];
      obs_time = obs;
    })
    ∷ (if o.kind == kind_qemu && o.action == action_migrate then watch o.upid ∷ [] else [])

end_phase : Bytes → Phase
end_phase status = if is_ok status then phase_finished else phase_failed

end_effects : Observation → Time → List Effect
unfolding end_phase
end_effects o obs =
    send (record {
      upid = o.upid;
      kind = o.kind;
      action = o.action;
      phase = end_phase o.status;
      status = o.status;
      obs_time = obs;
    })
    ∷ []

-- The effects behind the lock section.
unfoldable pub line_effects : UpidState → Observation → Time → List Effect
unfolding emits_start emits_end start_effects end_effects
line_effects st o obs =
    (if emits_start st then start_effects o obs else [])
    ++ (if emits_end st o.status then end_effects o obs else [])

-- The variables of the loop, with the effects so far.
pub record Scan : Type 0 where
  pub known : Known
  pub seen : Bytes → Bool
  pub effects : List Effect

-- What a scan does with a line that passes the filters.
unfoldable pub absorb : Time → Observation → Scan → Scan
unfolding next_state line_effects
absorb obs o s =
    let st = GoMap.get_or (s.known o.upid.raw) zero_state in
    record {
      known = GoMap.set s.known o.upid.raw (next_state st o.status);
      seen = λ k. k == o.upid.raw || s.seen k;
      effects = s.effects ++ line_effects st o obs;
    }

-- One round of the loop over the lines.
unfoldable pub scan_line : (Kind → Bool) → Time → Bytes → Scan → Scan
unfolding observe absorb
scan_line include obs line s = elim (observe include line) [ none ↦ s | some o ↦ absorb obs o s ]

unfoldable pub scan_all : (Kind → Bool) → Time → List Bytes → Scan → Scan
unfolding scan_line
scan_all include obs [] s = s
scan_all include obs (line ∷ lines) s = scan_all include obs lines (scan_line include obs line s)

-- The deletion of the UPIDs that are gone from the file and were terminated.
unfoldable pub collect_garbage : (Bytes → Bool) → Known → Known
collect_garbage seen known k = elim (known k) [
  | none ↦ none
  | some st ↦ if not (seen k) && st.finished_emitted then none else some st
]

abbrev pub max_line : ℕ
max_line = 512 * 1024

pub record ScanResult : Type 0 where
  pub watcher : Watcher
  pub effects : List Effect
  pub failed : Bool

abbrev pub begin : Known → Scan
begin known = record { known = known; seen = λ k. false; effects = [] }

-- `parseAll`
unfoldable pub parse_all : Watcher → Time → FileRead → ScanResult
unfolding scan_all collect_garbage scan_lines
parse_all w obs r =
    let (lines, all_read) = scan_lines max_line r in
    let s = scan_all w.include obs lines (begin w.known) in
    record {
      watcher = record w { known = if all_read then collect_garbage s.seen s.known else s.known };
      effects = s.effects;
      failed = not all_read;
    }

-- `scan`, with what opening the active file gives.
unfoldable pub scan : Watcher → Time → Option FileRead → ScanResult
unfolding parse_all
scan w obs none = record { watcher = w; effects = []; failed = true }
scan w obs (some r) = parse_all w obs r

-- `relevantPath`
unfoldable pub relevant_path : Bytes → Bytes → Bool
relevant_path p active_path = p == active_path || has_suffix p (codes "/active")
