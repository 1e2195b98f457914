-- ===== src/Enrich/Lifecycle.antt =====
-- internal/enrich/enrich.go: `Enricher`, `Lifecycle`, `resolveMigrateTarget` and the map of the
-- targets.
--
-- A nil map and an empty one behave the same, so `migrateTargets` is a map. What the outside gives
-- to a call is an argument: the VM's configuration, the reads of the process's command line and of
-- the task's log file, the time since the start, and what `events.New` takes.
pub mod Targets
pub mod Polling
pub mod Sources
use proxmox_eventbus.Prelude.{
  ℕ, suc, ◌/◌, ◌^◌, Bool, true, false, not, ◌&&◌, ◌||◌, List, [], ◌∷◌, Option, none, some, Bytes,
  codes, ◌==◌, nat_eq, bytes_eq, bytes_beq, if◌then◌else◌, ℤ, pos, negsuc, neg_ℕ, sub_ℕ,
}
use proxmox_eventbus.Prelude.GoMap
use proxmox_eventbus.Prelude.GoMap.{GoMap}
use proxmox_eventbus.Prelude.Result.{Result, ok, err}
use proxmox_eventbus.Events.{
  Time, EventData, zero_data, CloudEvent, action_migrate, phase_started, phase_finished,
  phase_failed, type_for, source_for, subject_for, new,
}
use proxmox_eventbus.Pmxcfs.VmConf.{VmConfig, ConfigError}
use proxmox_eventbus.Tasks.Upid.{vmid}
use proxmox_eventbus.Tasks.Watcher.{TaskEvent}
use proxmox_eventbus.Enrich.Target.{first_of, parse_migrate_target, split_cmdline}
use proxmox_eventbus.Enrich.TaskLog.{parse_migrate_target_from_log}

-- The fields of `Enricher` that name the node, and its map.
pub record Enricher : Type 0 where
  pub cluster : Bytes
  pub node : Bytes
  pub migrate_targets : GoMap Bytes

-- What a call of `Lifecycle` gets from outside.
pub record Inputs : Type 0 where
  -- of `ReadVMConfig`
  pub config : Result ConfigError VmConfig
  -- of the process, if it still exists
  pub cmdline : Option Bytes
  -- the log file of the task, if it is found and read
  pub log : Option Bytes
  -- the same, at each poll before the deadline
  pub polls : List (Option Bytes)
  -- the clock that `time.Since` reads
  pub clock : Time
  pub id : Bytes
  pub now : Time

-- `Milliseconds`, which cuts towards zero
unfoldable pub milliseconds : ℤ → ℤ
milliseconds (pos n) = pos (n / 10 ^ 6)
milliseconds (negsuc n) = neg_ℕ (suc n / 10 ^ 6)

-- `migrateTarget`
unfoldable pub migrate_target : Option Bytes → Bytes
migrate_target none = []
migrate_target (some cmdline) = parse_migrate_target (split_cmdline cmdline)

-- `migrateTargetFromTaskLog`
unfoldable pub migrate_target_from_task_log : Option Bytes → Bytes
migrate_target_from_task_log none = []
migrate_target_from_task_log (some b) = parse_migrate_target_from_log b

-- the loop up to the deadline
unfoldable pub poll_target : List (Option Bytes) → Bytes
unfolding migrate_target_from_task_log first_of
poll_target [] = []
poll_target (log ∷ logs) = first_of (migrate_target_from_task_log log) (poll_target logs)

-- `resolveMigrateTarget`
unfoldable pub resolve_migrate_target : TaskEvent → Inputs → Bytes
unfolding migrate_target migrate_target_from_task_log poll_target first_of
resolve_migrate_target ev world = first_of (migrate_target world.cmdline) (
    first_of (migrate_target_from_task_log world.log)
      (if not (ev.phase == phase_started) then [] else poll_target world.polls))

-- `rememberMigrateTarget`
unfoldable pub remember : Bytes → Bytes → GoMap Bytes → GoMap Bytes
remember raw target m = if raw == [] || target == [] then m else GoMap.set m raw target

-- `recallMigrateTarget`
unfoldable pub recall : Bytes → GoMap Bytes → Bytes
recall raw m = GoMap.get_or (m raw) []

-- `forgetMigrateTarget`
unfoldable pub forget : Bytes → GoMap Bytes → GoMap Bytes
forget raw m = GoMap.delete m raw

unfoldable pub is_terminal : TaskEvent → Bool
is_terminal ev = ev.phase == phase_finished || ev.phase == phase_failed

-- the target of a migration: the one that is resolved, or the one that is remembered
unfoldable pub event_target : GoMap Bytes → TaskEvent → Inputs → Bytes
unfolding resolve_migrate_target recall first_of
event_target m ev world = first_of (resolve_migrate_target ev world) (recall ev.upid.raw m)

-- what the branch for a migration does to the map: whether the phase is `started`, whether it is a
-- terminal one, the UPID, and the target
unfoldable pub update_targets : Bool → Bool → Bytes → Bytes → GoMap Bytes → GoMap Bytes
unfolding remember forget bytes_beq
update_targets started terminal raw target m =
    let kept = if not (target == []) && started then remember raw target m else m in
    if terminal then forget raw kept else kept

unfoldable pub next_targets : GoMap Bytes → TaskEvent → Inputs → GoMap Bytes
unfolding update_targets is_terminal event_target
next_targets m ev world =
    update_targets (ev.phase == phase_started) (is_terminal ev) ev.upid.raw
      (event_target m ev world) m

-- the fields that the VM's configuration fills
unfoldable pub add_config : Result ConfigError VmConfig → EventData → EventData
add_config (err _) d = d
add_config (ok cfg) d = record d {
  name = cfg.name;
  tags = cfg.tags;
  description = cfg.description;
  hook_script = cfg.hook_script;
}

-- the fields of the branch for a terminal event
unfoldable pub add_end : TaskEvent → Time → Inputs → EventData → EventData
unfolding milliseconds
add_end ev task_start world d = record d {
  duration_ms =
      if not (task_start == 0)
      then some (milliseconds (sub_ℕ world.clock task_start))
      else d.duration_ms;
  exit_status = ev.status;
}

abbrev pub base_data : Enricher → TaskEvent → EventData
base_data e ev = record zero_data {
  cluster = e.cluster;
  node = e.node;
  kind = ev.kind;
  vmid = vmid ev.upid;
  action = ev.action;
  phase = ev.phase;
  upid = ev.upid.raw;
  user = ev.upid.user;
  source_node = e.node;
}

-- `data` behind the first two blocks
unfoldable pub add_target : Enricher → TaskEvent → Inputs → EventData → EventData
unfolding event_target
add_target e ev world d =
    if ev.action == action_migrate
    then record d { target_node = event_target e.migrate_targets ev world }
    else d

unfoldable pub lifecycle_data : Enricher → TaskEvent → Time → Inputs → EventData
unfolding add_config add_target add_end is_terminal
lifecycle_data e ev task_start world =
    let d = add_target e ev world (add_config world.config (base_data e ev)) in
    if is_terminal ev then add_end ev task_start world d else d

-- `Lifecycle`: the event, and the enricher behind the call.
unfoldable pub lifecycle : Enricher → TaskEvent → Time → Inputs → CloudEvent × Enricher
unfolding next_targets lifecycle_data
lifecycle e ev task_start world = (
  new world.id world.now (type_for ev.kind ev.action ev.phase) (source_for e.cluster e.node)
      (subject_for ev.kind (vmid ev.upid)) (lifecycle_data e ev task_start world),
  record e {
    migrate_targets =
        if ev.action == action_migrate
        then next_targets e.migrate_targets ev world
        else e.migrate_targets;
  },
)
