-- ===== src/Enrich/Lifecycle/Sources.antt =====
-- internal/enrich/enrich.go: where `Lifecycle` reads the target of a migration from: `procRoot`,
-- `tasksRoot`, and the reads of `migrateTarget` and `migrateTargetFromTaskLog`.
use proxmox_eventbus.Prelude.{
  ◌≡◌, ◌≢◌, ◌∙◌, true, false, List, [], ◌∷◌, ◌++◌, map, Option, none, some, Bytes, codes, ◌==◌,
  bytes_eq, bytes_beq, if◌then◌else◌, ℕ, All,
}
use proxmox_eventbus.Strconv.Decimal.{format_int}
use proxmox_eventbus.Events.{Time, action_migrate, phase_started}
use proxmox_eventbus.Tasks.Upid.{Upid}
use proxmox_eventbus.Tasks.Watcher.{TaskEvent}
use proxmox_eventbus.Tasks.LogFile.{Files, find_log_file}
use proxmox_eventbus.Enrich.Target.{first_of}
use proxmox_eventbus.Enrich.TaskLog.Lines.{
  IsQuiet, IsNodeName, starting_line, parse_log-starting_line,
}
use proxmox_eventbus.Enrich.Lifecycle.{
  Enricher, Inputs, migrate_target, migrate_target_from_task_log, resolve_migrate_target,
  is_terminal, lifecycle,
}
use proxmox_eventbus.Enrich.Lifecycle.Targets.{Call, run, Passes, terminal-target}

-- The two fields of `Enricher` that move the roots.
pub record Roots : Type 0 where
  pub proc : Bytes
  pub tasks : Bytes

-- The files at a moment.
pub record Disk : Type 0 where
  pub files : Files
  pub contents : Bytes → Option Bytes

-- `procRoot`
unfoldable pub proc_root : Roots → Bytes
proc_root r = if r.proc == [] then codes "/proc" else r.proc

-- `tasksRoot`
unfoldable pub tasks_root : Roots → Bytes
tasks_root r = if r.tasks == [] then codes "/var/log/pve/tasks" else r.tasks

-- the read of `migrateTarget`
unfoldable pub read_cmdline : Roots → Disk → Upid → Option Bytes
unfolding proc_root
read_cmdline r d upid =
    d.contents (proc_root r ++ codes "/" ++ (format_int upid.pid ++ codes "/cmdline"))

-- the read of `migrateTargetFromTaskLog`
unfoldable pub read_task_log : Roots → Disk → Upid → Option Bytes
unfolding tasks_root find_log_file bytes_beq
read_task_log r d upid =
    let file = find_log_file d.files (tasks_root r) upid.raw in
    if file == [] then none else d.contents file

-- What a call reads, of the files at its start and at each poll.
unfoldable pub with_reads : Roots → Disk → List Disk → Upid → Inputs → Inputs
unfolding read_cmdline read_task_log
with_reads r d polls upid world = record world {
  cmdline = read_cmdline r d upid;
  log = read_task_log r d upid;
  polls = map (λ later. read_task_log r later upid) polls;
}

-- The log of the task is found and begins with the line that names the node, behind a time stamp.
pub record LogNames (r : Roots) (d : Disk) (upid : Upid) (c : ℕ) (t : Bytes) : Type 0 where
  pub path : Bytes
  pub found : find_log_file d.files (tasks_root r) upid.raw ≡ path
  pub path_ne : bytes_beq path [] ≡ false
  pub stamp : Bytes
  pub id : ℕ
  pub rest : Bytes
  pub stamped : All IsQuiet stamp
  pub named : IsNodeName c t
  pub holds : d.contents path ≡ some (stamp ++ starting_line id (c ∷ t) rest)

task_log-names :
    (r : Roots) (d : Disk) (upid : Upid) (c : ℕ) (t : Bytes)
    → LogNames r d upid c t
    → migrate_target_from_task_log (read_task_log r d upid) ≡ c ∷ t
unfolding migrate_target_from_task_log read_task_log
task_log-names r d upid c t h =
    rw (h.found, h.path_ne, h.holds)
      (parse_log-starting_line h.stamp h.id c t h.rest h.stamped h.named)

resolve-names :
    (r : Roots) (d : Disk) (polls : List Disk) (ev : TaskEvent) (world : Inputs) (c : ℕ) (t : Bytes)
    → migrate_target (read_cmdline r d ev.upid) ≡ []
    → LogNames r d ev.upid c t
    → resolve_migrate_target ev (with_reads r d polls ev.upid world) ≡ c ∷ t
unfolding resolve_migrate_target with_reads first_of bytes_beq
resolve-names r d polls ev world c t h names = rw (h, task_log-names r d ev.upid c t names)

-- Let the arguments of the process of a migration, with a UPID that is not empty, give no target,
-- as where the HA manager runs it, and let its log be found and begin, behind a time stamp or other
-- text without the letter t or T, with the line `starting migration of VM <id> to node '<node>'`,
-- whose node is a letter or digit and then letters, digits, `.`, `_` and `-`, and accepted by
-- `looksLikeNode`. Then the started event carries that node. The terminal event, where it resolves
-- no target itself (the process is gone and its log is not found), behind any calls for other tasks
-- or for phases of this one in between, carries it too.
pub ha_migration-target :
    (r : Roots) (d : Disk) (polls : List Disk) (c : ℕ) (t : Bytes) (e : Enricher) (s f : TaskEvent)
    (ts tf : Time) (ws wf : Inputs) (between : List Call)
    → migrate_target (read_cmdline r d s.upid) ≡ []
    → LogNames r d s.upid c t
    → s.action ≡ action_migrate
    → s.phase ≡ phase_started
    → s.upid.raw ≢ []
    → All (Passes s.upid.raw) between
    → f.action ≡ action_migrate
    → is_terminal f ≡ true
    → f.upid.raw ≡ s.upid.raw
    → resolve_migrate_target f wf ≡ []
    → ((lifecycle e s ts (with_reads r d polls s.upid ws)).0.event_data.target_node ≡ c ∷ t)
      × ((lifecycle
            (run ((lifecycle e s ts (with_reads r d polls s.upid ws)).1) between)
            f
            tf
            wf).0.event_data.target_node
          ≡ c ∷ t)
ha_migration-target r d polls c t e s f ts tf ws wf between hc names ha hp hr hb fa ft fr fn =
    let resolved = resolve-names r d polls s ws c t hc names in
    let (first, last, _) =
      terminal-target e s f ts tf (with_reads r d polls s.upid ws) wf between ha hp hr
        (λ n. cc (n, resolved)) hb fa ft fr fn in
    (first ∙ resolved, last ∙ resolved)
