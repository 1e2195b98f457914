-- ===== src/Snapshot/State.antt =====
-- internal/snapshot/state.go: `Prober` with `QEMUState`, `LXCState` and what they call.
--
-- What the system calls give is an argument. The text of an error is what Go prints of it. The
-- exchange with the QMP socket (internal/snapshot/qmp.go) gives a status, or none on an error.
use proxmox_eventbus.Prelude.{
  ◌*◌, Bool, true, false, ◌&&◌, ◌||◌, List, [], ◌∷◌, ◌++◌, Option, none, some, Bytes, codes, ◌==◌,
  nat_eq, bytes_eq, bytes_beq, leb, if◌then◌else◌, ℤ, pos, negsuc,
}
use proxmox_eventbus.Strings.Space.{trim_space}
use proxmox_eventbus.Strconv.{atoi}
use proxmox_eventbus.Strconv.Decimal.{format_int}
use proxmox_eventbus.Bufio.{FileRead, scan_lines}
use proxmox_eventbus.Events.{
  State, state_running, state_stopped, state_paused, state_suspended, state_unknown,
}

-- `Prober`
pub record Prober : Type 0 where
  pub run_dir : Bytes
  pub cgroup_v2 : Bytes
  pub proc_root : Bytes
  pub use_qmp : Bool

unfoldable pub run_dir_or_default : Prober → Bytes
unfolding bytes_beq
run_dir_or_default p = if p.run_dir == [] then codes "/run" else p.run_dir

unfoldable pub cgroup_root : Prober → Bytes
unfolding bytes_beq
cgroup_root p = if p.cgroup_v2 == [] then codes "/sys/fs/cgroup" else p.cgroup_v2

-- What `os.Stat` gives.
pub data Stat : Type 0 where
  exists : Stat
  not_exists : Stat
  stat_error : Bytes → Stat

-- What `kill(pid, 0)` gives.
pub data Kill : Type 0 where
  delivered no_permission no_process : Kill

-- What a probe of a virtual machine meets.
pub record QemuWorld : Type 0 where
  pub stat : Stat
  -- the pid file, none if it cannot be opened
  pub pid_file : Option FileRead
  pub proc_entry : ℤ → Bool
  pub kill : ℤ → Kill
  pub qmp : Option Bytes

-- the run of digits at the front
unfoldable pub digit_run : Bytes → Bytes
digit_run [] = []
digit_run (c ∷ s) = if leb b'0' c && leb c b'9' then c ∷ digit_run s else []

-- `fmt.Sscanf(s, "%d", &pid)`, which does not look at what follows the number
unfoldable pub scan_int : Bytes → Option ℤ
unfolding digit_run
scan_int [] = none
scan_int (c ∷ s) =
    if c == b'+' || c == b'-' then atoi (c ∷ digit_run s) else atoi (digit_run (c ∷ s))

pub data PidRead : Type 0 where
  pid_of : ℤ → PidRead
  stale_pid : PidRead
  other_error : PidRead

unfoldable pub first_line_pid : List Bytes × Bool → PidRead
unfolding scan_int
first_line_pid ([], _) = stale_pid
first_line_pid (line ∷ _, _) = elim (scan_int (trim_space line)) [
  | none ↦ stale_pid
  | some pid ↦ pid_of pid
]

-- `readPID`
unfoldable pub read_pid : Option FileRead → PidRead
unfolding first_line_pid
read_pid none = other_error
read_pid (some r) = first_line_pid (scan_lines (64 * 1024) r)

-- `pid <= 1`
unfoldable pub at_most_one : ℤ → Bool
at_most_one (pos n) = leb n 1
at_most_one (negsuc n) = true

unfoldable pub may_exist : Kill → Bool
may_exist delivered = true
may_exist no_permission = true
may_exist no_process = false

-- `processAlive`
unfoldable pub process_alive : Prober → QemuWorld → ℤ → Bool
unfolding at_most_one may_exist bytes_beq
process_alive p world pid =
    if at_most_one pid
    then false
    else if p.proc_root == []
    then may_exist (world.kill pid)
    else world.proc_entry pid

-- `mapQMPStatus`
unfoldable pub map_qmp_status : Bytes → State
unfolding bytes_beq
map_qmp_status s =
    if s == codes "running"
    then state_running
    else if s == codes "paused" || s == codes "prelaunch"
    then state_paused
    else if s == codes "suspended"
    then state_suspended
    else state_unknown

unfoldable pub qmp_state : Option Bytes → State
unfolding map_qmp_status
qmp_state none = state_running
qmp_state (some s) = map_qmp_status s

-- `QEMUState` behind the read of the pid
unfoldable pub pid_state : Prober → QemuWorld → PidRead → State
unfolding process_alive qmp_state
pid_state p world stale_pid = state_stopped
pid_state p world other_error = state_running
pid_state p world (pid_of pid) =
    if process_alive p world pid
    then if p.use_qmp then qmp_state world.qmp else state_running
    else state_stopped

unfoldable pub stat_state : Prober → QemuWorld → Bytes → Stat → State × Bytes
unfolding pid_state read_pid
stat_state p world path not_exists = (state_stopped, [])
stat_state p world path (stat_error e) = (state_unknown, codes "stat " ++ (path ++ codes ": " ++ e))
stat_state p world path exists = (pid_state p world (read_pid world.pid_file), [])

-- `QEMUState`
unfoldable pub qemu_state : Prober → QemuWorld → ℤ → State × Bytes
unfolding run_dir_or_default stat_state
qemu_state p world vmid =
    stat_state p world
      (run_dir_or_default p ++ codes "/qemu-server/" ++ (format_int vmid ++ codes ".pid"))
      world.stat

-- What `os.ReadFile` gives.
pub data CgroupRead : Type 0 where
  procs : Bytes → CgroupRead
  no_file : CgroupRead
  read_error : Bytes → CgroupRead

abbrev pub cgroup_paths : Bytes → ℤ → List Bytes
cgroup_paths root vmid =
    (root ++ codes "/lxc/" ++ (format_int vmid ++ codes "/cgroup.procs"))
    ∷ (root ++ codes "/lxc.payload-" ++ (format_int vmid ++ codes "/cgroup.procs"))
    ∷ (root ++ codes "/lxc.payload." ++ (format_int vmid ++ codes "/cgroup.procs"))
    ∷ []

-- what one round of the loop returns, none to go on
unfoldable pub cgroup_state : Bytes → CgroupRead → Option (State × Bytes)
unfolding bytes_beq
cgroup_state path no_file = none
cgroup_state path (read_error e) = some (state_unknown, codes "read " ++ (path ++ codes ": " ++ e))
cgroup_state path (procs b) = some (if trim_space b == [] then state_stopped else state_running, [])

unfoldable pub first_cgroup : (Bytes → CgroupRead) → List Bytes → State × Bytes
unfolding cgroup_state
first_cgroup read [] = (state_stopped, [])
first_cgroup read (path ∷ paths) = elim (cgroup_state path (read path)) [
  | none ↦ first_cgroup read paths
  | some r ↦ r
]

-- `LXCState`
unfoldable pub lxc_state : Prober → (Bytes → CgroupRead) → ℤ → State × Bytes
unfolding cgroup_root first_cgroup
lxc_state p read vmid = first_cgroup read (cgroup_paths (cgroup_root p) vmid)
