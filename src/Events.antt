-- ===== src/Events.antt =====
-- internal/events/events.go: the vocabulary of the events, the CloudEvents envelope, and the NATS
-- subjects that the events are published under.
--
-- `Kind`, `Phase`, `Action` and `State` are Go string types: any text is a value of them, and the
-- empty text is their zero value. A `time.Time` is the nanoseconds since year 1, so 0 is the zero
-- time. What `uuid.NewString` and `time.Now` return is an argument of `new`.
pub mod Safe
pub mod Subject
pub mod Json
use Safe.{safe}
use proxmox_eventbus.Prelude.{ℕ, List, [], ◌++◌, Option, none, Bytes, codes, ℤ, pos}
use proxmox_eventbus.Strconv.Decimal.{format_int}

abbrev pub Time : Type 0
Time = ℕ

abbrev pub Kind : Type 0
Kind = Bytes

abbrev pub kind_qemu : Kind
kind_qemu = codes "qemu"

abbrev pub kind_lxc : Kind
kind_lxc = codes "lxc"

abbrev pub Phase : Type 0
Phase = Bytes

abbrev pub phase_started : Phase
phase_started = codes "started"

abbrev pub phase_finished : Phase
phase_finished = codes "finished"

abbrev pub phase_failed : Phase
phase_failed = codes "failed"

abbrev pub phase_snapshot : Phase
phase_snapshot = codes "snapshot"

abbrev pub phase_synced : Phase
phase_synced = codes "synced"

abbrev pub Action : Type 0
Action = Bytes

abbrev pub action_start : Action
action_start = codes "start"

abbrev pub action_stop : Action
action_stop = codes "stop"

abbrev pub action_shutdown : Action
action_shutdown = codes "shutdown"

abbrev pub action_reboot : Action
action_reboot = codes "reboot"

abbrev pub action_reset : Action
action_reset = codes "reset"

abbrev pub action_suspend : Action
action_suspend = codes "suspend"

abbrev pub action_resume : Action
action_resume = codes "resume"

abbrev pub action_migrate : Action
action_migrate = codes "migrate"

abbrev pub action_clone : Action
action_clone = codes "clone"

abbrev pub action_create : Action
action_create = codes "create"

abbrev pub action_destroy : Action
action_destroy = codes "destroy"

abbrev pub action_template : Action
action_template = codes "template"

abbrev pub action_state : Action
action_state = codes "state"

abbrev pub State : Type 0
State = Bytes

abbrev pub state_running : State
state_running = codes "running"

abbrev pub state_stopped : State
state_stopped = codes "stopped"

abbrev pub state_paused : State
state_paused = codes "paused"

abbrev pub state_suspended : State
state_suspended = codes "suspended"

abbrev pub state_unknown : State
state_unknown = codes "unknown"

pub record EventData : Type 0 where
  pub schema_version : Bytes
  pub cluster : Bytes
  pub node : Bytes
  pub kind : Kind
  pub vmid : ℤ
  pub name : Bytes
  pub tags : List Bytes
  pub description : Bytes
  pub hook_script : Bytes
  pub action : Action
  pub phase : Phase
  pub upid : Bytes
  pub user : Bytes
  pub source_node : Bytes
  pub target_node : Bytes
  pub duration_ms : Option ℤ
  pub exit_status : Bytes
  pub state : State
  pub state_detail : Bytes
  pub snapshot_id : Bytes
  pub observed_at_ns : ℤ
  pub snapshot_count : ℤ

-- `EventData{}`
abbrev pub zero_data : EventData
zero_data = record {
  schema_version = [];
  cluster = [];
  node = [];
  kind = [];
  vmid = pos 0;
  name = [];
  tags = [];
  description = [];
  hook_script = [];
  action = [];
  phase = [];
  upid = [];
  user = [];
  source_node = [];
  target_node = [];
  duration_ms = none;
  exit_status = [];
  state = [];
  state_detail = [];
  snapshot_id = [];
  observed_at_ns = pos 0;
  snapshot_count = pos 0;
}

pub record CloudEvent : Type 0 where
  pub spec_version : Bytes
  pub id : Bytes
  pub source : Bytes
  pub type : Bytes
  pub subject : Bytes
  pub time : Time
  pub data_content_type : Bytes
  pub event_data : EventData

abbrev pub type_namespace : Bytes
type_namespace = codes "dev.proxmox.eventbus"

-- `SubjectLifecycle`
unfoldable pub subject_lifecycle : Bytes → Bytes → Kind → ℤ → Action → Phase → Bytes
unfolding safe format_int
subject_lifecycle cluster node kind vmid action phase =
    codes "pve."
    ++ (safe cluster
        ++ codes "."
        ++ (safe node
            ++ codes "."
            ++ (kind
                ++ codes "."
                ++ (format_int vmid ++ codes "." ++ (action ++ codes "." ++ phase)))))

-- `SubjectSnapshotComplete`
unfoldable pub subject_snapshot_complete : Bytes → Bytes → Bytes
unfolding safe
subject_snapshot_complete cluster node =
    codes "pve." ++ (safe cluster ++ codes "." ++ (safe node ++ codes ".snapshot.complete"))

-- `SubjectSnapshotRequestCluster`
unfoldable pub subject_snapshot_request_cluster : Bytes → Bytes
unfolding safe
subject_snapshot_request_cluster cluster =
    codes "pve." ++ (safe cluster ++ codes ".snapshot.request")

-- `SubjectSnapshotRequestNode`
unfoldable pub subject_snapshot_request_node : Bytes → Bytes → Bytes
unfolding safe
subject_snapshot_request_node cluster node =
    codes "pve." ++ (safe cluster ++ codes "." ++ (safe node ++ codes ".snapshot.request"))

-- `TypeFor`
unfoldable pub type_for : Kind → Action → Phase → Bytes
type_for kind action phase =
    type_namespace ++ codes "." ++ (kind ++ codes "." ++ (action ++ codes "." ++ phase))

-- `TypeSnapshotComplete`
abbrev pub type_snapshot_complete : Bytes
type_snapshot_complete = type_namespace ++ codes ".snapshot.complete"

-- `SourceFor`
unfoldable pub source_for : Bytes → Bytes → Bytes
unfolding safe
source_for cluster node = codes "/pve/" ++ (safe cluster ++ codes "/" ++ safe node)

-- `SubjectFor`
unfoldable pub subject_for : Kind → ℤ → Bytes
unfolding format_int
subject_for kind vmid = kind ++ codes "/" ++ format_int vmid

-- `New`, with the new identifier and the current time.
unfoldable pub new : Bytes → Time → Bytes → Bytes → Bytes → EventData → CloudEvent
new id now type source subject d = record {
  spec_version = codes "1.0";
  id = id;
  source = source;
  type = type;
  subject = subject;
  time = now;
  data_content_type = codes "application/json";
  event_data = record d { schema_version = codes "1" };
}
