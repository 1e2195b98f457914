-- ===== src/Snapshot/Emitter.antt =====
-- internal/snapshot/snapshot.go: `emitBatch`, `snapshotEvent` and `send`.
--
-- A batch is the list of the events that are sent in order. What `events.New` and `time.Now` take
-- for the event at an index of the batch is an argument, as are the states, the configurations and
-- the places in the channel: a send finds room or drops its event.
pub mod Batch
pub mod Whole
use proxmox_eventbus.Prelude.{
  suc, ◌+◌, Bool, true, false, List, [], ◌∷◌, ◌++◌, Option, none, some, Bytes, codes, if◌then◌else◌,
  length, ℕ, ℤ, pos,
}
use proxmox_eventbus.Prelude.Result.{Result, ok, err}
use proxmox_eventbus.Events.{
  Time, Kind, kind_qemu, kind_lxc, State, EventData, zero_data, CloudEvent, action_state,
  phase_snapshot, type_for, type_snapshot_complete, source_for, subject_for, new,
}
use proxmox_eventbus.Pmxcfs.VmConf.{VmConfig, ConfigError}

pub record Emitter : Type 0 where
  pub cluster : Bytes
  pub node : Bytes

-- What one event takes from outside.
pub record Stamp : Type 0 where
  pub id : Bytes
  pub now : Time
  pub unix_nano : ℤ

-- What a batch takes from outside.
pub record BatchWorld : Type 0 where
  pub snapshot_id : Bytes
  pub stamp : ℕ → Stamp
  pub state : Kind → ℤ → State × Bytes
  pub config : Kind → ℤ → Result ConfigError VmConfig

-- the fields that the configuration fills
unfoldable pub add_names : Result ConfigError VmConfig → EventData → EventData
add_names (err _) d = d
add_names (ok cfg) d = record d { name = cfg.name; tags = cfg.tags }

-- `snapshotEvent`, for the guest at an index of the batch
unfoldable pub snapshot_event : Emitter → BatchWorld → ℕ → Kind → ℤ → CloudEvent
unfolding add_names
snapshot_event e world i kind vmid =
    let (state, detail) = world.state kind vmid in
    let stamp = world.stamp i in
    new stamp.id stamp.now (type_for kind action_state phase_snapshot) (source_for e.cluster e.node)
      (subject_for kind vmid)
      (add_names (world.config kind vmid) (record zero_data {
        cluster = e.cluster;
        node = e.node;
        kind = kind;
        vmid = vmid;
        action = action_state;
        phase = phase_snapshot;
        state = state;
        state_detail = detail;
        snapshot_id = world.snapshot_id;
        observed_at_ns = stamp.unix_nano;
      }))

-- the loop over the guests of a kind, from a count
unfoldable pub guest_events : Emitter → BatchWorld → Kind → ℕ → List ℤ → List CloudEvent × ℕ
unfolding snapshot_event
guest_events e world kind count [] = ([], count)
guest_events e world kind count (vmid ∷ vmids) =
    let (events, n) = guest_events e world kind (count + 1) vmids in
    (snapshot_event e world count kind vmid ∷ events, n)

unfoldable pub complete_event : Emitter → BatchWorld → ℕ → CloudEvent
complete_event e world count =
    let stamp = world.stamp count in
    new stamp.id stamp.now type_snapshot_complete (source_for e.cluster e.node)
      (codes "node/" ++ e.node)
      (record zero_data {
        cluster = e.cluster;
        node = e.node;
        snapshot_id = world.snapshot_id;
        snapshot_count = pos count;
        observed_at_ns = stamp.unix_nano;
      })

-- `emitBatch`, of what `VMList` returns: the events in the order of the sends
unfoldable pub emit_batch : Emitter → BatchWorld → Option (List ℤ × List ℤ) → List CloudEvent
unfolding guest_events complete_event
emit_batch e world none = []
emit_batch e world (some (qemu, lxc)) =
    let (qemu_events, m) = guest_events e world kind_qemu 0 qemu in
    let (lxc_events, n) = guest_events e world kind_lxc m lxc in
    qemu_events ++ (lxc_events ++ (complete_event e world n ∷ []))

-- `send`, for the events of a batch: whether each finds room in the channel
unfoldable pub deliver : (ℕ → Bool) → List CloudEvent → List CloudEvent
deliver room [] = []
deliver room (ev ∷ evs) =
    let rest = deliver (λ i. room (suc i)) evs in if room 0 then ev ∷ rest else rest
