-- ===== src/Examples/Qmp.antt =====
-- A conversation with the QMP socket, and one with an event in it.
use proxmox_eventbus.Prelude.{
  ◌≡◌, refl, true, false, [], ◌∷◌, Option, none, some, Bytes, codes, pos, ◌==◌, bytes_eq, bytes_beq,
  if◌then◌else◌,
}
use proxmox_eventbus.Bufio.{scan_lines}
use proxmox_eventbus.Strings.Space.{trim_space}
use proxmox_eventbus.Strings.Split.{split}
use proxmox_eventbus.Strings.Affix.{trim_suffix, has_prefix}
use proxmox_eventbus.Strconv.{atoi}
use proxmox_eventbus.Events.{state_paused, state_unknown}
use proxmox_eventbus.Snapshot.State.{
  Prober, QemuWorld, exists, delivered, read_pid, process_alive, map_qmp_status, qemu_state,
}
use proxmox_eventbus.Snapshot.Qmp.{Reply, Socket, asked_status}
use proxmox_eventbus.Snapshot.Qmp.ThirdLine.{IsAsked, answered_state, qemu_state-third}

abbrev plain : Reply
plain = record { returned = none }

abbrev acknowledged : Reply
acknowledged = record { returned = some none }

abbrev paused : Reply
paused = record { returned = some (some (codes "paused")) }

-- A decoder of four texts.
abbrev decode : Bytes → Option Reply
decode line =
    if line == codes "ack"
    then some acknowledged
    else if line == codes "answer"
    then some paused
    else some plain

abbrev prober : Prober
prober = record { run_dir = []; cgroup_v2 = []; proc_root = []; use_qmp = true }

abbrev calm : Socket
calm = record {
  dials = true;
  accepts_capabilities = true;
  accepts_query = true;
  lines = codes "greeting" ∷ codes "ack" ∷ codes "answer" ∷ [];
}

-- QEMU reports an event in front of its acknowledgement.
abbrev lively : Socket
lively = record calm {
  lines = codes "greeting" ∷ codes "event" ∷ codes "ack" ∷ codes "answer" ∷ [];
}

abbrev world : Socket → QemuWorld
world s = record {
  stat = exists;
  pid_file = some (record { content = codes "4660\n"; fault = false });
  proc_entry = λ pid. false;
  kill = λ pid. delivered;
  qmp = asked_status decode s;
}

calm-IsAsked : IsAsked prober (world calm) calm
unfolding read_pid process_alive scan_lines split trim_space trim_suffix atoi has_prefix bytes_beq
calm-IsAsked = record {
  pid = pos 4660;
  has_file = refl;
  has_pid = refl;
  is_alive = refl;
  uses_qmp = refl;
  dials = refl;
  accepts_capabilities = refl;
  accepts_query = refl;
}

qemu_state-third_example : qemu_state prober (world calm) (pos 101) ≡ (answered_state paused, [])
unfolding bytes_beq
qemu_state-third_example =
    qemu_state-third decode prober (world calm) (pos 101) calm (codes "greeting") (codes "ack")
      (codes "answer") [] plain acknowledged paused calm-IsAsked refl refl refl refl refl

paused_is_paused : answered_state paused ≡ state_paused
unfolding answered_state map_qmp_status bytes_beq
paused_is_paused = refl

-- With an event in between, the same machine has no known state.
event_hides_the_state : qemu_state prober (world lively) (pos 101) ≡ (state_unknown, [])
unfolding qemu_state asked_status read_pid process_alive scan_lines split trim_space trim_suffix
    atoi has_prefix bytes_beq
event_hides_the_state = refl
