-- ===== src/Examples/Startup.antt =====
-- A start of the daemon, and the requests that it answers.
use proxmox_eventbus.Prelude.{
  ◌≡◌, ◌≢◌, ◌⊎◌, refl, true, false, [], ◌∷◌, none, some, codes, bytes_beq, bytes_beq_iff, bytes_eq,
  pos, ℕ, arith, not, ◌==◌,
}
use proxmox_eventbus.Events.{
  kind_lxc, action_state, phase_snapshot, subject_lifecycle, subject_snapshot_complete,
  subject_snapshot_request_cluster, subject_snapshot_request_node,
}
use proxmox_eventbus.Events.Safe.{safe}
use proxmox_eventbus.Events.Subject.{AreTokens}
use proxmox_eventbus.Strings.Space.{trim_space}
use proxmox_eventbus.Config.{ConfigFile}
use proxmox_eventbus.Snapshot.Emitter.{emit_batch}
use proxmox_eventbus.Bus.Server.{StopCall, StartError}
use proxmox_eventbus.Main.Startup.{Effect, DaemonError, DaemonWorld, run_daemon, ready_text}
use proxmox_eventbus.Main.Startup.Protocol.{Refused, Serves, run_daemon_outcome}
use proxmox_eventbus.Main.Requests.{on_message}
use proxmox_eventbus.Main.Requests.Answers.{request_answered_once, published_unanswered}
use proxmox_eventbus.Examples.Daemon.{emitter, batch}
use proxmox_eventbus.Examples.Tls.{pool_of, key_pair, at_start}

abbrev world : DaemonWorld ℕ ℕ
world = record {
  config_path = some (codes "c.yaml");
  decode = λ b c. (c, true);
  file = λ path. ConfigFile.text [];
  attempts = none ∷ [];
  local_name = none;
  hostname = codes "pve1";
  pool_of = pool_of;
  key_pair = key_pair;
  disk = at_start;
  nats = record { creates = true; ready = true; connects = true };
  notify_socket = codes "/run/notify";
  dials = λ sock. true;
}

run_daemon_outcome_example : Refused (run_daemon world) ⊎ Serves world (run_daemon world)
run_daemon_outcome_example = run_daemon_outcome world

runs : run_daemon world ≡ (
  none,
  Effect.writes (codes "/run/notify") ready_text
      ∷ Effect.watches
      ∷ Effect.snapshots
      ∷ Effect.subscribes (codes "pve.standalone.snapshot.request")
      ∷ Effect.subscribes (codes "pve.standalone.pve1.snapshot.request")
      ∷ Effect.publishes
      ∷ Effect.stops StopCall.cancel_routes
      ∷ Effect.stops StopCall.close_conn
      ∷ Effect.stops StopCall.shutdown
      ∷ [],
)
unfolding run_daemon bytes_beq trim_space
runs = refl

not_ready :
    run_daemon (record world { nats = record { creates = true; ready = false; connects = true } })
    ≡ (some (DaemonError.bad_start StartError.not_ready), [])
unfolding run_daemon bytes_beq
not_ready = refl

other-ne : safe (codes "pve2") ≢ safe emitter.node
unfolding safe bytes_beq
other-ne e = cc ((bytes_beq_iff (safe (codes "pve2")) (safe emitter.node)).1 e)

request_answered_once_example :
    (on_message bytes_beq true
        (λ s. true)
        emitter
        batch
        (some (pos 101 ∷ [], []))
        (subject_snapshot_request_cluster (codes "lab"))
      ≡ emit_batch emitter batch (some (pos 101 ∷ [], [])))
    × (on_message bytes_beq true
          (λ s. true)
          emitter
          batch
          (some (pos 101 ∷ [], []))
          (subject_snapshot_request_node (codes "lab") (codes "pve1"))
        ≡ emit_batch emitter batch (some (pos 101 ∷ [], [])))
    × (on_message bytes_beq true
          (λ s. true)
          emitter
          batch
          (some (pos 101 ∷ [], []))
          (subject_snapshot_request_node (codes "lab") (codes "pve2"))
        ≡ [])
request_answered_once_example =
    request_answered_once bytes_beq (λ s t h. refl) true (λ s. true) emitter batch
      (some (pos 101 ∷ [], [])) (codes "pve2") other-ne

-- Snapshots that are not enabled, and a failed subscription for the cluster.
unanswered :
    (on_message bytes_beq false
        (λ s. true)
        emitter
        batch
        (some ([], []))
        (subject_snapshot_request_cluster (codes "lab"))
      ≡ [])
    × (on_message bytes_beq true
          (λ s. not (s == subject_snapshot_request_cluster (codes "lab")))
          emitter
          batch
          (some ([], []))
          (subject_snapshot_request_cluster (codes "lab"))
        ≡ [])
unfolding on_message bytes_beq
unanswered = (refl, refl)

state-AreTokens : AreTokens kind_lxc action_state phase_snapshot
state-AreTokens = record {
  kind_token = omega arith;
  action_token = omega arith;
  phase_token = omega arith;
}

published_unanswered_example :
    (on_message bytes_beq true
        (λ s. true)
        emitter
        batch
        (some (pos 101 ∷ [], []))
        (subject_lifecycle
          (codes "lab")
          (codes "snapshot")
          kind_lxc
          (pos 7)
          action_state
          phase_snapshot)
      ≡ [])
    × (on_message bytes_beq true
          (λ s. true)
          emitter
          batch
          (some (pos 101 ∷ [], []))
          (subject_snapshot_complete (codes "lab") (codes "snapshot"))
        ≡ [])
published_unanswered_example =
    published_unanswered bytes_beq (λ s t h. refl) true (λ s. true) emitter batch
      (some (pos 101 ∷ [], [])) (codes "lab") (codes "snapshot") kind_lxc (pos 7) action_state
      phase_snapshot state-AreTokens
