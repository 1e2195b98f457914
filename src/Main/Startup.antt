-- ===== src/Main/Startup.antt =====
-- cmd/proxmox-eventbus/main.go: `runDaemon`, and `notifyReady` of sd_notify.go.
--
-- What the daemon does to its surroundings is the list of its effects. Flag parsing, the files, the
-- YAML decoder, NATS and the sockets are what their calls give. The daemon runs until a signal
-- cancels its context; what its goroutines do meanwhile is in Main/Pipeline.
pub mod Protocol
use proxmox_eventbus.Prelude.{
  Bool, true, false, List, [], ◌∷◌, ◌++◌, map, Option, none, some, Bytes, codes, ◌==◌, bytes_eq,
  if◌then◌else◌,
}
use proxmox_eventbus.Prelude.Result.{Result, ok, err}
use proxmox_eventbus.Events.{subject_snapshot_request_cluster, subject_snapshot_request_node}
use proxmox_eventbus.Config.{Config, ConfigFile, ConfigError, load}
use proxmox_eventbus.Pmxcfs.Members.{Members}
use proxmox_eventbus.Tlsutil.Loader.{Loader, LoadError}
use proxmox_eventbus.Tlsutil.Loader.Reloads.{Disk}
use proxmox_eventbus.Bus.Server.{
  StartWorld, StartError, ServerState, StopCall, start, stop, new_server,
}
use proxmox_eventbus.Main.{resolve_cluster, resolve_node}
use proxmox_eventbus.Main.Listeners.{daemon_loader}

pub data Effect : Type 0 where
  -- a datagram to a socket
  writes : Bytes → Bytes → Effect
  -- the goroutine of `runWatcher`, and that of the emitter
  watches : Effect
  snapshots : Effect
  -- a subscription that is asked for
  subscribes : Bytes → Effect
  -- the publisher loop, up to the signal
  publishes : Effect
  stops : StopCall → Effect

pub data DaemonError : Type 0 where
  bad_flags : DaemonError
  bad_config : ConfigError → DaemonError
  bad_tls : LoadError → DaemonError
  bad_start : StartError → DaemonError

-- What the daemon meets. `config_path` is none where the parsing of the flags returns an error;
-- that of `flag.CommandLine`, which is made with `ExitOnError`, ends the process instead, with no
-- effect either.
pub record DaemonWorld (Pool Pair : Type 0) : Type 0 where
  pub config_path : Option Bytes
  pub decode : Bytes → Config → Config × Bool
  pub file : Bytes → ConfigFile
  pub attempts : List (Option Members)
  pub local_name : Option Bytes
  pub hostname : Bytes
  pub pool_of : Bytes → Option Pool
  pub key_pair : Bytes → Bytes → Option Pair
  pub disk : Disk
  pub nats : StartWorld
  pub notify_socket : Bytes
  pub dials : Bytes → Bool

-- `notifyReady`, of the environment variable and whether the socket is reached
abbrev pub ready_text : Bytes
ready_text = codes "READY=1\nSTATUS=running\n"

unfoldable pub notify_ready : Bytes → (Bytes → Bool) → List Effect
notify_ready sock dials =
    if sock == [] then [] else if dials sock then writes sock ready_text ∷ [] else []

-- the two subjects on which the daemon listens for requests
unfoldable pub request_subjects : Bytes → Bytes → List Bytes
unfolding subject_snapshot_request_cluster subject_snapshot_request_node
request_subjects cluster node =
    subject_snapshot_request_cluster cluster ∷ subject_snapshot_request_node cluster node ∷ []

unfoldable pub start_snapshots : Bool → Bytes → Bytes → List Effect
unfolding request_subjects
start_snapshots enabled cluster node =
    if enabled then snapshots ∷ map subscribes (request_subjects cluster node) else []

-- behind `server.Start`, with the server that it leaves
unfoldable pub serve : Bytes → (Bytes → Bool) → Bool → Bytes → Bytes → ServerState → List Effect
unfolding notify_ready start_snapshots stop
serve sock dials enabled cluster node server =
    notify_ready sock dials
    ++ (watches ∷ (start_snapshots enabled cluster node ++ (publishes ∷ map stops (stop server))))

unfoldable pub run_started :
    Bytes
    → (Bytes → Bool)
    → Bool
    → Bytes
    → Bytes
    → Option StartError × ServerState
    → Option DaemonError × List Effect
unfolding serve
run_started sock dials enabled cluster node (some e, server) = (some (bad_start e), [])
run_started sock dials enabled cluster node (none, server) =
    (none, serve sock dials enabled cluster node server)

module _ {Pool Pair : Type 0} where
  unfoldable pub run_loaded :
      DaemonWorld Pool Pair
      → Config
      → Result LoadError (Loader Pool Pair)
      → Option DaemonError × List Effect
  unfolding run_started start resolve_cluster resolve_node
  run_loaded w cfg (err e) = (some (bad_tls e), [])
  run_loaded w cfg (ok loader) =
      run_started w.notify_socket w.dials cfg.snapshot.enabled
        (resolve_cluster cfg.node.cluster_name w.attempts)
        (resolve_node cfg.node.name w.local_name w.hostname) (start w.nats true new_server)

  unfoldable pub run_configured :
      DaemonWorld Pool Pair → Config × Option ConfigError → Option DaemonError × List Effect
  unfolding run_loaded daemon_loader
  run_configured w (cfg, some e) = (some (bad_config e), [])
  run_configured w (cfg, none) = run_loaded w cfg (daemon_loader w.pool_of w.key_pair w.disk cfg)

  unfoldable pub run_parsed :
      DaemonWorld Pool Pair → Option Bytes → Option DaemonError × List Effect
  unfolding run_configured load
  run_parsed w none = (some bad_flags, [])
  run_parsed w (some path) = run_configured w (load w.decode path (w.file path))

  -- `runDaemon`: the error that it returns, and its effects
  unfoldable pub run_daemon : DaemonWorld Pool Pair → Option DaemonError × List Effect
  unfolding run_parsed
  run_daemon w = run_parsed w w.config_path
