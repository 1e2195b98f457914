-- ===== src/Main.antt =====
-- cmd/proxmox-eventbus/main.go: the wiring of the daemon.
--
-- `runWatcher` receives the events of the tasks one by one; its step is modelled with the map of
-- the start times and the enricher.
pub mod Commands
pub mod Logging
pub mod Channel
pub mod Pipeline
pub mod Startup
pub mod Requests
pub mod Subjects
pub mod Listeners
pub mod Published
pub mod Durations
use proxmox_eventbus.Prelude.{
  Bool, true, false, ◌&&◌, ◌||◌, List, [], ◌∷◌, ◌++◌, Option, none, some, Bytes, codes, ◌==◌,
  bytes_eq, bytes_beq, if◌then◌else◌, ℤ, ◌⊎◌, inl, inr,
}
use proxmox_eventbus.Prelude.GoMap
use proxmox_eventbus.Prelude.GoMap.{GoMap}
use proxmox_eventbus.Strings.Space.{trim_space}
use proxmox_eventbus.Strconv.Decimal.{format_int}
use proxmox_eventbus.Events.{
  Time, CloudEvent, phase_started, subject_lifecycle, subject_snapshot_complete,
  type_snapshot_complete,
}
use proxmox_eventbus.Tasks.Watcher.{TaskEvent}
use proxmox_eventbus.Enrich.Lifecycle.{Enricher, Inputs, is_terminal, lifecycle}
use proxmox_eventbus.Pmxcfs.Members.{Members, IpError}

-- `subjectFor`
unfoldable pub publish_subject : CloudEvent → Bytes
unfolding subject_lifecycle subject_snapshot_complete bytes_beq
publish_subject ev =
    let d = ev.event_data in
    if ev.type == type_snapshot_complete
    then subject_snapshot_complete d.cluster d.node
    else subject_lifecycle d.cluster d.node d.kind d.vmid d.action d.phase

-- `nonEmpty`
unfoldable pub non_empty : Bytes → Bytes → Bytes
unfolding bytes_beq
non_empty a b = if a == [] then b else a

-- `detectClusterName`, of what its attempts to read the members give
unfoldable pub detect_cluster_name : List (Option Members) → Bytes
detect_cluster_name [] = []
detect_cluster_name (none ∷ attempts) = detect_cluster_name attempts
detect_cluster_name (some m ∷ attempts) = trim_space m.cluster.name

-- The names of the cluster and the node in `runDaemon`.
unfoldable pub resolve_cluster : Bytes → List (Option Members) → Bytes
unfolding non_empty detect_cluster_name
resolve_cluster configured attempts =
    non_empty (non_empty (trim_space configured) (detect_cluster_name attempts))
      (codes "standalone")

unfoldable pub or_empty : Option Bytes → Bytes
or_empty none = []
or_empty (some s) = s

unfoldable pub resolve_node : Bytes → Option Bytes → Bytes → Bytes
unfolding non_empty or_empty
resolve_node configured local host = non_empty (non_empty configured (or_empty local)) host

abbrev pub advertise_text : Bytes → ℤ → Bytes
advertise_text ip port = ip ++ codes ":" ++ format_int port

-- `resolveAdvertise`, of the two settings, the two ports and what `LocalIP` returns
unfoldable pub resolve_advertise : Bytes → Bytes → ℤ → ℤ → Bytes ⊎ IpError → Bytes × Bytes
unfolding bytes_beq
resolve_advertise client cluster client_port cluster_port (inr _) = (client, cluster)
resolve_advertise client cluster client_port cluster_port (inl ip) = (
  if client == [] then advertise_text ip client_port else client,
  if cluster == [] then advertise_text ip cluster_port else cluster,
)

-- The variables of the loop of `runWatcher`.
pub record WatchState : Type 0 where
  pub starts : GoMap Time
  pub enricher : Enricher

-- One event: the event that is sent, and the variables behind it.
unfoldable pub watch_step : WatchState → TaskEvent → Inputs → CloudEvent × WatchState
unfolding lifecycle is_terminal bytes_beq
watch_step st ev world =
    let starts =
      if ev.phase == phase_started
      then GoMap.set st.starts ev.upid.raw ev.obs_time
      else st.starts in
    let (ce, enricher) = lifecycle st.enricher ev (GoMap.get_or (starts ev.upid.raw) 0) world in
    (
      ce,
      record {
        starts = if is_terminal ev then GoMap.delete starts ev.upid.raw else starts;
        enricher = enricher;
      },
    )

unfoldable pub watch_run : WatchState → List (TaskEvent × Inputs) → List CloudEvent × WatchState
unfolding watch_step
watch_run st [] = ([], st)
watch_run st ((ev, world) ∷ evs) =
    let (ce, next) = watch_step st ev world in
    let (ces, last) = watch_run next evs in (ce ∷ ces, last)
