-- ===== src/Main/Published.antt =====
-- cmd/proxmox-eventbus/main.go: from the configuration and the lines of the task log to the
-- subjects of the events.
use proxmox_eventbus.Prelude.{
  ◌≡◌, ◌⊎◌, inl, inr, sym, subst, ap, ◌∙◌, Bool, List, [], ◌∷◌, some, codes, bytes_eq, arith, All,
  All-map, Bytes, Lacks,
}
use proxmox_eventbus.Strings.Split.{split}
use proxmox_eventbus.Strconv.Decimal.{format_int}
use proxmox_eventbus.Bufio.{FileRead}
use proxmox_eventbus.Events.{
  Time, Kind, kind_qemu, kind_lxc, Phase, phase_started, phase_finished, phase_failed,
}
use proxmox_eventbus.Events.Safe.{safe}
use proxmox_eventbus.Events.Subject.{
  AreTokens, IsRequest, split-subject_lifecycle, published-ne-IsRequest,
}
use proxmox_eventbus.Enrich.Lifecycle.{Inputs}
use proxmox_eventbus.Tasks.Upid.{vmid}
use proxmox_eventbus.Tasks.Workers.{worker_type_map}
use proxmox_eventbus.Tasks.Workers.Table.{worker_type_map_vocabulary}
use proxmox_eventbus.Tasks.Watcher.{TaskEvent, Watcher, Effect, send, watch, new_watcher}
use proxmox_eventbus.Tasks.Watcher.Vocabulary.{IsFromTable, IfSent}
use proxmox_eventbus.Tasks.Watcher.Protocol.{sent_by_scans}
use proxmox_eventbus.Tasks.Watcher.Kinds.{
  IsWatched, new_watcher-IsWatched, sent_by_scans-IsFromTable,
}
use proxmox_eventbus.Config.{Config}
use proxmox_eventbus.Main.{WatchState, publish_subject, watch_step}
use proxmox_eventbus.Main.Subjects.{watch_step-subject}

kind-Lacks : (k : Kind) → (k ≡ kind_qemu) ⊎ (k ≡ kind_lxc) → Lacks b'.' k
kind-Lacks k (inl e) = subst (Lacks b'.') (sym e) (omega arith)
kind-Lacks k (inr e) = subst (Lacks b'.') (sym e) (omega arith)

phase-Lacks :
    (p : Phase) → (p ≡ phase_started) ⊎ ((p ≡ phase_finished) ⊎ (p ≡ phase_failed)) → Lacks b'.' p
phase-Lacks p (inl e) = subst (Lacks b'.') (sym e) (omega arith)
phase-Lacks p (inr (inl e)) = subst (Lacks b'.') (sym e) (omega arith)
phase-Lacks p (inr (inr e)) = subst (Lacks b'.') (sym e) (omega arith)

IsFromTable-AreTokens :
    (include : Kind → Bool) (ev : TaskEvent)
    → IsFromTable include ev
    → AreTokens ev.kind ev.action ev.phase
IsFromTable-AreTokens include ev h =
    let (kind, action, _) = worker_type_map_vocabulary ev.upid.type ev.kind ev.action h.of_table in
    record {
      kind_token = kind-Lacks ev.kind kind;
      action_token = action;
      phase_token = phase-Lacks ev.phase h.phase_known;
    }

-- The event that `runWatcher` makes is published under a subject of these seven tokens, which is
-- not that of a request.
abbrev pub IsPublished : WatchState → Inputs → TaskEvent → Type 0
IsPublished st world ev =
    (split (publish_subject ((watch_step st ev world).0)) b'.'
      ≡ codes "pve"
        ∷ safe st.enricher.cluster
        ∷ safe st.enricher.node
        ∷ ev.kind
        ∷ format_int (vmid ev.upid)
        ∷ ev.action
        ∷ ev.phase
        ∷ [])
    × ¬ IsRequest (publish_subject ((watch_step st ev world).0))
    × (worker_type_map ev.upid.type ≡ some (ev.kind, ev.action))

event-IsPublished :
    (include : Kind → Bool) (st : WatchState) (world : Inputs) (ev : TaskEvent)
    → IsFromTable include ev
    → IsPublished st world ev
event-IsPublished include st world ev h =
    let tokens = IsFromTable-AreTokens include ev h in
    let e = watch_step-subject st ev world tokens in
    (
      ap (λ s. split s b'.') e
          ∙ split-subject_lifecycle st.enricher.cluster st.enricher.node ev.kind (vmid ev.upid)
              ev.action ev.phase tokens,
      subst (λ s. ¬ IsRequest s) (sym e)
          ((published-ne-IsRequest st.enricher.cluster st.enricher.node ev.kind (vmid ev.upid)
            ev.action ev.phase tokens).0),
      h.of_table,
    )

-- the loop over `cfg.Watch.Include`, whose conversion keeps the text
unfoldable pub kinds_of : List Bytes → List Kind
kinds_of [] = []
kinds_of (k ∷ ks) = k ∷ kinds_of ks

-- The watcher that `runWatcher` makes.
unfoldable pub daemon_watcher : Config → Watcher
unfolding kinds_of new_watcher
daemon_watcher cfg = new_watcher (kinds_of cfg.watch.include)

-- A change of property, for what is sent.
IfSent-map :
    (P Q : TaskEvent → Type 0) (es : List Effect)
    → ((ev : TaskEvent) → P ev → Q ev)
    → All (IfSent P) es
    → All (IfSent Q) es
IfSent-map P Q [] f h = tt
IfSent-map P Q (send ev ∷ es) f (h, hs) = (f ev h, IfSent-map P Q es f hs)
IfSent-map P Q (watch u ∷ es) f (h, hs) = (tt, IfSent-map P Q es f hs)

-- The kind is watched, and the event is published under a subject of its own.
abbrev pub IsWatchedAndPublished : Config → WatchState → Inputs → TaskEvent → Type 0
IsWatchedAndPublished cfg st world ev =
    IsWatched (kinds_of cfg.watch.include) ev.kind × IsPublished st world ev

-- Whatever the task log holds at each of any number of readings, in whatever state `runWatcher` is
-- and whatever the enricher finds, each event that the daemon's watcher sends is of a kind that the
-- configuration includes (of `qemu` or `lxc` where it includes none), and is published under a
-- subject of exactly seven tokens: `pve`, the names of the cluster and the node with what is no
-- token replaced, the kind and the action that the table gives the task's type, its VM number and
-- the phase. It is never a subject of the requests.
pub daemon_watcher-IsPublished :
    (cfg : Config) (rs : List (Time × FileRead)) (st : WatchState) (world : Inputs)
    → All
        (All (IfSent (IsWatchedAndPublished cfg st world)))
        (sent_by_scans (daemon_watcher cfg) rs)
unfolding daemon_watcher
daemon_watcher-IsPublished cfg rs st world =
    let w = daemon_watcher cfg in
    All-map (All (IfSent (IsFromTable w.include))) _ (sent_by_scans w rs)
      (λ es h.
        IfSent-map (IsFromTable w.include) (IsWatchedAndPublished cfg st world) es
          (λ ev from. (
            new_watcher-IsWatched (kinds_of cfg.watch.include) ev.kind from.included,
            event-IsPublished w.include st world ev from,
          ))
          h)
      (sent_by_scans-IsFromTable w rs)
