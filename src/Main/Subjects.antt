-- ===== src/Main/Subjects.antt =====
-- The subjects that the publisher loop gives to the events.
use proxmox_eventbus.Prelude.{
  ◌≡◌, ◌≢◌, arith, refl, ap, ◌∙◌, Bool, true, false, Bytes, ◌==◌, bytes_eq, bytes_beq, bytes_beq_ne,
  if_false, if◌then◌else◌, All, ℕ, ℤ,
}
use proxmox_eventbus.Prelude.Result.{Result, ok, err}
use proxmox_eventbus.Events.{
  action_migrate, Kind, Action, Phase, EventData, CloudEvent, subject_lifecycle,
  subject_snapshot_complete, type_for, type_snapshot_complete, new, action_state, phase_snapshot,
}
use proxmox_eventbus.Events.Subject.{AreTokens, type_for-ne-snapshot_complete}
use proxmox_eventbus.Tasks.Upid.{vmid}
use proxmox_eventbus.Tasks.Watcher.{TaskEvent}
use proxmox_eventbus.Enrich.Lifecycle.{
  Enricher, Inputs, base_data, lifecycle, lifecycle_data, add_config, add_target, add_end,
  is_terminal,
}
use proxmox_eventbus.Snapshot.Emitter.{
  Emitter, BatchWorld, snapshot_event, complete_event, add_names,
}
use proxmox_eventbus.Main.{publish_subject, WatchState, watch_step}

-- The fields of an event that its subject is made of.
abbrev route : EventData → Bytes × Bytes × Kind × ℤ × Action × Phase
route d = (d.cluster, d.node, d.kind, d.vmid, d.action, d.phase)

abbrev Routed : EventData → Bytes → Bytes → Kind → ℤ → Action → Phase → Type 0
Routed d cluster node kind id action phase = route d ≡ (cluster, node, kind, id, action, phase)

publish_subject-Routed :
    (ev : CloudEvent) (cluster node : Bytes) (kind : Kind) (id : ℤ) (action : Action)
    (phase : Phase)
    → AreTokens kind action phase
    → ev.type ≡ type_for kind action phase
    → Routed ev.event_data cluster node kind id action phase
    → publish_subject ev ≡ subject_lifecycle cluster node kind id action phase
unfolding publish_subject
publish_subject-Routed ev cluster node kind id action phase h e r =
    ap
      (λ t.
        if t == type_snapshot_complete
        then subject_snapshot_complete ev.event_data.cluster ev.event_data.node
        else subject_lifecycle ev.event_data.cluster ev.event_data.node ev.event_data.kind
            ev.event_data.vmid ev.event_data.action ev.event_data.phase)
      e
    ∙ if_false _ _
        (bytes_beq_ne _ type_snapshot_complete (type_for-ne-snapshot_complete kind action phase h))
    ∙ ap (λ (c, n, k, i, a, p). subject_lifecycle c n k i a p) r

module _ {cluster node : Bytes} {kind : Kind} {id : ℤ} {action : Action} {phase : Phase} where
  add_config-Routed :
      (c : Result _ _) (d : EventData)
      → Routed d cluster node kind id action phase
      → Routed (add_config c d) cluster node kind id action phase
  unfolding add_config
  add_config-Routed (err x) d r = r
  add_config-Routed (ok cfg) d r = r

  add_names-Routed :
      (c : Result _ _) (d : EventData)
      → Routed d cluster node kind id action phase
      → Routed (add_names c d) cluster node kind id action phase
  unfolding add_names
  add_names-Routed (err x) d r = r
  add_names-Routed (ok cfg) d r = r

  if-Routed :
      (b : Bool) (c d : EventData)
      → Routed c cluster node kind id action phase
      → Routed d cluster node kind id action phase
      → Routed (if b then c else d) cluster node kind id action phase
  if-Routed true c d r s = r
  if-Routed false c d r s = s

  new-Routed :
      (i : Bytes) (now : ℕ) (type source subject : Bytes) (d : EventData)
      → Routed d cluster node kind id action phase
      → Routed ((new i now type source subject d).event_data) cluster node kind id action phase
  unfolding new
  new-Routed i now type source subject d r = r

  add_target-Routed :
      (e : Enricher) (ev : TaskEvent) (world : Inputs) (d : EventData)
      → Routed d cluster node kind id action phase
      → Routed (add_target e ev world d) cluster node kind id action phase
  unfolding add_target
  add_target-Routed e ev world d r = if-Routed (ev.action == action_migrate) _ d r r

  add_end-Routed :
      (ev : TaskEvent) (start : ℕ) (world : Inputs) (d : EventData)
      → Routed d cluster node kind id action phase
      → Routed (add_end ev start world d) cluster node kind id action phase
  unfolding add_end
  add_end-Routed ev start world d r = r

lifecycle-Routed :
    (e : Enricher) (ev : TaskEvent) (start : ℕ) (world : Inputs)
    → Routed
        ((lifecycle e ev start world).0.event_data)
        e.cluster
        e.node
        ev.kind
        (vmid ev.upid)
        ev.action
        ev.phase
unfolding lifecycle lifecycle_data
lifecycle-Routed e ev start world =
    let base : Routed (base_data e ev) e.cluster e.node ev.kind (vmid ev.upid) ev.action ev.phase =
      refl in
    let d = add_target e ev world (add_config world.config (base_data e ev)) in
    let r = add_target-Routed e ev world _ (add_config-Routed world.config (base_data e ev) base) in
    new-Routed world.id world.now _ _ _ _
      (if-Routed (is_terminal ev) _ d (add_end-Routed ev start world d r) r)

lifecycle-type :
    (e : Enricher) (ev : TaskEvent) (start : ℕ) (world : Inputs)
    → (lifecycle e ev start world).0.type ≡ type_for ev.kind ev.action ev.phase
unfolding lifecycle new
lifecycle-type e ev start world = refl

-- For every event of a task whose kind, action and phase hold no dot, what `runWatcher` makes of it
-- is published under the lifecycle subject of the enricher's cluster and node and of the event's
-- kind, VMID, action and phase, whatever the state, the configuration and the target.
pub watch_step-subject :
    (st : WatchState) (ev : TaskEvent) (world : Inputs)
    → AreTokens ev.kind ev.action ev.phase
    → publish_subject ((watch_step st ev world).0)
      ≡ subject_lifecycle st.enricher.cluster st.enricher.node ev.kind
          (vmid ev.upid)
          ev.action
          ev.phase
unfolding watch_step
watch_step-subject st ev world h =
    publish_subject-Routed _ _ _ _ _ _ _ h (lifecycle-type st.enricher ev _ world)
      (lifecycle-Routed st.enricher ev _ world)

snapshot_event-Routed :
    (e : Emitter) (world : BatchWorld) (i : ℕ) (kind : Kind) (id : ℤ)
    → Routed
        ((snapshot_event e world i kind id).event_data)
        e.cluster
        e.node
        kind
        id
        action_state
        phase_snapshot
unfolding snapshot_event
snapshot_event-Routed e world i kind id =
    new-Routed _ _ _ _ _ _ (add_names-Routed (world.config kind id) _ refl)

snapshot_event-type :
    (e : Emitter) (world : BatchWorld) (i : ℕ) (kind : Kind) (id : ℤ)
    → (snapshot_event e world i kind id).type ≡ type_for kind action_state phase_snapshot
unfolding snapshot_event new
snapshot_event-type e world i kind id = refl

snapshot-AreTokens :
    (kind : Kind) → All (λ c. c ≢ b'.') kind → AreTokens kind action_state phase_snapshot
snapshot-AreTokens kind h = record {
  kind_token = h;
  action_token = omega arith;
  phase_token = omega arith;
}

publish_subject_complete :
    (e : Emitter) (world : BatchWorld) (i : ℕ)
    → publish_subject (complete_event e world i) ≡ subject_snapshot_complete e.cluster e.node
unfolding publish_subject complete_event new bytes_beq
publish_subject_complete e world i = refl

-- For a kind that holds no dot, the state event of a guest is published under the lifecycle subject
-- of its node with the action `state` and the phase `snapshot`, and the event that ends a batch
-- under the subject of the ends of batches: the publisher tells the two apart by their types.
batch-subjects :
    (e : Emitter) (world : BatchWorld) (i : ℕ) (kind : Kind) (id : ℤ)
    → All (λ c. c ≢ b'.') kind
    → (publish_subject (snapshot_event e world i kind id)
        ≡ subject_lifecycle e.cluster e.node kind id action_state phase_snapshot)
      × (publish_subject (complete_event e world i) ≡ subject_snapshot_complete e.cluster e.node)
batch-subjects e world i kind id h = (
  publish_subject-Routed _ _ _ _ _ _ _ (snapshot-AreTokens kind h)
      (snapshot_event-type e world i kind id) (snapshot_event-Routed e world i kind id),
  publish_subject_complete e world i,
)
