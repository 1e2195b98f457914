-- ===== src/Examples/Pipeline.antt =====
-- Two events of a task and the end of a batch on their way through the daemon.
use mathlib.Core.List.{Sublistᴰ}
use proxmox_eventbus.Prelude.{◌≡◌, refl, List, [], ◌∷◌, none, some, arith, codes, map, ℕ, zero, suc}
use proxmox_eventbus.Events.{CloudEvent, zero_data, new, source_for, type_snapshot_complete}
use proxmox_eventbus.Prelude.Merges.{Merges}
use proxmox_eventbus.Main.{watch_step, watch_run}
use proxmox_eventbus.Main.Channel.{
  publication, published, has_room, enqueue, forward_event, offer_event,
}
use proxmox_eventbus.Main.Pipeline.{History, Pipeline, Runs, Reach}
use proxmox_eventbus.Main.Pipeline.Runs.{start, emit, take, offer}
use proxmox_eventbus.Main.Pipeline.Order.{InOrder, Reach-InOrder}
use proxmox_eventbus.Main.Pipeline.Drain.{IsIdle, pipeline_publishes}
use proxmox_eventbus.Examples.Daemon.{started, inputs, at_start}

abbrev pub ending : CloudEvent
ending =
    new [] 0 type_snapshot_complete (source_for (codes "lab") (codes "pve1")) (codes "node/pve1")
      (record zero_data { cluster = codes "lab"; node = codes "pve1" })

abbrev history : History
history = record {
  emitted = started ∷ started ∷ [];
  taken = (started, inputs) ∷ [];
  offered = ending ∷ [];
}

-- The watcher has sent two events; the first one is held, and the emitter has offered one of its
-- own.
abbrev state : Pipeline
state = record {
  task_queue = started ∷ [];
  watch = (watch_step at_start started inputs).1;
  held = some ((watch_step at_start started inputs).0);
  out = record { queue = ending ∷ []; received = [] };
}

state-Reach : Reach at_start history state
unfolding offer_event has_room enqueue
state-Reach = offer ending (
    take started (started ∷ []) inputs refl refl
      (emit started (omega arith) (emit started (omega arith) start)))

Reach-InOrder_example : InOrder at_start history state
Reach-InOrder_example = Reach-InOrder state-Reach

pipeline_publishes_example :
    (s' : Pipeline) × (kept : List CloudEvent) × Runs history state
      (record history { taken = (started, inputs) ∷ (started, inputs) ∷ [] })
      s'
    × IsIdle s'
    × (history.emitted ≡ started ∷ started ∷ [])
    × Sublistᴰ kept history.offered
    × Merges
        (map publication (watch_run at_start ((started, inputs) ∷ (started, inputs) ∷ [])).0)
        (map publication kept)
        (published s'.out)
pipeline_publishes_example = pipeline_publishes (λ ev. inputs) state-Reach

abbrev copies : ℕ → List CloudEvent
copies zero = []
copies (suc n) = ending ∷ copies n

-- In a full channel an offer is dropped and `out <- ce` waits.
full_channel :
    (offer_event ending (record { queue = copies 1024; received = [] })
      ≡ record { queue = copies 1024; received = [] })
    × (forward_event ending (record { queue = copies 1024; received = [] }) ≡ none)
unfolding offer_event forward_event has_room
full_channel = (refl, refl)
