-- ===== src/Main/Pipeline/Drain.antt =====
-- The goroutines never block one another for good: what the watcher has sent can always be
-- published.
use mathlib.Core.List.{Sublistᴰ}
use proxmox_eventbus.Prelude.{
  ◌≡◌, refl, sym, ap, subst, ◌∙◌, List, [], ◌∷◌, ◌++◌, map, append_assoc, append-nil, Option, none,
  some, arith,
}
use proxmox_eventbus.Prelude.Merges.{Merges, map-Merges}
use proxmox_eventbus.Events.{CloudEvent}
use proxmox_eventbus.Tasks.Watcher.{TaskEvent}
use proxmox_eventbus.Enrich.Lifecycle.{Inputs}
use proxmox_eventbus.Main.{WatchState, watch_run}
use proxmox_eventbus.Main.Channel.{accepted, enqueue, take_from, publication, published}
use proxmox_eventbus.Main.Channel.Branches.{forward_event_room}
use proxmox_eventbus.Main.Pipeline.{Pipeline, History, Runs, Reach, runs-append}
use proxmox_eventbus.Main.Pipeline.Runs.{start, take, pass, publish}
use proxmox_eventbus.Main.Pipeline.Order.{held_list, InOrder, Reach-InOrder}

-- The publisher empties `out`.
out_drains :
    {from h : History} {begin : Pipeline} (s : Pipeline) (queue received : List CloudEvent)
    → Runs from begin h (record s { out = record { queue = queue; received = received } })
    → Runs from begin h (record s { out = record { queue = []; received = received ++ queue } })
unfolding take_from
out_drains {from} {h} {begin} s [] received r =
    subst (λ rs. Runs from begin h (record s { out = record { queue = []; received = rs } }))
      (sym (append-nil received)) r
out_drains {from} {h} {begin} s (ev ∷ queue) received r =
    subst (λ rs. Runs from begin h (record s { out = record { queue = []; received = rs } }))
      (append_assoc received (ev ∷ []) queue)
      (out_drains s queue (received ++ (ev ∷ [])) (publish _ refl r))

-- `runWatcher` passes on what it holds, and the publisher receives it.
held_drains :
    {from h : History} {begin : Pipeline} (s : Pipeline) (held : Option CloudEvent)
    → Runs from begin h (record s { held = held })
    → (received : List CloudEvent) × Runs from begin h
        (record s { held = none; out = record { queue = []; received = received } })
unfolding take_from enqueue
held_drains s none r = (_, out_drains (record s { held = none }) s.out.queue s.out.received r)
held_drains s (some ce) r =
    let empty = out_drains (record s { held = some ce }) s.out.queue s.out.received r in
    (_, publish _ refl (pass ce _ refl (forward_event_room ce _ (omega arith)) empty))

-- A state in which nothing is on its way.
pub record IsIdle (s : Pipeline) : Type 0 where
  pub no_tasks : s.task_queue ≡ []
  pub nothing_held : s.held ≡ none
  pub no_events : s.out.queue ≡ []

-- What `runWatcher` takes of the events, where this is what it will read.
abbrev pub with_inputs : (TaskEvent → Inputs) → List TaskEvent → List (TaskEvent × Inputs)
with_inputs inputs = map (λ ev. (ev, inputs ev))

tasks_drain :
    {from : History} {begin : Pipeline} (inputs : TaskEvent → Inputs) (queue : List TaskEvent)
    {h : History} {s : Pipeline}
    → s.task_queue ≡ queue
    → Runs from begin h s
    → (s' : Pipeline) × Runs from begin
        (record h { taken = h.taken ++ with_inputs inputs queue })
        s'
      × IsIdle s'
tasks_drain {from} {begin} inputs [] {h} {s} e r =
    let (received, idle) = held_drains s s.held r in
    let s' = record s { held = none; out = record { queue = []; received = received } } in
    (
      s',
      subst (λ taken. Runs from begin (record h { taken = taken }) s') (sym (append-nil h.taken))
          idle,
      record { no_tasks = e; nothing_held = refl; no_events = refl },
    )
tasks_drain {from} {begin} inputs (ev ∷ queue) {h} {s} e r =
    let (received, idle) = held_drains s s.held r in
    let (s', on, rest) = tasks_drain inputs queue refl (take ev queue (inputs ev) e refl idle) in
    (
      s',
      subst (λ taken. Runs from begin (record h { taken = taken }) s')
          (append_assoc h.taken ((ev, inputs ev) ∷ []) (with_inputs inputs queue)) on,
      rest,
    )

idle-InOrder :
    {watch : WatchState} {h : History} {s : Pipeline} (i : InOrder watch h s)
    → IsIdle s
    → (h.emitted ≡ map (λ p. p.0) h.taken)
      × Merges
          (map publication (watch_run watch h.taken).0)
          (map publication i.kept)
          (published s.out)
unfolding published
idle-InOrder {watch} {h} {s} i idle = (
  i.tasks ∙ ap (λ q. map (λ p. p.0) h.taken ++ q) idle.no_tasks ∙ append-nil _,
  map-Merges publication (
      subst (λ zs. Merges (watch_run watch h.taken).0 i.kept zs)
        (ap (λ q. s.out.received ++ q) idle.no_events ∙ append-nil s.out.received)
        (subst (λ xs. Merges xs i.kept (accepted s.out))
          (sym (i.made ∙ ap (λ o. i.sent ++ held_list o) idle.nothing_held ∙ append-nil i.sent))
          i.merged)),
)

-- From every state that the goroutines reach, and whatever `runWatcher` will read from outside at
-- each of the events, they can go on from there, with no new event of the watcher and no new offer
-- of the emitter, until nothing is on its way. Then `runWatcher` has taken, behind what it had, the
-- events that were waiting, with what it was to read, and so all that the watcher had sent, in
-- their order; and the calls of `PublishJSON` are what it has made of all of them, each once, with
-- its subject and in this order, interleaved with some of the events that the emitter had offered,
-- in their order.
pub pipeline_publishes :
    {watch : WatchState} {h : History} {s : Pipeline}
    → (inputs : TaskEvent → Inputs) → Reach watch h s
    → (s' : Pipeline) × (kept : List CloudEvent) × Runs h s
        (record h { taken = h.taken ++ with_inputs inputs s.task_queue })
        s'
      × IsIdle s'
      × (h.emitted ≡ map (λ p. p.0) (h.taken ++ with_inputs inputs s.task_queue))
      × Sublistᴰ kept h.offered
      × Merges
          (map publication (watch_run watch (h.taken ++ with_inputs inputs s.task_queue)).0)
          (map publication kept)
          (published s'.out)
pipeline_publishes inputs r =
    let (s', on, idle) = tasks_drain inputs _ refl start in
    let i = Reach-InOrder (runs-append r on) in
    let (all, merged) = idle-InOrder i idle in (s', i.kept, on, idle, all, i.offers, merged)
