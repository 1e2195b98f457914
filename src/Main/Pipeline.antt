-- ===== src/Main/Pipeline.antt =====
-- cmd/proxmox-eventbus/main.go: from the channel of the task watcher through `runWatcher` to the
-- publisher loop.
--
-- The goroutines of internal/tasks/watcher.go send into the channel that `Events` returns. The loop
-- of `runWatcher` takes one event, makes a CloudEvent of it, and holds it until `out` has room. The
-- emitter of the snapshots offers its events to `out`, and the publisher loop receives from it. The
-- goroutines run in any order, so a run is a derivation, and its history what they have done.
pub mod Order
pub mod Drain
pub mod Told
pub mod Consumer
use proxmox_eventbus.Prelude.{ℕ, ◌<◌, ◌≡◌, List, [], ◌∷◌, ◌++◌, Option, none, some, length}
use proxmox_eventbus.Events.{CloudEvent}
use proxmox_eventbus.Tasks.Watcher.{TaskEvent}
use proxmox_eventbus.Enrich.Lifecycle.{Inputs}
use proxmox_eventbus.Main.{WatchState, watch_step}
use proxmox_eventbus.Main.Channel.{Outbox, new_outbox, forward_event, offer_event, take_from}

-- `make(chan Event, 256)`
abbrev pub task_capacity : ℕ
task_capacity = 256

-- The two channels, the variables of `runWatcher`, and the event that it holds before `out <- ce`.
pub record Pipeline : Type 0 where
  pub task_queue : List TaskEvent
  pub watch : WatchState
  pub held : Option CloudEvent
  pub out : Outbox

abbrev pub new_pipeline : WatchState → Pipeline
new_pipeline watch = record { task_queue = []; watch = watch; held = none; out = new_outbox }

-- What the watcher has sent, what `runWatcher` has taken with what it took from outside, and what
-- the emitter has offered.
pub record History : Type 0 where
  pub emitted : List TaskEvent
  pub taken : List (TaskEvent × Inputs)
  pub offered : List CloudEvent

abbrev pub no_history : History
no_history = record { emitted = []; taken = []; offered = [] }

-- What the goroutines do from a state on, with the history up to it.
pub data Runs (from : History) (begin : Pipeline) : History → Pipeline → Type 0 where
  start : Runs from begin from begin
  -- `w.out <- Event{…}` waits for room.
  emit :
      {h : History} {s : Pipeline} (ev : TaskEvent)
      → length s.task_queue < task_capacity
      → Runs from begin h s
      → Runs from begin
          (record h { emitted = h.emitted ++ (ev ∷ []) })
          (record s { task_queue = s.task_queue ++ (ev ∷ []) })
  -- `case ev := <-w.Events()`, where nothing is held
  take :
      {h : History} {s : Pipeline} (ev : TaskEvent) (rest : List TaskEvent) (world : Inputs)
      → s.task_queue ≡ ev ∷ rest
      → s.held ≡ none
      → Runs from begin h s
      → Runs from begin
          (record h { taken = h.taken ++ ((ev, world) ∷ []) })
          (record s {
            task_queue = rest;
            watch = (watch_step s.watch ev world).1;
            held = some ((watch_step s.watch ev world).0);
          })
  -- `out <- ce`
  pass :
      {h : History} {s : Pipeline} (ce : CloudEvent) (out : Outbox)
      → s.held ≡ some ce
      → forward_event ce s.out ≡ some out
      → Runs from begin h s
      → Runs from begin h (record s { held = none; out = out })
  -- `send` of the emitter
  offer :
      {h : History} {s : Pipeline} (ev : CloudEvent)
      → Runs from begin h s
      → Runs from begin
          (record h { offered = h.offered ++ (ev ∷ []) })
          (record s { out = offer_event ev s.out })
  -- `case ev := <-out`
  publish :
      {h : History} {s : Pipeline} (out : Outbox)
      → take_from s.out.queue s.out.received ≡ some out
      → Runs from begin h s
      → Runs from begin h (record s { out = out })

-- A state that they reach from the start of the daemon.
abbrev pub Reach : WatchState → History → Pipeline → Type 0
Reach watch = Runs no_history (new_pipeline watch)

-- One run behind another.
pub runs-append :
    {from h : History} {begin s : Pipeline} {h' : History} {s' : Pipeline}
    → Runs from begin h s
    → Runs h s h' s'
    → Runs from begin h' s'
runs-append r start = r
runs-append r (emit ev free q) = emit ev free (runs-append r q)
runs-append r (take ev rest world e free q) = take ev rest world e free (runs-append r q)
runs-append r (pass ce out e sends q) = pass ce out e sends (runs-append r q)
runs-append r (offer ev q) = offer ev (runs-append r q)
runs-append r (publish out e q) = publish out e (runs-append r q)
