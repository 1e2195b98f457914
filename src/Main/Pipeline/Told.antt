-- ===== src/Main/Pipeline/Told.antt =====
-- The phases that a list of events tells of one task, in the order of the list.
use proxmox_eventbus.Prelude.{
  ◌≡◌, ◌≢◌, inl, inr, refl, ap, ap₂, Option-cases, Bool, true, false, not, ◌&&◌, List, [], ◌∷◌,
  ◌++◌, map, Option, none, some, Bytes, bytes_eq, bytes_beq, bytes_beq_ne, ◌==◌, if◌then◌else◌,
  arith, All,
}
use proxmox_eventbus.Prelude.Merges.{Merges, done, left, right}
use proxmox_eventbus.Prelude.Result.{Result, ok, err}
use proxmox_eventbus.Events.{Time, EventData, CloudEvent, Phase, action_migrate, phase_synced, new}
use proxmox_eventbus.Tasks.Watcher.{TaskEvent, Effect, send, watch}
use proxmox_eventbus.Enrich.Lifecycle.{
  Enricher, Inputs, base_data, add_config, add_target, add_end, is_terminal, lifecycle_data,
  lifecycle,
}
use proxmox_eventbus.Main.{WatchState, watch_step, watch_run}

module _ {A : Type 0} (f : A → Option Phase) where
  unfoldable pub told : List A → List Phase
  told [] = []
  told (x ∷ xs) = elim (f x) [ none ↦ told xs | some p ↦ p ∷ told xs ]

  pub told-append : (xs ys : List A) → told (xs ++ ys) ≡ told xs ++ told ys
  unfolding told
  told-append [] ys = refl
  told-append (x ∷ xs) ys = ground (arith, told-append xs ys)

  -- What tells nothing may stand anywhere.
  pub told-Merges :
      {xs ys zs : List A} → Merges xs ys zs → All (λ y. f y ≡ none) ys → told zs ≡ told xs
  unfolding told
  told-Merges done h = refl
  told-Merges (left {x} m) h = ground (arith, told-Merges m h)
  told-Merges (right {y} m) (hy, h) = rw (hy, told) (told-Merges m h)

-- The phase of an event of this task, unless it is `synced`.
unfoldable pub phase_if : Bytes → Bytes → Phase → Option Phase
phase_if k raw p = if k == raw && not (p == phase_synced) then some p else none

abbrev pub task_phase : Bytes → TaskEvent → Option Phase
task_phase k ev = phase_if k ev.upid.raw ev.phase

abbrev pub event_phase : Bytes → CloudEvent → Option Phase
event_phase k ev = phase_if k ev.event_data.upid ev.event_data.phase

pub phase_if_synced : (k raw : Bytes) (p : Phase) → p ≡ phase_synced → phase_if k raw p ≡ none
unfolding phase_if bytes_beq
phase_if_synced k raw p e = rw e (ground arith)

pub phase_if_nil : (k : Bytes) (p : Phase) → k ≢ [] → phase_if k [] p ≡ none
unfolding phase_if
phase_if_nil k p h = rw (bytes_beq_ne k [] h) refl

-- The event that `Lifecycle` makes is of the same task and phase.
abbrev Keeps : EventData → TaskEvent → Type 0
Keeps d ev = (d.upid ≡ ev.upid.raw) × (d.phase ≡ ev.phase)

add_config-Keeps :
    (c : Result _ _) (d : EventData) (ev : TaskEvent) → Keeps d ev → Keeps (add_config c d) ev
unfolding add_config
add_config-Keeps (err x) d ev h = h
add_config-Keeps (ok cfg) d ev h = h

if-Keeps :
    (b : Bool) (c d : EventData) (ev : TaskEvent)
    → Keeps c ev
    → Keeps d ev
    → Keeps (if b then c else d) ev
if-Keeps true c d ev h h' = h
if-Keeps false c d ev h h' = h'

add_target-Keeps :
    (e : Enricher) (ev : TaskEvent) (world : Inputs) (d : EventData)
    → Keeps d ev
    → Keeps (add_target e ev world d) ev
unfolding add_target
add_target-Keeps e ev world d h = if-Keeps (ev.action == action_migrate) _ d ev h h

add_end-Keeps :
    (ev : TaskEvent) (start : Time) (world : Inputs) (d : EventData)
    → Keeps d ev
    → Keeps (add_end ev start world d) ev
unfolding add_end
add_end-Keeps ev start world d h = h

lifecycle_data-Keeps :
    (e : Enricher) (ev : TaskEvent) (start : Time) (world : Inputs)
    → Keeps (lifecycle_data e ev start world) ev
unfolding lifecycle_data
lifecycle_data-Keeps e ev start world =
    let d = add_target e ev world (add_config world.config (base_data e ev)) in
    let h : Keeps d ev =
      add_target-Keeps e ev world (add_config world.config (base_data e ev))
        (add_config-Keeps world.config (base_data e ev) ev (refl, refl)) in
    if-Keeps (is_terminal ev) (add_end ev start world d) d ev (add_end-Keeps ev start world d h) h

lifecycle-Keeps :
    (e : Enricher) (ev : TaskEvent) (start : Time) (world : Inputs)
    → Keeps (lifecycle e ev start world).0.event_data ev
unfolding lifecycle new
lifecycle-Keeps e ev start world = lifecycle_data-Keeps e ev start world

watch_step_phase :
    (k : Bytes) (st : WatchState) (ev : TaskEvent) (world : Inputs)
    → event_phase k (watch_step st ev world).0 ≡ task_phase k ev
unfolding watch_step
watch_step_phase k st ev world =
    let (u, p) = lifecycle-Keeps st.enricher ev _ world in ap₂ (phase_if k) u p

-- What `runWatcher` makes of events tells what they tell.
pub told-watch_run :
    (k : Bytes) (st : WatchState) (evs : List (TaskEvent × Inputs))
    → told (event_phase k) (watch_run st evs).0 ≡ told (task_phase k) (map (λ p. p.0) evs)
unfolding told watch_run
told-watch_run k st [] = refl
told-watch_run k st ((ev, world) ∷ evs) =
    let rest = told-watch_run k ((watch_step st ev world).1) evs in
    rw (watch_step_phase k st ev world, told)
      (elim (Option-cases (task_phase k ev)) [
        | inl e ↦ rw (e, told) rest
        | inr (p, e) ↦ rw (e, told) (ap (◌∷◌ p) rest)
      ])

-- The events among the effects.
unfoldable pub sends : List Effect → List TaskEvent
sends [] = []
sends (send ev ∷ es) = ev ∷ sends es
sends (watch u ∷ es) = sends es

unfoldable pub all_sends : List (List Effect) → List TaskEvent
unfolding sends
all_sends [] = []
all_sends (es ∷ ess) = sends es ++ all_sends ess

unfoldable pub all_phases : List (List Phase) → List Phase
all_phases [] = []
all_phases (ps ∷ pss) = ps ++ all_phases pss
