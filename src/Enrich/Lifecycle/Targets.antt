-- ===== src/Enrich/Lifecycle/Targets.antt =====
-- The target of a migration, from its started event to its terminal one.
use proxmox_eventbus.Prelude.{
  ◌≡◌, ◌≢◌, refl, sym, ap, subst, ◌∙◌, ◌⊎◌, inl, inr, Bool, true, false, List, [], ◌∷◌, Bytes, ◌==◌,
  bytes_eq, bytes_beq, bytes_beq_refl, bytes_beq_ne, if◌then◌else◌, Bool-cases, arith, All,
}
use proxmox_eventbus.Prelude.GoMap.{GoMap}
use proxmox_eventbus.Prelude.Result.{Result, ok, err}
use proxmox_eventbus.Events.{Time, EventData, action_migrate, phase_started, new}
use proxmox_eventbus.Tasks.Watcher.{TaskEvent}
use proxmox_eventbus.Enrich.Target.{first_of}
use proxmox_eventbus.Enrich.Target.Command.{first_of_nil, first_of_some}
use proxmox_eventbus.Enrich.Lifecycle.{
  Enricher, Inputs, resolve_migrate_target, remember, recall, forget, is_terminal, event_target,
  update_targets, next_targets, add_config, add_end, add_target, lifecycle_data, lifecycle,
}

-- A call of `Lifecycle`.
abbrev pub Call : Type 0
Call = TaskEvent × Time × Inputs

-- The enricher behind a list of calls.
unfoldable pub run : Enricher → List Call → Enricher
run e [] = e
run e ((ev, start, world) ∷ calls) = run ((lifecycle e ev start world).1) calls

-- The event is another task's, or neither the start nor the end of this one (`synced`).
abbrev pub Passes : Bytes → Call → Type 0
Passes raw (ev, _, _) =
    (ev.upid.raw ≢ raw) ⊎ ((ev.phase == phase_started ≡ false) × (is_terminal ev ≡ false))

module _ (raw : Bytes) (m : GoMap Bytes) (ev : TaskEvent) (world : Inputs) where
  next_targets_other : (ev.upid.raw ≢ raw) → recall raw (next_targets m ev world) ≡ recall raw m
  unfolding next_targets recall remember forget
  next_targets_other n =
      let h : bytes_beq raw ev.upid.raw ≡ false = bytes_beq_ne raw ev.upid.raw (λ e. n (sym e)) in
      ground (arith, h)

  next_targets_passing :
      (ev.phase == phase_started ≡ false) → is_terminal ev ≡ false → next_targets m ev world ≡ m
  unfolding next_targets
  next_targets_passing hs ht = ground (arith, hs, ht)

lifecycle-recall :
    (raw : Bytes) (e : Enricher) (ev : TaskEvent) (start : Time) (world : Inputs)
    → Passes raw (ev, start, world)
    → recall raw ((lifecycle e ev start world).1.migrate_targets) ≡ recall raw e.migrate_targets
unfolding lifecycle
lifecycle-recall raw e ev start world p = elim (Bool-cases (ev.action == action_migrate)) [
  | inl h ↦ rw h (elim p [
    | inl n ↦ next_targets_other raw e.migrate_targets ev world n
    | inr q ↦ ap (recall raw) (next_targets_passing raw e.migrate_targets ev world q.0 q.1)
  ])
  | inr h ↦ rw h
]

run-recall :
    (raw : Bytes) (e : Enricher) (calls : List Call)
    → All (Passes raw) calls
    → recall raw (run e calls).migrate_targets ≡ recall raw e.migrate_targets
unfolding run
run-recall raw e [] h = refl
run-recall raw e ((ev, start, world) ∷ calls) (hp, h) =
    run-recall raw ((lifecycle e ev start world).1) calls h
    ∙ lifecycle-recall raw e ev start world hp

event_target-resolved :
    (m : GoMap Bytes) (ev : TaskEvent) (world : Inputs)
    → resolve_migrate_target ev world ≢ []
    → event_target m ev world ≡ resolve_migrate_target ev world
unfolding event_target
event_target-resolved m ev world h = first_of_some _ (recall ev.upid.raw m) h

event_target-recalled :
    (m : GoMap Bytes) (ev : TaskEvent) (world : Inputs)
    → resolve_migrate_target ev world ≡ []
    → event_target m ev world ≡ recall ev.upid.raw m
unfolding event_target
event_target-recalled m ev world h =
    ap (λ t. first_of t (recall ev.upid.raw m)) h ∙ first_of_nil (recall ev.upid.raw m)

update_targets-start :
    (m : GoMap Bytes) (raw target : Bytes) (started terminal : Bool)
    → started ≡ true
    → terminal ≡ false
    → raw ≢ []
    → target ≢ []
    → recall raw (update_targets started terminal raw target m) ≡ target
unfolding update_targets recall remember
update_targets-start m raw target started terminal hs ht hr hn =
    rw (hs, ht, bytes_beq_ne raw [] hr, bytes_beq_ne target [] hn) (rw (bytes_beq_refl raw))

pub start-not_terminal : (ev : TaskEvent) → ev.phase ≡ phase_started → is_terminal ev ≡ false
unfolding is_terminal bytes_beq
start-not_terminal ev h = rw h

-- The started event of a migration stores the target that it resolves.
started-recall :
    (e : Enricher) (ev : TaskEvent) (start : Time) (world : Inputs)
    → ev.action ≡ action_migrate
    → ev.phase ≡ phase_started
    → ev.upid.raw ≢ []
    → resolve_migrate_target ev world ≢ []
    → recall ev.upid.raw ((lifecycle e ev start world).1.migrate_targets)
      ≡ resolve_migrate_target ev world
unfolding lifecycle next_targets
started-recall e ev start world ha hp hr ht =
    let resolved = event_target-resolved e.migrate_targets ev world ht in
    ap
      (λ a. recall ev.upid.raw (
        if a == action_migrate then next_targets e.migrate_targets ev world else e.migrate_targets))
      ha
    ∙ update_targets-start e.migrate_targets ev.upid.raw (event_target e.migrate_targets ev world)
        (ev.phase == phase_started) (is_terminal ev) (ap (λ p. p == phase_started) hp)
        (start-not_terminal ev hp) hr (subst (λ t. t ≢ []) (sym resolved) ht)
    ∙ resolved

-- The terminal event of a migration removes what is stored.
terminal-recall :
    (e : Enricher) (ev : TaskEvent) (start : Time) (world : Inputs)
    → ev.action ≡ action_migrate
    → is_terminal ev ≡ true
    → recall ev.upid.raw ((lifecycle e ev start world).1.migrate_targets) ≡ []
unfolding lifecycle next_targets recall forget
terminal-recall e ev start world ha ht = rw (ha, ht) (rw (bytes_beq_refl ev.upid.raw))

add_config-target : (c : Result _ _) (d : EventData) → (add_config c d).target_node ≡ d.target_node
unfolding add_config
add_config-target (ok c) d = refl
add_config-target (err x) d = refl

-- The target that an event of a migration carries.
lifecycle-target :
    (e : Enricher) (ev : TaskEvent) (start : Time) (world : Inputs)
    → ev.action ≡ action_migrate
    → (lifecycle e ev start world).0.event_data.target_node
      ≡ event_target e.migrate_targets ev world
unfolding lifecycle lifecycle_data add_target add_end new
lifecycle-target e ev start world ha = elim (Bool-cases (is_terminal ev)) [
  | inl h ↦ rw (h, ha)
  | inr h ↦ rw (h, ha)
]

-- Let the started event of a migration, with a UPID that is not empty, resolve a target, and let
-- its terminal event, behind any calls for other tasks or for phases of this one in between,
-- resolve none (the process is gone and its log is not found). Then the terminal event still
-- carries the target of the started one, as that one does, and behind it nothing is stored for the
-- UPID.
pub terminal-target :
    (e : Enricher) (s f : TaskEvent) (ts tf : Time) (ws wf : Inputs) (between : List Call)
    → s.action ≡ action_migrate
    → s.phase ≡ phase_started
    → s.upid.raw ≢ []
    → resolve_migrate_target s ws ≢ []
    → All (Passes s.upid.raw) between
    → f.action ≡ action_migrate
    → is_terminal f ≡ true
    → f.upid.raw ≡ s.upid.raw
    → resolve_migrate_target f wf ≡ []
    → ((lifecycle e s ts ws).0.event_data.target_node ≡ resolve_migrate_target s ws)
      × ((lifecycle (run ((lifecycle e s ts ws).1) between) f tf wf).0.event_data.target_node
          ≡ resolve_migrate_target s ws)
      × (recall s.upid.raw
            ((lifecycle (run ((lifecycle e s ts ws).1) between) f tf wf).1.migrate_targets)
          ≡ [])
terminal-target e s f ts tf ws wf between ha hp hr ht hb fa ft fr fn =
    let e1 = (lifecycle e s ts ws).1 in
    let e2 = run e1 between in
    let stored : recall s.upid.raw e2.migrate_targets ≡ resolve_migrate_target s ws =
      run-recall s.upid.raw e1 between hb ∙ started-recall e s ts ws ha hp hr ht in
    (
      lifecycle-target e s ts ws ha ∙ event_target-resolved e.migrate_targets s ws ht,
      lifecycle-target e2 f tf wf fa
          ∙ event_target-recalled e2.migrate_targets f wf fn
          ∙ ap (λ u. recall u e2.migrate_targets) fr
          ∙ stored,
      subst (λ u. recall u ((lifecycle e2 f tf wf).1.migrate_targets) ≡ []) fr
          (terminal-recall e2 f tf wf fa ft),
    )
