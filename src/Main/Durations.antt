-- ===== src/Main/Durations.antt =====
-- The duration of a task, from its started event to its terminal one.
use proxmox_eventbus.Prelude.{
  ◌≡◌, ◌≢◌, refl, sym, ap, subst, ◌∙◌, ◌⊎◌, inl, inr, Bool, true, false, not, List, [], ◌∷◌, none,
  some, Bytes, ◌==◌, nat_eq, bytes_eq, bytes_beq, bytes_beq_refl, bytes_beq_ne, bytes_beq_iff,
  if◌then◌else◌, if_true, Bool-cases, arith, All, sub_ℕ, nat_beq_iff,
}
use proxmox_eventbus.Prelude.GoMap
use proxmox_eventbus.Prelude.GoMap.{GoMap}
use proxmox_eventbus.Events.{Time, phase_started, new}
use proxmox_eventbus.Tasks.Watcher.{TaskEvent}
use proxmox_eventbus.Enrich.Lifecycle.{
  Enricher, Inputs, is_terminal, milliseconds, add_end, lifecycle_data, lifecycle,
}
use proxmox_eventbus.Enrich.Lifecycle.Targets.{start-not_terminal}
use proxmox_eventbus.Main.{WatchState, watch_step, watch_run}

-- The event is another task's, or neither the start nor the end of this one (`synced`).
abbrev pub Passes : Bytes → TaskEvent × Inputs → Type 0
Passes raw (ev, _) =
    (ev.upid.raw ≢ raw) ⊎ ((ev.phase == phase_started ≡ false) × (is_terminal ev ≡ false))

watch_step-passing :
    (raw : Bytes) (st : WatchState) (ev : TaskEvent) (world : Inputs)
    → Passes raw (ev, world)
    → (watch_step st ev world).1.starts raw ≡ st.starts raw
unfolding watch_step
watch_step-passing raw st ev world (inl n) =
    let h : bytes_beq raw ev.upid.raw ≡ false = bytes_beq_ne raw ev.upid.raw (λ e. n (sym e)) in
    other (ev.phase == phase_started) (is_terminal ev) h
  where
    other :
        (s t : Bool)
        → bytes_beq raw ev.upid.raw ≡ false
        → (if t
              then GoMap.delete
                  (if s then GoMap.set st.starts ev.upid.raw ev.obs_time else st.starts)
                  ev.upid.raw
              else (if s then GoMap.set st.starts ev.upid.raw ev.obs_time else st.starts))
            raw
          ≡ st.starts raw
    other s t h = ground (arith, h)
watch_step-passing raw st ev world (inr (hs, ht)) = rw (hs, ht)

watch_run-passing :
    (raw : Bytes) (st : WatchState) (evs : List (TaskEvent × Inputs))
    → All (Passes raw) evs
    → (watch_run st evs).1.starts raw ≡ st.starts raw
unfolding watch_run
watch_run-passing raw st [] h = refl
watch_run-passing raw st ((ev, world) ∷ evs) (hp, h) =
    watch_run-passing raw ((watch_step st ev world).1) evs h ∙ watch_step-passing raw st ev world hp

started-starts :
    (st : WatchState) (ev : TaskEvent) (world : Inputs)
    → ev.phase ≡ phase_started
    → (watch_step st ev world).1.starts ev.upid.raw ≡ some ev.obs_time
unfolding watch_step
started-starts st ev world h =
    let e : bytes_beq ev.phase phase_started ≡ true =
      ap (λ p. p == phase_started) h ∙ bytes_beq_refl phase_started in
    rw (start-not_terminal ev h, e) (rw (bytes_beq_refl ev.upid.raw))

terminal-starts :
    (st : WatchState) (ev : TaskEvent) (world : Inputs)
    → is_terminal ev ≡ true
    → (watch_step st ev world).1.starts ev.upid.raw ≡ none
unfolding watch_step
terminal-starts st ev world h = rw h (rw (bytes_beq_refl ev.upid.raw))

lifecycle-duration :
    (e : Enricher) (ev : TaskEvent) (start : Time) (world : Inputs)
    → is_terminal ev ≡ true
    → start ≢ 0
    → (lifecycle e ev start world).0.event_data.duration_ms
      ≡ some (milliseconds (sub_ℕ world.clock start))
unfolding lifecycle lifecycle_data add_end new
lifecycle-duration e ev start world h n = rw h (if_true _ _ (not-zero start n))
  where
    not-zero : (t : Time) → t ≢ 0 → not (t == 0) ≡ true
    not-zero t n = ground (arith, nat_beq_iff t 0)

terminal-not_start : (ev : TaskEvent) → is_terminal ev ≡ true → (ev.phase == phase_started) ≡ false
terminal-not_start ev h = elim (Bool-cases (ev.phase == phase_started)) [
  | inl e ↦ cc (start-not_terminal ev ((bytes_beq_iff ev.phase phase_started).0 e), h)
  | inr e ↦ e
]

stored-start :
    (st : WatchState) (ev : TaskEvent) (start : Time)
    → (ev.phase == phase_started) ≡ false
    → st.starts ev.upid.raw ≡ some start
    → GoMap.get_or
        ((if ev.phase == phase_started
            then GoMap.set st.starts ev.upid.raw ev.obs_time
            else st.starts)
          ev.upid.raw)
        0
      ≡ start
stored-start st ev start f e = rw (f, e)

-- What a terminal event does with the start that the map holds.
terminal-step :
    (st : WatchState) (ev : TaskEvent) (world : Inputs) (start : Time)
    → is_terminal ev ≡ true
    → st.starts ev.upid.raw ≡ some start
    → start ≢ 0
    → (watch_step st ev world).0.event_data.duration_ms
      ≡ some (milliseconds (sub_ℕ world.clock start))
unfolding watch_step
terminal-step st ev world start h e n =
    ap (λ t. (lifecycle st.enricher ev t world).0.event_data.duration_ms)
      (stored-start st ev start (terminal-not_start ev h) e)
    ∙ lifecycle-duration st.enricher ev start world h n

-- Let `runWatcher` receive the started event of a task, observed at a time other than the zero
-- time, then any events of other tasks or of other phases of this one, then its terminal event. The
-- terminal event carries as its duration the time from that observation to the clock, cut to
-- milliseconds, and behind it no start is stored for the UPID.
pub terminal-duration :
    (st : WatchState) (s f : TaskEvent) (ws wf : Inputs) (between : List (TaskEvent × Inputs))
    → s.phase ≡ phase_started
    → s.obs_time ≢ 0
    → All (Passes s.upid.raw) between
    → is_terminal f ≡ true
    → f.upid.raw ≡ s.upid.raw
    → ((watch_step ((watch_run ((watch_step st s ws).1) between).1) f wf).0.event_data.duration_ms
        ≡ some (milliseconds (sub_ℕ wf.clock s.obs_time)))
      × ((watch_step ((watch_run ((watch_step st s ws).1) between).1) f wf).1.starts s.upid.raw
          ≡ none)
terminal-duration st s f ws wf between hs hn hb ht hr =
    let st1 = (watch_step st s ws).1 in
    let st2 = (watch_run st1 between).1 in
    (
      terminal-step st2 f wf s.obs_time ht
          (ap st2.starts hr
            ∙ watch_run-passing s.upid.raw st1 between hb
            ∙ started-starts st s ws hs)
          hn,
      subst (λ u. (watch_step st2 f wf).1.starts u ≡ none) hr (terminal-starts st2 f wf ht),
    )
