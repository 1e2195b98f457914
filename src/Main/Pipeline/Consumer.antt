-- ===== src/Main/Pipeline/Consumer.antt =====
-- From the task log to the consumer: what the published events tell of one task.
use mathlib.Core.List.{Sublistᴰ}
use mathlib.Core.List.Sublistᴰ.{slnil, cons, cons-cons}
use proxmox_eventbus.Prelude.{
  ◌≡◌, ◌≢◌, ◌⊎◌, inl, inr, refl, sym, ap, ap₂, subst, ◌∙◌, false, List, [], ◌∷◌, ◌++◌, map, Option,
  none, some, Bytes, bytes_eq, bytes_beq, ◌==◌, Bool-cases, All, All-append, append-nil, ℕ, ◌+◌, ℤ,
}
use proxmox_eventbus.Prelude.Merges.{Merges}
use proxmox_eventbus.Bufio.{FileRead}
use proxmox_eventbus.Events.{
  Time, Kind, kind_qemu, kind_lxc, EventData, new, Phase, phase_started, phase_finished,
  phase_failed, phase_synced,
}
use proxmox_eventbus.Tasks.Watcher.{TaskEvent, Watcher, Effect, send, watch, parse_all}
use proxmox_eventbus.Tasks.Watcher.Vocabulary.{IfSent, IsFromTable, parse_all-IsFromTable}
use proxmox_eventbus.Tasks.Watcher.Protocol.{
  phases_of, sent_by_scans, run_scans, stage, IsConsistent, Lives,
}
use proxmox_eventbus.Tasks.Watcher.Protocol.Scans.{run_scans-Lives}
use proxmox_eventbus.Prelude.Result.{Result, ok, err}
use proxmox_eventbus.Snapshot.Emitter.{
  Emitter, BatchWorld, add_names, snapshot_event, guest_events, complete_event, emit_batch,
}
use proxmox_eventbus.Main.{WatchState, watch_run}
use proxmox_eventbus.Main.Channel.{accepted}
use proxmox_eventbus.Main.Pipeline.{Pipeline, History, Reach}
use proxmox_eventbus.Main.Pipeline.Order.{held_list, Reach-InOrder}
use proxmox_eventbus.Main.Pipeline.Drain.{IsIdle}
use proxmox_eventbus.Main.Pipeline.Told.{
  told, told-append, told-Merges, told-watch_run, phase_if, phase_if_synced, phase_if_nil,
  task_phase, event_phase, sends, all_sends, all_phases,
}

not_synced :
    (p : Phase)
    → (p ≡ phase_started) ⊎ ((p ≡ phase_finished) ⊎ (p ≡ phase_failed))
    → (p == phase_synced) ≡ false
unfolding bytes_beq
not_synced p (inl e) = ap (λ q. q == phase_synced) e
not_synced p (inr (inl e)) = ap (λ q. q == phase_synced) e
not_synced p (inr (inr e)) = ap (λ q. q == phase_synced) e

-- The effects of a scan tell the phases that they send.
told-sends :
    (k : Bytes) (w : Watcher) (es : List Effect)
    → All (IfSent (IsFromTable w.include)) es
    → told (task_phase k) (sends es) ≡ phases_of k es
unfolding told sends phases_of phase_if
told-sends k w [] h = refl
told-sends k w (watch u ∷ es) (_, h) = told-sends k w es h
told-sends k w (send ev ∷ es) (he, h) =
    let rest = told-sends k w es h in
    let known = not_synced ev.phase he.phase_known in
    elim (Bool-cases (k == ev.upid.raw)) [
      | inl e ↦ rw (e, known, told) (ap (◌∷◌ ev.phase) rest)
      | inr e ↦ rw (e, told) rest
    ]

told-all_sends :
    (k : Bytes) (w : Watcher) (rs : List (Time × FileRead))
    → told (task_phase k) (all_sends (sent_by_scans w rs))
      ≡ all_phases (map (phases_of k) (sent_by_scans w rs))
unfolding all_sends sent_by_scans all_phases
told-all_sends k w [] = unfold told in refl
told-all_sends k w ((obs, r) ∷ rs) =
    told-append (task_phase k) (sends (parse_all w obs r).effects) _
    ∙ ap₂ ◌++◌ (told-sends k w (parse_all w obs r).effects (parse_all-IsFromTable w obs r))
        (told-all_sends k (parse_all w obs r).watcher rs)

All-Sublist : {A : Type 0} (P : A → Type 0) {xs ys : List A} → Sublistᴰ xs ys → All P ys → All P xs
All-Sublist P slnil h = tt
All-Sublist P (cons s) (_, h) = All-Sublist P s h
All-Sublist P (cons-cons e s) (hy, h) = (subst P (sym e) hy, All-Sublist P s h)

All-mono :
    {A : Type 0} (P Q : A → Type 0) (xs : List A) → ((x : A) → P x → Q x) → All P xs → All Q xs
All-mono P Q [] f h = tt
All-mono P Q (x ∷ xs) f (hx, h) = (f x hx, All-mono P Q xs f h)

add_names-untied : (c : Result _ _) (d : EventData) → (add_names c d).upid ≡ d.upid
unfolding add_names
add_names-untied (err x) d = refl
add_names-untied (ok cfg) d = refl

guest_events-untied :
    (e : Emitter) (world : BatchWorld) (kind : Kind) (count : ℕ) (ids : List ℤ)
    → All (λ ev. ev.event_data.upid ≡ []) (guest_events e world kind count ids).0
unfolding guest_events snapshot_event new
guest_events-untied e world kind count [] = tt
guest_events-untied e world kind count (id ∷ ids) =
    (add_names-untied (world.config kind id) _, guest_events-untied e world kind (count + 1) ids)

-- What the emitter offers has no UPID.
pub emit_batch-untied :
    (e : Emitter) (world : BatchWorld) (guests : Option (List ℤ × List ℤ))
    → All (λ ev. ev.event_data.upid ≡ []) (emit_batch e world guests)
unfolding emit_batch complete_event new
emit_batch-untied e world none = tt
emit_batch-untied e world (some (qemu, lxc)) =
    let (qemu_events, m) = guest_events e world kind_qemu 0 qemu in
    All-append _ qemu_events _ (guest_events-untied e world kind_qemu 0 qemu) (
      All-append _ ((guest_events e world kind_lxc m lxc).0) _
        (guest_events-untied e world kind_lxc m lxc) (refl, tt))

-- Let the watcher have sent what a sequence of readings of the task log makes it send, and any
-- `synced` events in between, and let the emitter have offered events without a UPID; let nothing
-- be on its way. Then the published events with a UPID tell, leaving out `synced`, exactly the
-- phases that the readings give, reading by reading, and these keep to the protocol of a task: one
-- start, then one end, and a new start only after an end was forgotten. So no channel, goroutine or
-- order of theirs loses, doubles or swaps what a consumer hears of a task.
pub published_phases-Lives :
    {watch : WatchState} {h : History} {s : Pipeline} (w : Watcher) (rs : List (Time × FileRead))
    (synced : List TaskEvent) (k : Bytes)
    → Reach watch h s
    → IsIdle s
    → IsConsistent w.known
    → Merges (all_sends (sent_by_scans w rs)) synced h.emitted
    → All (λ ev. ev.phase ≡ phase_synced) synced
    → All (λ ev. ev.event_data.upid ≡ []) h.offered
    → k ≢ []
    → (told (event_phase k) s.out.received ≡ all_phases (map (phases_of k) (sent_by_scans w rs)))
      × Lives
          (stage (w.known k))
          (map (phases_of k) (sent_by_scans w rs))
          (stage ((run_scans w rs).known k))
published_phases-Lives {watch} {h} {s} w rs synced k r idle good merged late untied named =
    let i = Reach-InOrder r in
    let all : h.emitted ≡ map (λ p. p.0) h.taken =
      i.tasks ∙ ap (λ q. map (λ p. p.0) h.taken ++ q) idle.no_tasks ∙ append-nil _ in
    let made : (watch_run watch h.taken).0 ≡ i.sent =
      i.made ∙ ap (λ o. i.sent ++ held_list o) idle.nothing_held ∙ append-nil i.sent in
    let empty : accepted s.out ≡ s.out.received =
      ap (λ q. s.out.received ++ q) idle.no_events ∙ append-nil s.out.received in
    let nothing : All (λ ev. event_phase k ev ≡ none) i.kept =
      All-mono _ _ i.kept
        (λ ev e.
          ap (λ u. phase_if k u ev.event_data.phase) e ∙ phase_if_nil k ev.event_data.phase named)
        (All-Sublist _ i.offers untied) in
    let silent : All (λ ev. task_phase k ev ≡ none) synced =
      All-mono _ _ synced (λ ev e. phase_if_synced k ev.upid.raw ev.phase e) late in
    (
      sym (ap (told (event_phase k)) empty)
          ∙ told-Merges (event_phase k) i.merged nothing
          ∙ sym (ap (told (event_phase k)) made)
          ∙ told-watch_run k watch h.taken
          ∙ sym (ap (told (task_phase k)) all)
          ∙ told-Merges (task_phase k) merged silent
          ∙ told-all_sends k w rs,
      run_scans-Lives w rs k good,
    )
