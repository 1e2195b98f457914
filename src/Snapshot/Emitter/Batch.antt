-- ===== src/Snapshot/Emitter/Batch.antt =====
-- What a consumer can tell from a batch.
use proxmox_eventbus.Prelude.{
  suc, ◌+◌, ◌≡◌, refl, sym, ap, ◌∙◌, List, [], ◌∷◌, ◌++◌, some, Bytes, arith, All, All-append,
  length, length-append, ℕ, ℤ, append_assoc,
}
use proxmox_eventbus.Prelude.Result.{Result, ok, err}
use proxmox_eventbus.Events.{Kind, kind_qemu, kind_lxc, EventData, CloudEvent, phase_snapshot, new}
use proxmox_eventbus.Snapshot.Emitter.{
  Emitter, BatchWorld, add_names, snapshot_event, guest_events, complete_event, emit_batch,
}

-- The event of a guest, of the batch with this identifier.
abbrev pub IsGuest : Bytes → CloudEvent → Type 0
IsGuest id ev = (ev.event_data.snapshot_id ≡ id) × (ev.event_data.phase ≡ phase_snapshot)

add_names-kept :
    (c : Result _ _) (d : EventData)
    → ((add_names c d).snapshot_id ≡ d.snapshot_id) × ((add_names c d).phase ≡ d.phase)
unfolding add_names
add_names-kept (ok c) d = (refl, refl)
add_names-kept (err x) d = (refl, refl)

snapshot_event-IsGuest :
    (e : Emitter) (world : BatchWorld) (i : ℕ) (kind : Kind) (vmid : ℤ)
    → IsGuest world.snapshot_id (snapshot_event e world i kind vmid)
unfolding snapshot_event new
snapshot_event-IsGuest e world i kind vmid = add_names-kept (world.config kind vmid) _

guest_events-IsGuest :
    (e : Emitter) (world : BatchWorld) (kind : Kind) (count : ℕ) (vmids : List ℤ)
    → All (IsGuest world.snapshot_id) ((guest_events e world kind count vmids).0)
unfolding guest_events
guest_events-IsGuest e world kind count [] = tt
guest_events-IsGuest e world kind count (vmid ∷ vmids) = (
  snapshot_event-IsGuest e world count kind vmid,
  guest_events-IsGuest e world kind (count + 1) vmids,
)

length-guest_events :
    (e : Emitter) (world : BatchWorld) (kind : Kind) (count : ℕ) (vmids : List ℤ)
    → length ((guest_events e world kind count vmids).0) ≡ length vmids
unfolding guest_events
length-guest_events e world kind count [] = refl
length-guest_events e world kind count (vmid ∷ vmids) =
    ap suc (length-guest_events e world kind (count + 1) vmids)

guest_events-count :
    (e : Emitter) (world : BatchWorld) (kind : Kind) (count : ℕ) (vmids : List ℤ)
    → (guest_events e world kind count vmids).1 ≡ count + length vmids
unfolding guest_events
guest_events-count e world kind count [] = omega arith
guest_events-count e world kind count (vmid ∷ vmids) =
    omega (arith, guest_events-count e world kind (count + 1) vmids)

-- The events of the guests, without the last one.
unfoldable pub batch_guests : Emitter → BatchWorld → List ℤ → List ℤ → List CloudEvent
batch_guests e world qemu lxc =
    (guest_events e world kind_qemu 0 qemu).0
    ++ (guest_events e world kind_lxc ((guest_events e world kind_qemu 0 qemu).1) lxc).0

-- For all lists of guests, the sends of `emitBatch` are one event per guest, each with the batch's
-- identifier and the phase `snapshot`, and then one `snapshot.complete` event, whose
-- `SnapshotCount` is the number of the guests and so of the events in front of it.
pub emit_batch_count :
    (e : Emitter) (world : BatchWorld) (qemu lxc : List ℤ)
    → (emit_batch e world (some (qemu, lxc))
        ≡ batch_guests e world qemu lxc ++ complete_event e world (length qemu + length lxc) ∷ [])
      × All (IsGuest world.snapshot_id) (batch_guests e world qemu lxc)
      × (length (batch_guests e world qemu lxc) ≡ length qemu + length lxc)
unfolding emit_batch batch_guests
emit_batch_count e world qemu lxc =
    let m = (guest_events e world kind_qemu 0 qemu).1 in
    let counted : (guest_events e world kind_lxc m lxc).1 ≡ length qemu + length lxc = omega (
      arith,
      guest_events-count e world kind_qemu 0 qemu,
      guest_events-count e world kind_lxc m lxc,
    ) in
    (
      ap
            (λ n.
              (guest_events e world kind_qemu 0 qemu).0
              ++ ((guest_events e world kind_lxc m lxc).0 ++ complete_event e world n ∷ []))
            counted
          ∙ sym (
              append_assoc ((guest_events e world kind_qemu 0 qemu).0)
                ((guest_events e world kind_lxc m lxc).0) _),
      All-append _ _ _ (guest_events-IsGuest e world kind_qemu 0 qemu)
          (guest_events-IsGuest e world kind_lxc m lxc),
      omega (
        arith,
        length-append ((guest_events e world kind_qemu 0 qemu).0)
            ((guest_events e world kind_lxc m lxc).0),
        length-guest_events e world kind_qemu 0 qemu,
        length-guest_events e world kind_lxc m lxc,
      ),
    )
