-- ===== src/Snapshot/Emitter/Whole.antt =====
-- How a consumer can tell that it has received a whole batch.
use proxmox_eventbus.Prelude.{List, ◌++◌, map, ℤ}
use proxmox_eventbus.Prelude.Result.{Result}
use proxmox_eventbus.Events.{Kind, kind_qemu, kind_lxc, EventData, CloudEvent}
use proxmox_eventbus.Snapshot.Emitter.{Emitter}

abbrev data_guest : EventData → Kind × ℤ
data_guest d = (d.kind, d.vmid)

-- The guest that an event is about.
abbrev pub guest_of : CloudEvent → Kind × ℤ
guest_of ev = data_guest ev.event_data

-- The guests of a list, qemu first.
abbrev pub guests_of : List ℤ → List ℤ → List (Kind × ℤ)
guests_of qemu lxc = map (λ v. (kind_qemu, v)) qemu ++ map (λ v. (kind_lxc, v)) lxc
