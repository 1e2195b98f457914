-- ===== src/Tail/Reading.antt =====
-- cmd/proxmox-eventbus/tail.go: what `printSummary` reads of the events that the daemon publishes.
use proxmox_eventbus.Prelude.{◌≡◌, refl, bytes_beq, codes}
use proxmox_eventbus.Events.{EventData}
use proxmox_eventbus.Events.Json.{Object, data_members, data_object}
use proxmox_eventbus.Events.Json.Reading.{
  member, text_of, number_of, texts_of, pointer_of, sought, read_text, read_number, read_texts,
  read_pointer,
}
use proxmox_eventbus.Tail.{Detail}

-- `json.Unmarshal(ev.Data, &d)`, of the object
unfoldable pub detail_of : Object → Detail
unfolding member text_of number_of texts_of pointer_of
detail_of o = record {
  action = text_of (member (codes "action") o);
  phase = text_of (member (codes "phase") o);
  state = text_of (member (codes "state") o);
  state_detail = text_of (member (codes "state_detail") o);
  vmid = number_of (member (codes "vmid") o);
  name = text_of (member (codes "name") o);
  tags = texts_of (member (codes "tags") o);
  source_node = text_of (member (codes "source_node") o);
  target_node = text_of (member (codes "target_node") o);
  duration_ms = pointer_of (member (codes "duration_ms") o);
  exit_status = text_of (member (codes "exit_status") o);
  snapshot_count = number_of (member (codes "count") o);
}

-- The fields of an `EventData` that `tail` prints.
abbrev pub detail_fields : EventData → Detail
detail_fields d = record {
  action = d.action;
  phase = d.phase;
  state = d.state;
  state_detail = d.state_detail;
  vmid = d.vmid;
  name = d.name;
  tags = d.tags;
  source_node = d.source_node;
  target_node = d.target_node;
  duration_ms = d.duration_ms;
  exit_status = d.exit_status;
  snapshot_count = d.snapshot_count;
}

-- Of the data of every event as the daemon writes it, `tail` reads the very fields that the daemon
-- has set, also those that were left out because they are zero: the keys that it looks for are
-- those that the tags give.
pub detail_of-data_object : (d : EventData) → detail_of (data_object d) ≡ detail_fields d
unfolding detail_of sought data_members bytes_beq
detail_of-data_object d = λ i. record {
  action = read_text d (codes "action") d.action refl i;
  phase = read_text d (codes "phase") d.phase refl i;
  state = read_text d (codes "state") d.state refl i;
  state_detail = read_text d (codes "state_detail") d.state_detail refl i;
  vmid = read_number d (codes "vmid") d.vmid refl i;
  name = read_text d (codes "name") d.name refl i;
  tags = read_texts d (codes "tags") d.tags refl i;
  source_node = read_text d (codes "source_node") d.source_node refl i;
  target_node = read_text d (codes "target_node") d.target_node refl i;
  duration_ms = read_pointer d (codes "duration_ms") d.duration_ms refl i;
  exit_status = read_text d (codes "exit_status") d.exit_status refl i;
  snapshot_count = read_number d (codes "count") d.snapshot_count refl i;
}
