-- ===== src/Examples/Json.antt =====
-- The objects of two events, and what is read of them.
use proxmox_eventbus.Prelude.{◌≡◌, refl, [], ◌∷◌, some, codes, pos, bytes_eq}
use proxmox_eventbus.Events.{
  EventData, CloudEvent, zero_data, kind_qemu, action_migrate, phase_finished, new,
}
use proxmox_eventbus.Events.Json.{data_object, event_object, text, number}
use proxmox_eventbus.Events.Json.Schema.{
  Conforms, envelope_schema, data_schema, undocumented, without, event_object-Conforms,
}
use proxmox_eventbus.Events.Json.Reading.{read_data, read_data-data_object}
use proxmox_eventbus.Tail.Reading.{detail_of, detail_fields, detail_of-data_object}

abbrev migrated : EventData
migrated = record zero_data {
  schema_version = codes "1";
  cluster = codes "lab";
  node = codes "pve1";
  kind = kind_qemu;
  vmid = pos 101;
  tags = codes "prod" ∷ [];
  action = action_migrate;
  phase = phase_finished;
  duration_ms = some (pos 0);
}

abbrev event : CloudEvent
event = new (codes "id") 0 (codes "t") (codes "s") [] migrated

-- An event that has the key.
abbrev unknown : CloudEvent
unknown =
    new (codes "id") 0 (codes "t") (codes "s") []
      (record migrated { state_detail = codes "stat: permission denied" })

event_object-Conforms_example :
    Conforms (event_object (λ t. codes "0001-01-01T00:00:00Z") unknown).0 envelope_schema
    × Conforms
        (without undocumented (event_object (λ t. codes "0001-01-01T00:00:00Z") unknown).1)
        data_schema
event_object-Conforms_example = event_object-Conforms (λ t. codes "0001-01-01T00:00:00Z") unknown

read_data-data_object_example : read_data (data_object migrated) ≡ migrated
read_data-data_object_example = read_data-data_object migrated

detail_of-data_object_example : detail_of (data_object migrated) ≡ detail_fields migrated
detail_of-data_object_example = detail_of-data_object migrated

-- The end of a batch of a node without guests has no `count`.
empty_batch :
    data_object (record zero_data {
      schema_version = codes "1";
      cluster = codes "lab";
      node = codes "pve1";
      snapshot_id = codes "b1";
      observed_at_ns = pos 7;
    })
    ≡ (codes "schemaVersion", text (codes "1"))
      ∷ (codes "cluster", text (codes "lab"))
      ∷ (codes "node", text (codes "pve1"))
      ∷ (codes "snapshot_id", text (codes "b1"))
      ∷ (codes "observed_at_ns", number (pos 7))
      ∷ []
unfolding data_object
empty_batch = refl
