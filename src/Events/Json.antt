-- ===== src/Events/Json.antt =====
-- internal/events/events.go: the JSON objects that the tags of `CloudEvent` and `EventData` make
-- encoding/json write, and cmd/proxmox-eventbus/tail.go: what it reads of them.
--
-- An object is its members in their order. Its text is not modelled: it is the matter of
-- encoding/json, as is the text of a time, which is a parameter.
pub mod Schema
pub mod Reading
use proxmox_eventbus.Prelude.{
  Bool, true, false, List, [], ◌∷◌, Option, none, some, Bytes, codes, ◌==◌, bytes_eq, bytes_beq,
  if◌then◌else◌, ℤ, is_zero,
}
use proxmox_eventbus.Events.{Time, EventData, CloudEvent}

pub data Value : Type 0 where
  text : Bytes → Value
  number : ℤ → Value
  texts : List Bytes → Value

abbrev pub Object : Type 0
Object = List (Bytes × Value)

-- The members of a struct: of each the key, and the value unless `omitempty` leaves it out.
abbrev pub Members : Type 0
Members = List (Bytes × Option Value)

unfoldable pub collect : Members → Object
collect [] = []
collect ((k, none) ∷ ms) = collect ms
collect ((k, some v) ∷ ms) = (k, v) ∷ collect ms

-- `omitempty` of a string, an int, a slice and a pointer
unfoldable pub omit_text : Bytes → Option Value
omit_text [] = none
omit_text (c ∷ s) = some (text (c ∷ s))

unfoldable pub omit_number : ℤ → Option Value
omit_number n = if is_zero n then none else some (number n)

unfoldable pub omit_texts : List Bytes → Option Value
omit_texts [] = none
omit_texts (t ∷ ts) = some (texts (t ∷ ts))

unfoldable pub omit_nil : Option ℤ → Option Value
omit_nil none = none
omit_nil (some n) = some (number n)

-- The fields of `EventData` with their tags.
unfoldable pub data_members : EventData → Members
unfolding omit_text omit_number omit_texts omit_nil
data_members d =
    (codes "schemaVersion", some (text d.schema_version))
    ∷ (codes "cluster", some (text d.cluster))
    ∷ (codes "node", some (text d.node))
    ∷ (codes "kind", omit_text d.kind)
    ∷ (codes "vmid", omit_number d.vmid)
    ∷ (codes "name", omit_text d.name)
    ∷ (codes "tags", omit_texts d.tags)
    ∷ (codes "description", omit_text d.description)
    ∷ (codes "hookscript", omit_text d.hook_script)
    ∷ (codes "action", omit_text d.action)
    ∷ (codes "phase", omit_text d.phase)
    ∷ (codes "upid", omit_text d.upid)
    ∷ (codes "user", omit_text d.user)
    ∷ (codes "source_node", omit_text d.source_node)
    ∷ (codes "target_node", omit_text d.target_node)
    ∷ (codes "duration_ms", omit_nil d.duration_ms)
    ∷ (codes "exit_status", omit_text d.exit_status)
    ∷ (codes "state", omit_text d.state)
    ∷ (codes "state_detail", omit_text d.state_detail)
    ∷ (codes "snapshot_id", omit_text d.snapshot_id)
    ∷ (codes "observed_at_ns", omit_number d.observed_at_ns)
    ∷ (codes "count", omit_number d.snapshot_count)
    ∷ []

unfoldable pub data_object : EventData → Object
unfolding collect data_members
data_object d = collect (data_members d)

-- The fields of `CloudEvent` but `data`, whose member stands behind them.
unfoldable pub envelope_members : (Time → Bytes) → CloudEvent → Members
unfolding omit_text
envelope_members format ev =
    (codes "specversion", some (text ev.spec_version))
    ∷ (codes "id", some (text ev.id))
    ∷ (codes "source", some (text ev.source))
    ∷ (codes "type", some (text ev.type))
    ∷ (codes "subject", omit_text ev.subject)
    ∷ (codes "time", some (text (format ev.time)))
    ∷ (codes "datacontenttype", some (text ev.data_content_type))
    ∷ []

-- The envelope's members in front of `data`, and the object that is the value of `data`.
unfoldable pub event_object : (Time → Bytes) → CloudEvent → Object × Object
unfolding collect envelope_members data_object
event_object format ev = (collect (envelope_members format ev), data_object ev.event_data)
