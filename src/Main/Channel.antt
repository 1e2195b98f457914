-- ===== src/Main/Channel.antt =====
-- cmd/proxmox-eventbus/main.go: the channel `out` of `runDaemon`, its senders and the publisher
-- loop.
--
-- `runWatcher` waits for room in the channel, `send` of a snapshot drops its event where there is
-- none, and the publisher loop receives the events and hands each one to `PublishJSON`.
pub mod Branches
use proxmox_eventbus.Prelude.{
  ℕ, Bool, List, [], ◌∷◌, ◌++◌, Option, none, some, Bytes, if◌then◌else◌, ltb, length, map,
}
use proxmox_eventbus.Events.{CloudEvent}
use proxmox_eventbus.Main.{publish_subject}

-- `make(chan events.CloudEvent, 1024)`
abbrev pub capacity : ℕ
capacity = 1024

-- The events in the channel, and those that the publisher has received, both in their order.
pub record Outbox : Type 0 where
  pub queue : List CloudEvent
  pub received : List CloudEvent

abbrev pub new_outbox : Outbox
new_outbox = record { queue = []; received = [] }

-- Everything that was put into the channel.
abbrev pub accepted : Outbox → List CloudEvent
accepted out = out.received ++ out.queue

unfoldable pub has_room : Outbox → Bool
has_room out = ltb (length out.queue) capacity

unfoldable pub enqueue : CloudEvent → Outbox → Outbox
enqueue ev out = record out { queue = out.queue ++ (ev ∷ []) }

-- `out <- ce` of `runWatcher`, which waits at a full channel
unfoldable pub forward_event : CloudEvent → Outbox → Option Outbox
unfolding has_room enqueue
forward_event ev out = if has_room out then some (enqueue ev out) else none

-- `send` of the emitter, which drops its event at a full channel
unfoldable pub offer_event : CloudEvent → Outbox → Outbox
unfolding has_room enqueue
offer_event ev out = if has_room out then enqueue ev out else out

-- A receive of the publisher loop, which waits at an empty channel.
unfoldable pub take_from : List CloudEvent → List CloudEvent → Option Outbox
take_from [] received = none
take_from (ev ∷ queue) received = some (record { queue = queue; received = received ++ (ev ∷ []) })

-- The call of `PublishJSON` for a received event: the subject and the event.
unfoldable pub publication : CloudEvent → Bytes × CloudEvent
unfolding publish_subject
publication ev = (publish_subject ev, ev)

unfoldable pub published : Outbox → List (Bytes × CloudEvent)
published out = map publication out.received
