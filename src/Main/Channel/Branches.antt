-- ===== src/Main/Channel/Branches.antt =====
-- What a send and a receive of the channel `out` do, by whether there is room and by what is in it.
use proxmox_eventbus.Prelude.{
  ◌≡◌, sym, ◌⊎◌, inl, inr, ◌<◌, ltb, Bool-cases, if_true, if_false, List, [], ◌∷◌, ◌++◌, some,
  length, append_assoc, arith,
}
use proxmox_eventbus.Events.{CloudEvent}
use proxmox_eventbus.Main.Channel.{
  Outbox, accepted, capacity, has_room, enqueue, forward_event, offer_event, take_from,
}

pub accepted-enqueue :
    (ev : CloudEvent) (out : Outbox) → accepted (enqueue ev out) ≡ accepted out ++ (ev ∷ [])
unfolding enqueue
accepted-enqueue ev out = sym (append_assoc out.received out.queue (ev ∷ []))

pub forward_event-sends :
    (ev : CloudEvent) (out next : Outbox)
    → forward_event ev out ≡ some next
    → (enqueue ev out ≡ next) × (length out.queue < capacity)
unfolding forward_event has_room
forward_event-sends ev out next e = ground arith

pub forward_event_room :
    (ev : CloudEvent) (out : Outbox)
    → length out.queue < capacity
    → forward_event ev out ≡ some (enqueue ev out)
unfolding forward_event has_room
forward_event_room ev out h = ground arith

pub offer_event-cases :
    (ev : CloudEvent) (out : Outbox)
    → ((offer_event ev out ≡ enqueue ev out) × (length out.queue < capacity))
      ⊎ (offer_event ev out ≡ out)
unfolding offer_event has_room
offer_event-cases ev out = elim (Bool-cases (ltb (length out.queue) capacity)) [
  | inl e ↦ inl (if_true _ _ e, ground arith)
  | inr e ↦ inr (if_false _ _ e)
]

pub take_from-receives :
    (queue received : List CloudEvent) (next : Outbox)
    → take_from queue received ≡ some next
    → (ev : CloudEvent) × (queue ≡ ev ∷ next.queue) × (next.received ≡ received ++ (ev ∷ []))
unfolding take_from
take_from-receives [] received next e = cc
take_from-receives (ev ∷ queue) received next e = (ev, ground arith, ground arith)
