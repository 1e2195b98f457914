-- ===== src/Main/Requests.antt =====
-- cmd/proxmox-eventbus/main.go: the two subscriptions of `runDaemon` for snapshot requests.
--
-- Which messages NATS delivers to a subscription is a parameter; that a subscription without a
-- wildcard gets the messages of its own subject, and no other, is a hypothesis.
pub mod Answers
use proxmox_eventbus.Prelude.{
  Bool, true, false, List, [], ◌∷◌, ◌++◌, Option, Bytes, if◌then◌else◌, ℤ,
}
use proxmox_eventbus.Events.{CloudEvent}
use proxmox_eventbus.Snapshot.Emitter.{Emitter, BatchWorld, emit_batch}
use proxmox_eventbus.Main.Startup.{request_subjects}

-- the callback of a subscription, `EmitOnce`: the events that it offers to `out`
unfoldable pub emit_once : Emitter → BatchWorld → Option (List ℤ × List ℤ) → List CloudEvent
unfolding emit_batch
emit_once e world guests = emit_batch e world guests

-- A message with a subject: the callbacks that NATS calls for it, one behind the other.
unfoldable pub callbacks :
    (Bytes → Bytes → Bool) → List Bytes → Bytes → List CloudEvent → List CloudEvent
callbacks delivers [] subject batch = []
callbacks delivers (s ∷ ss) subject batch =
    let rest = callbacks delivers ss subject batch in
    if delivers s subject then batch ++ rest else rest

-- the subjects whose `Subscribe` returns no error; the loop goes on behind one that fails
unfoldable pub subscribed : (Bytes → Bool) → List Bytes → List Bytes
subscribed succeeds [] = []
subscribed succeeds (s ∷ ss) =
    let rest = subscribed succeeds ss in if succeeds s then s ∷ rest else rest

-- The subscriptions of a daemon: none where the snapshots are not enabled.
unfoldable pub subscriptions : Bool → (Bytes → Bool) → Bytes → Bytes → List Bytes
unfolding subscribed request_subjects
subscriptions enabled succeeds cluster node =
    if enabled then subscribed succeeds (request_subjects cluster node) else []

-- What the daemon of an emitter offers on a message, of `snapshot.enabled` and of which calls of
-- `Subscribe` succeed.
unfoldable pub on_message :
    (Bytes → Bytes → Bool)
    → Bool
    → (Bytes → Bool)
    → Emitter
    → BatchWorld
    → Option (List ℤ × List ℤ)
    → Bytes
    → List CloudEvent
unfolding callbacks emit_once subscriptions
on_message delivers enabled succeeds e world guests subject =
    callbacks delivers (subscriptions enabled succeeds e.cluster e.node) subject
      (emit_once e world guests)
