-- ===== src/Main/Requests/Answers.antt =====
-- Which messages make a daemon offer a batch.
use proxmox_eventbus.Prelude.{
  ◌≡◌, ◌≢◌, ℕ, ap, refl, true, ◌&&◌, ◌∷◌, if◌then◌else◌, Bool-cases, sym, inl, inr, Bool, false,
  List, [], ◌++◌, append-nil, Option, Bytes, bytes_beq, bytes_beq_refl, bytes_beq_ne, ℤ, arith,
  Lacks, All-append, codes,
}
use proxmox_eventbus.Events.{
  CloudEvent, Kind, Action, Phase, subject_lifecycle, subject_snapshot_complete,
  subject_snapshot_request_cluster, subject_snapshot_request_node,
}
use proxmox_eventbus.Events.Safe.{safe, is_token, safe-Lacks_of}
use proxmox_eventbus.Events.Subject.{
  AreTokens, published-ne-IsRequest, request_cluster-ne-node, request_node-injective,
}
use proxmox_eventbus.Snapshot.Emitter.{Emitter, BatchWorld, emit_batch}
use proxmox_eventbus.Main.Requests.{callbacks, emit_once, subscribed, subscriptions, on_message}
use proxmox_eventbus.Main.Startup.{request_subjects}

-- A subject without a wildcard.
pub record IsLiteral (s : Bytes) : Type 0 where
  pub no_star : Lacks b'*' s
  pub no_tail : Lacks b'>' s

request_cluster-Lacks :
    (b : ℕ) (cluster : Bytes)
    → is_token b ≡ false
    → Lacks b (codes "pve.")
    → Lacks b (codes ".snapshot.request")
    → Lacks b (subject_snapshot_request_cluster cluster)
unfolding subject_snapshot_request_cluster
request_cluster-Lacks b cluster h start end =
    All-append _ (codes "pve.") _ start
      (All-append _ (safe cluster) _ (safe-Lacks_of b cluster h) end)

request_node-Lacks :
    (b : ℕ) (cluster node : Bytes)
    → is_token b ≡ false
    → Lacks b (codes "pve.")
    → Lacks b (codes ".")
    → Lacks b (codes ".snapshot.request")
    → Lacks b (subject_snapshot_request_node cluster node)
unfolding subject_snapshot_request_node
request_node-Lacks b cluster node h start dot end = All-append _ (codes "pve.") _ start (
    All-append _ (safe cluster ++ codes ".") _
      (All-append _ (safe cluster) _ (safe-Lacks_of b cluster h) dot)
      (All-append _ (safe node) _ (safe-Lacks_of b node h) end))

request_cluster-IsLiteral : (cluster : Bytes) → IsLiteral (subject_snapshot_request_cluster cluster)
unfolding is_token
request_cluster-IsLiteral cluster = record {
  no_star = request_cluster-Lacks b'*' cluster refl (omega arith) (omega arith);
  no_tail = request_cluster-Lacks b'>' cluster refl (omega arith) (omega arith);
}

request_node-IsLiteral :
    (cluster node : Bytes) → IsLiteral (subject_snapshot_request_node cluster node)
unfolding is_token
request_node-IsLiteral cluster node = record {
  no_star = request_node-Lacks b'*' cluster node refl (omega arith) (omega arith) (omega arith);
  no_tail = request_node-Lacks b'>' cluster node refl (omega arith) (omega arith) (omega arith);
}

-- Two callbacks that may be called.
one_behind_other :
    (x y : Bool) (batch : List CloudEvent)
    → (if x then batch ++ (if y then batch ++ [] else []) else if y then batch ++ [] else [])
      ≡ (if x then batch else []) ++ (if y then batch else [])
one_behind_other true true batch = ap (◌++◌ batch) (append-nil batch)
one_behind_other true false batch = refl
one_behind_other false true batch = append-nil batch
one_behind_other false false batch = refl

-- A test that is decided behind others.
and_true : (x y : Bool) → (x && y && true) ≡ (x && y)
and_true x y = ground arith

and_false : (x y : Bool) → (x && y && false) ≡ false
and_false x y = ground arith

module _ (delivers : Bytes → Bytes → Bool)
    (literal : (s t : Bytes) → IsLiteral s → delivers s t ≡ bytes_beq s t) (enabled : Bool)
    (succeeds : Bytes → Bool) where
  -- The callbacks of two subscriptions without a wildcard.
  two_callbacks :
      (s t subject : Bytes) (batch : List CloudEvent)
      → IsLiteral s
      → IsLiteral t
      → callbacks delivers (if enabled then subscribed succeeds (s ∷ t ∷ []) else []) subject batch
        ≡ (if enabled && succeeds s && bytes_beq s subject then batch else [])
          ++ (if enabled && succeeds t && bytes_beq t subject then batch else [])
  unfolding callbacks subscribed
  two_callbacks s t subject batch hs ht =
      let ds = literal s subject hs in
      let dt = literal t subject ht in
      let x = bytes_beq s subject in
      let y = bytes_beq t subject in
      elim (Bool-cases enabled) [
        | inr e ↦ rw e refl
        | inl e ↦ elim (Bool-cases (succeeds s)) [
          | inl f ↦ elim (Bool-cases (succeeds t)) [
            | inl g ↦ rw (e, f, g, ds, dt) (one_behind_other x y batch)
            | inr g ↦ rw (e, f, g, ds) (one_behind_other x false batch)
          ]
          | inr f ↦ elim (Bool-cases (succeeds t)) [
            | inl g ↦ rw (e, f, g, dt) (one_behind_other false y batch)
            | inr g ↦ rw (e, f, g) refl
          ]
        ]
      ]

  -- What a message of any subject makes the daemon offer.
  on_message-two :
      (e : Emitter) (world : BatchWorld) (guests : Option (List ℤ × List ℤ)) (subject : Bytes)
      → let cluster = subject_snapshot_request_cluster e.cluster in
        let node = subject_snapshot_request_node e.cluster e.node in
        on_message delivers enabled succeeds e world guests subject
        ≡ (if enabled && succeeds cluster && bytes_beq cluster subject
            then emit_batch e world guests
            else [])
          ++ (if enabled && succeeds node && bytes_beq node subject
              then emit_batch e world guests
              else [])
  unfolding on_message subscriptions emit_once request_subjects
  on_message-two e world guests subject =
      two_callbacks _ _ subject (emit_batch e world guests) (request_cluster-IsLiteral e.cluster)
        (request_node-IsLiteral e.cluster e.node)

  -- A message on another subject than the two.
  passes_by :
      (e : Emitter) (world : BatchWorld) (guests : Option (List ℤ × List ℤ)) (subject : Bytes)
      → subject_snapshot_request_cluster e.cluster ≢ subject
      → subject_snapshot_request_node e.cluster e.node ≢ subject
      → on_message delivers enabled succeeds e world guests subject ≡ []
  passes_by e world guests subject apart apart' =
      rw
        (
          on_message-two e world guests subject,
          bytes_beq_ne _ subject apart,
          bytes_beq_ne _ subject apart',
          and_false enabled (succeeds (subject_snapshot_request_cluster e.cluster)),
          and_false enabled (succeeds (subject_snapshot_request_node e.cluster e.node)),
        )
        refl

  -- A daemon answers a request to its cluster, and one to its node, with exactly one batch each
  -- where the snapshots are enabled and its call of `Subscribe` for that subject succeeded, whether
  -- or not the other call did, and with none otherwise; and never a request to another node, whose
  -- sanitised name differs: where NATS delivers to a subscription without a wildcard the messages
  -- of its own subject and no other.
  pub request_answered_once :
      (e : Emitter) (world : BatchWorld) (guests : Option (List ℤ × List ℤ)) (other : Bytes)
      → safe other ≢ safe e.node
      → (on_message delivers enabled succeeds e world guests
            (subject_snapshot_request_cluster e.cluster)
          ≡ (if enabled && succeeds (subject_snapshot_request_cluster e.cluster)
              then emit_batch e world guests
              else []))
        × (on_message delivers enabled succeeds e world guests
              (subject_snapshot_request_node e.cluster e.node)
            ≡ (if enabled && succeeds (subject_snapshot_request_node e.cluster e.node)
                then emit_batch e world guests
                else []))
        × (on_message delivers enabled succeeds e world guests
              (subject_snapshot_request_node e.cluster other)
            ≡ [])
  request_answered_once e world guests other h =
      let cluster = subject_snapshot_request_cluster e.cluster in
      let node = subject_snapshot_request_node e.cluster e.node in
      let apart : cluster ≢ node = request_cluster-ne-node e.cluster e.cluster e.node in
      (
        rw
            (
              on_message-two e world guests cluster,
              bytes_beq_refl cluster,
              bytes_beq_ne node cluster (λ p. apart (sym p)),
              and_true enabled (succeeds cluster),
              and_false enabled (succeeds node),
            )
            (append-nil _),
        rw
            (
              on_message-two e world guests node,
              bytes_beq_refl node,
              bytes_beq_ne cluster node apart,
              and_true enabled (succeeds node),
              and_false enabled (succeeds cluster),
            )
            refl,
        passes_by e world guests _ (request_cluster-ne-node e.cluster e.cluster other)
            (λ p. h (sym (request_node-injective e.cluster e.cluster e.node other p).1)),
      )

  -- No event that a daemon publishes, of whatever cluster and node, makes a daemon offer a batch,
  -- so that snapshots do not beget snapshots: for kinds, actions and phases without a dot, and
  -- where NATS delivers to a subscription without a wildcard only the messages of its own subject.
  pub published_unanswered :
      (e : Emitter) (world : BatchWorld) (guests : Option (List ℤ × List ℤ)) (cluster node : Bytes)
      (kind : Kind) (vmid : ℤ) (action : Action) (phase : Phase)
      → AreTokens kind action phase
      → (on_message delivers enabled succeeds e world guests
            (subject_lifecycle cluster node kind vmid action phase)
          ≡ [])
        × (on_message delivers enabled succeeds e world guests
              (subject_snapshot_complete cluster node)
            ≡ [])
  published_unanswered e world guests cluster node kind vmid action phase h =
      let (apart, apart') = published-ne-IsRequest cluster node kind vmid action phase h in
      (
        passes_by e world guests _ (λ p. apart (inl (e.cluster, sym p)))
            (λ p. apart (inr (e.cluster, e.node, sym p))),
        passes_by e world guests _ (λ p. apart' (inl (e.cluster, sym p)))
            (λ p. apart' (inr (e.cluster, e.node, sym p))),
      )
