-- ===== src/Events/Subject.antt =====
-- The NATS subjects and the event types as sequences of tokens.
use proxmox_eventbus.Prelude.{
  ◌≡◌, ◌≢◌, ◌⊎◌, inl, inr, refl, sym, ap, ◌∙◌, List, [], ◌∷◌, ◌++◌, append_assoc, arith, Bytes,
  codes, ℤ, Lacks,
}
use proxmox_eventbus.Strings.Split.{split}
use proxmox_eventbus.Strings.Split.Laws.{split-append, split_one}
use proxmox_eventbus.Strconv.Decimal.{format_int}
use proxmox_eventbus.Strconv.RoundTrip.{format_int-Lacks, format_int-injective, InInt}
use proxmox_eventbus.Events.{
  Kind, Action, Phase, subject_lifecycle, subject_snapshot_complete,
  subject_snapshot_request_cluster, subject_snapshot_request_node, type_for, type_snapshot_complete,
}
use proxmox_eventbus.Events.Safe.{safe, safe-IsToken, IsToken-Lacks}

-- Kinds, actions and phases that may stand as one token each.
pub record AreTokens (kind : Kind) (action : Action) (phase : Phase) : Type 0 where
  pub kind_token : Lacks b'.' kind
  pub action_token : Lacks b'.' action
  pub phase_token : Lacks b'.' phase

safe-Lacks : (s : Bytes) → Lacks b'.' (safe s)
safe-Lacks s = IsToken-Lacks (safe s) (safe-IsToken s)

pve-Lacks : Lacks b'.' (codes "pve")
pve-Lacks = omega arith

-- A token, a dot and the rest of a subject.
split-token :
    (p s : Bytes) {ts : List Bytes}
    → Lacks b'.' p
    → split s b'.' ≡ ts
    → split (p ++ codes "." ++ s) b'.' ≡ p ∷ ts
split-token p s h e =
    ap (λ t. split t b'.') (append_assoc p (codes ".") s) ∙ split-append p s b'.' h ∙ ap (◌∷◌ p) e

split-token_dotted :
    (p s : Bytes) {ts : List Bytes}
    → Lacks b'.' p
    → split s b'.' ≡ ts
    → split (p ++ b'.' ∷ s) b'.' ≡ p ∷ ts
split-token_dotted p s h e = split-append p s b'.' h ∙ ap (◌∷◌ p) e

-- Whatever the cluster and node names are, a lifecycle subject has exactly the seven tokens
-- `pve.<cluster>.<node>.<kind>.<vmid>.<action>.<phase>`, with the names sanitised.
pub split-subject_lifecycle :
    (cluster node : Bytes) (kind : Kind) (vmid : ℤ) (action : Action) (phase : Phase)
    → AreTokens kind action phase
    → split (subject_lifecycle cluster node kind vmid action phase) b'.'
      ≡ codes "pve" ∷ safe cluster ∷ safe node ∷ kind ∷ format_int vmid ∷ action ∷ phase ∷ []
unfolding subject_lifecycle
split-subject_lifecycle cluster node kind vmid action phase h =
    split-token (codes "pve") _ pve-Lacks (
      split-token (safe cluster) _ (safe-Lacks cluster) (
        split-token (safe node) _ (safe-Lacks node) (
          split-token kind _ h.kind_token (
            split-token (format_int vmid) _ (format_int-Lacks b'.' vmid (omega arith) (omega arith))
              (split-token action _ h.action_token (split_one phase b'.' h.phase_token))))))

tokens_complete : split (codes "snapshot.complete") b'.' ≡ codes "snapshot" ∷ codes "complete" ∷ []
unfolding split
tokens_complete = refl

tokens-request : split (codes "snapshot.request") b'.' ≡ codes "snapshot" ∷ codes "request" ∷ []
unfolding split
tokens-request = refl

tokens-snapshot_complete :
    (cluster node : Bytes)
    → split (subject_snapshot_complete cluster node) b'.'
      ≡ codes "pve" ∷ safe cluster ∷ safe node ∷ codes "snapshot" ∷ codes "complete" ∷ []
unfolding subject_snapshot_complete
tokens-snapshot_complete cluster node = split-token (codes "pve") _ pve-Lacks (
    split-token (safe cluster) _ (safe-Lacks cluster) (
      split-token_dotted (safe node) (codes "snapshot.complete") (safe-Lacks node) tokens_complete))

tokens-request_cluster :
    (cluster : Bytes)
    → split (subject_snapshot_request_cluster cluster) b'.'
      ≡ codes "pve" ∷ safe cluster ∷ codes "snapshot" ∷ codes "request" ∷ []
unfolding subject_snapshot_request_cluster
tokens-request_cluster cluster = split-token (codes "pve") _ pve-Lacks (
    split-token_dotted (safe cluster) (codes "snapshot.request") (safe-Lacks cluster)
      tokens-request)

tokens-request_node :
    (cluster node : Bytes)
    → split (subject_snapshot_request_node cluster node) b'.'
      ≡ codes "pve" ∷ safe cluster ∷ safe node ∷ codes "snapshot" ∷ codes "request" ∷ []
unfolding subject_snapshot_request_node
tokens-request_node cluster node = split-token (codes "pve") _ pve-Lacks (
    split-token (safe cluster) _ (safe-Lacks cluster)
      (split-token_dotted (safe node) (codes "snapshot.request") (safe-Lacks node) tokens-request))

pub request_cluster-ne-node :
    (c c' n : Bytes) → subject_snapshot_request_cluster c ≢ subject_snapshot_request_node c' n
request_cluster-ne-node c c' n e =
    cc (sym (tokens-request_cluster c) ∙ ap (λ s. split s b'.') e ∙ tokens-request_node c' n)

pub request_node-injective :
    (c c' n n' : Bytes)
    → subject_snapshot_request_node c n ≡ subject_snapshot_request_node c' n'
    → (safe c ≡ safe c') × (safe n ≡ safe n')
request_node-injective c c' n n' e =
    let tokens : codes "pve" ∷ safe c ∷ safe n ∷ codes "snapshot" ∷ codes "request" ∷ []
        ≡ codes "pve" ∷ safe c' ∷ safe n' ∷ codes "snapshot" ∷ codes "request" ∷ [] =
      sym (tokens-request_node c n) ∙ ap (λ s. split s b'.') e ∙ tokens-request_node c' n' in
    (cc tokens, cc tokens)

-- What a lifecycle subject determines.
pub record SameSubject (c c' n n' : Bytes) (k k' : Kind) (v v' : ℤ) (a a' : Action) (p p' : Phase)
    : Type 0 where
  pub cluster : safe c ≡ safe c'
  pub node : safe n ≡ safe n'
  pub kind : k ≡ k'
  pub vmid : v ≡ v'
  pub action : a ≡ a'
  pub phase : p ≡ p'

-- Two lifecycle events whose kinds, actions and phases are tokens and whose VM numbers are `int`s
-- have the same subject only if they agree in all of these and in the sanitised names.
pub subject_lifecycle-injective :
    (c c' n n' : Bytes) (k k' : Kind) (v v' : ℤ) (a a' : Action) (p p' : Phase)
    → AreTokens k a p
    → AreTokens k' a' p'
    → InInt v
    → InInt v'
    → subject_lifecycle c n k v a p ≡ subject_lifecycle c' n' k' v' a' p'
    → SameSubject c c' n n' k k' v v' a a' p p'
subject_lifecycle-injective c c' n n' k k' v v' a a' p p' h h' i i' e = record {
  cluster = cc tokens;
  node = cc tokens;
  kind = cc tokens;
  vmid = format_int-injective v v' i i' (cc tokens);
  action = cc tokens;
  phase = cc tokens;
}
  where
    tokens :
        codes "pve" ∷ safe c ∷ safe n ∷ k ∷ format_int v ∷ a ∷ p ∷ []
        ≡ codes "pve" ∷ safe c' ∷ safe n' ∷ k' ∷ format_int v' ∷ a' ∷ p' ∷ []
    tokens =
        sym (split-subject_lifecycle c n k v a p h)
        ∙ ap (λ s. split s b'.') e
        ∙ split-subject_lifecycle c' n' k' v' a' p' h'

-- The subject is one on which the daemons listen for requests.
abbrev pub IsRequest : Bytes → Type 0
IsRequest s =
    ((c : Bytes) × (s ≡ subject_snapshot_request_cluster c))
    ⊎ ((c : Bytes) × (n : Bytes) × (s ≡ subject_snapshot_request_node c n))

-- No subject that a daemon publishes an event under, of whatever cluster and node names, is one on
-- which a daemon listens for snapshot requests, so no event triggers a snapshot.
pub published-ne-IsRequest :
    (cluster node : Bytes) (kind : Kind) (vmid : ℤ) (action : Action) (phase : Phase)
    → AreTokens kind action phase
    → ¬ IsRequest (subject_lifecycle cluster node kind vmid action phase)
      × ¬ IsRequest (subject_snapshot_complete cluster node)
published-ne-IsRequest cluster node kind vmid action phase h = (lifecycle_apart, complete_apart)
  where
    lifecycle_apart : ¬ IsRequest (subject_lifecycle cluster node kind vmid action phase)
    lifecycle_apart (inl (c, e)) = cc (
        sym (split-subject_lifecycle cluster node kind vmid action phase h)
        ∙ ap (λ s. split s b'.') e
        ∙ tokens-request_cluster c)
    lifecycle_apart (inr (c, n, e)) = cc (
        sym (split-subject_lifecycle cluster node kind vmid action phase h)
        ∙ ap (λ s. split s b'.') e
        ∙ tokens-request_node c n)

    complete_apart : ¬ IsRequest (subject_snapshot_complete cluster node)
    complete_apart (inl (c, e)) = cc (
        sym (tokens-snapshot_complete cluster node)
        ∙ ap (λ s. split s b'.') e
        ∙ tokens-request_cluster c)
    complete_apart (inr (c, n, e)) = cc (
        sym (tokens-snapshot_complete cluster node)
        ∙ ap (λ s. split s b'.') e
        ∙ tokens-request_node c n)

namespace-split :
    (s : Bytes)
    → split (codes "dev.proxmox.eventbus." ++ s) b'.'
      ≡ codes "dev" ∷ codes "proxmox" ∷ codes "eventbus" ∷ split s b'.'
namespace-split s = split-token (codes "dev") _ (omega arith) (
    split-token (codes "proxmox") _ (omega arith)
      (split-token (codes "eventbus") s (omega arith) refl))

tokens-type_snapshot_complete :
    split type_snapshot_complete b'.'
    ≡ codes "dev" ∷ codes "proxmox" ∷ codes "eventbus" ∷ codes "snapshot" ∷ codes "complete" ∷ []
unfolding split
tokens-type_snapshot_complete = refl

-- The type of a lifecycle or state event is never that of the end of a batch.
pub type_for-ne-snapshot_complete :
    (kind : Kind) (action : Action) (phase : Phase)
    → AreTokens kind action phase
    → type_for kind action phase ≢ type_snapshot_complete
unfolding type_for
type_for-ne-snapshot_complete kind action phase h e = cc (
  sym (namespace-split (kind ++ codes "." ++ (action ++ codes "." ++ phase)))
      ∙ ap (λ s. split s b'.') e
      ∙ tokens-type_snapshot_complete,
  split-token kind _ h.kind_token
      (split-token action _ h.action_token (split_one phase b'.' h.phase_token)),
)
