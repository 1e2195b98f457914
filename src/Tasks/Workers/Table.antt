-- ===== src/Tasks/Workers/Table.antt =====
-- What the table of worker types determines.
use proxmox_eventbus.Prelude.{
  ℕ, ◌≡◌, ◌≢◌, ◌⊎◌, inl, inr, refl, ap, Bool, true, false, ◌&&◌, List, [], ◌∷◌, Option, none, some,
  Bytes, ◌==◌, bytes_eq, bytes_beq, bytes_beq_iff, if◌then◌else◌, All, Lacks, Bool-cases, arith,
  not, ◌||◌, every, nat_beq,
}
use proxmox_eventbus.Events.{Kind, kind_qemu, kind_lxc, Action, action_state}
use proxmox_eventbus.Tasks.Workers.{Worker, worker_types, find, worker_type_map}

-- The worker type of a kind and an action.
type_of : Kind → Action → List Worker → Option Bytes
type_of k a [] = none
type_of k a (w ∷ ws) = if k == w.kind && a == w.action then some w.type else type_of k a ws

find-All {ℓ} :
    (P : Bytes → Kind → Action → Type ℓ) (ws : List Worker) (t : Bytes) (k : Kind) (a : Action)
    → All (λ w. P w.type w.kind w.action) ws
    → find t ws ≡ some (k, a)
    → P t k a
unfolding find
find-All P [] t k a h e = cc
find-All P (w ∷ ws) t k a (hw, h) e = elim (Bool-cases (t == w.type)) [
  | inl hit ↦
      let found : ◌≡◌ {A = Option (Kind × Action)} (some (w.kind, w.action)) (some (k, a)) =
        rw hit at e in
      let t_is : t ≡ w.type = (bytes_beq_iff t w.type).0 hit in
      let k_is : k ≡ w.kind = ground arith in
      let a_is : a ≡ w.action = ground arith in rw (t_is, k_is, a_is) hw
  | inr miss ↦ find-All P ws t k a h (rw miss at e)
]

-- What holds of every entry of the table.
record IsEntry (t : Bytes) (k : Kind) (a : Action) : Type 0 where
  kind_known : (k ≡ kind_qemu) ⊎ (k ≡ kind_lxc)
  action_token : Lacks b'.' a
  not_state : a ≢ action_state
  inverse : type_of k a worker_types ≡ some t

lacks : ℕ → Bytes → Bool
lacks b [] = true
lacks b (c ∷ s) = not (nat_beq c b) && lacks b s

lacks-Lacks : (b : ℕ) (s : Bytes) → lacks b s ≡ true → Lacks b s
unfolding lacks
lacks-Lacks b [] h = tt
lacks-Lacks b (c ∷ s) h = ground (arith, lacks-Lacks b s)

has_inverse : Worker → Option Bytes → Bool
has_inverse w none = false
has_inverse w (some t) = t == w.type

check : Worker → Bool
unfolding lacks type_of has_inverse
check w =
    (w.kind == kind_qemu || w.kind == kind_lxc)
    && lacks b'.' w.action
    && not (w.action == action_state)
    && has_inverse w (type_of w.kind w.action worker_types)

has_inverse_sound : (w : Worker) (o : Option Bytes) → has_inverse w o ≡ true → o ≡ some w.type
unfolding has_inverse
has_inverse_sound w none h = cc
has_inverse_sound w (some t) h = ap some ((bytes_beq_iff t w.type).0 h)

check-IsEntry : (w : Worker) → check w ≡ true → IsEntry w.type w.kind w.action
unfolding check
check-IsEntry w h = record {
  kind_known = ground (arith, bytes_beq_iff w.kind kind_qemu, bytes_beq_iff w.kind kind_lxc);
  action_token = lacks-Lacks b'.' w.action (ground arith);
  not_state = λ e. ground (arith, bytes_beq_iff w.action action_state);
  inverse = has_inverse_sound w (type_of w.kind w.action worker_types) (ground arith);
}

every-IsEntry :
    (ws : List Worker) → every check ws ≡ true → All (λ w. IsEntry w.type w.kind w.action) ws
every-IsEntry [] h = tt
every-IsEntry (w ∷ ws) h = (check-IsEntry w (ground arith), every-IsEntry ws (ground arith))

all_checked : every check worker_types ≡ true
unfolding check worker_types bytes_beq
all_checked = refl

IsEntry-of : (t : Bytes) (k : Kind) (a : Action) → worker_type_map t ≡ some (k, a) → IsEntry t k a
unfolding worker_type_map
IsEntry-of t k a e = find-All IsEntry worker_types t k a (every-IsEntry worker_types all_checked) e

-- Each worker type that is published stands for a kind, `qemu` or `lxc`, and an action that is one
-- token and is not the `state` of snapshots.
pub worker_type_map_vocabulary :
    (t : Bytes) (k : Kind) (a : Action)
    → worker_type_map t ≡ some (k, a)
    → ((k ≡ kind_qemu) ⊎ (k ≡ kind_lxc)) × Lacks b'.' a × (a ≢ action_state)
worker_type_map_vocabulary t k a e =
    let known = IsEntry-of t k a e in (known.kind_known, known.action_token, known.not_state)

-- No two worker types stand for the same kind and action.
worker_type_map-injective :
    (t t' : Bytes) (k : Kind) (a : Action)
    → worker_type_map t ≡ some (k, a)
    → worker_type_map t' ≡ some (k, a)
    → t ≡ t'
worker_type_map-injective t t' k a e e' =
    cc ((IsEntry-of t k a e).inverse, (IsEntry-of t' k a e').inverse)
