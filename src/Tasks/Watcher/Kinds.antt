-- ===== src/Tasks/Watcher/Kinds.antt =====
-- The kinds of guests that a watcher was made for.
use proxmox_eventbus.Prelude.{
  ◌≡◌, ◌⊎◌, inl, inr, true, List, [], ◌∷◌, ◌==◌, bytes_eq, bytes_beq_iff, Bool-cases, All,
}
use proxmox_eventbus.Bufio.{FileRead}
use proxmox_eventbus.Events.{Time, Kind, kind_qemu, kind_lxc}
use proxmox_eventbus.Tasks.Watcher.{Watcher, new_watcher, include_only, parse_all}
use proxmox_eventbus.Tasks.Watcher.Protocol.{sent_by_scans}
use proxmox_eventbus.Tasks.Watcher.Vocabulary.{IsFromTable, IfSent, parse_all-IsFromTable}

abbrev Among : Kind → List Kind → Type 0
Among k [] = ⊥
Among k (i ∷ is) = (k ≡ i) ⊎ Among k is

-- The kind is one of those that are asked for; where none is, it is one of the two that there are.
abbrev pub IsWatched : List Kind → Kind → Type 0
IsWatched [] k = Among k (kind_qemu ∷ kind_lxc ∷ [])
IsWatched (i ∷ is) k = Among k (i ∷ is)

include_only-Among : (is : List Kind) (k : Kind) → include_only is k ≡ true → Among k is
unfolding include_only
include_only-Among [] k h = cc h
include_only-Among (i ∷ is) k h = elim (Bool-cases (k == i)) [
  | inl e ↦ inl ((bytes_beq_iff k i).0 e)
  | inr e ↦ inr (include_only-Among is k (rw e at h))
]

pub new_watcher-IsWatched :
    (is : List Kind) (k : Kind) → (new_watcher is).include k ≡ true → IsWatched is k
unfolding new_watcher
new_watcher-IsWatched [] k h = include_only-Among (kind_qemu ∷ kind_lxc ∷ []) k h
new_watcher-IsWatched (i ∷ is) k h = include_only-Among (i ∷ is) k h

-- The watcher does not change its kinds from one scan to the next.
pub sent_by_scans-IsFromTable :
    (w : Watcher) (rs : List (Time × FileRead))
    → All (All (IfSent (IsFromTable w.include))) (sent_by_scans w rs)
unfolding sent_by_scans parse_all
sent_by_scans-IsFromTable w [] = tt
sent_by_scans-IsFromTable w ((obs, r) ∷ rs) =
    (parse_all-IsFromTable w obs r, sent_by_scans-IsFromTable (parse_all w obs r).watcher rs)
