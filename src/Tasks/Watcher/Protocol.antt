-- ===== src/Tasks/Watcher/Protocol.antt =====
-- What a consumer may expect of the events of one UPID.
pub mod Lines
pub mod Scans
use proxmox_eventbus.Prelude.{
  ℕ, ◌≡◌, ◌≢◌, ◌⊎◌, inl, inr, refl, sym, subst, ap, ◌∙◌, Bool, true, false, not, ◌&&◌, ◌||◌, List,
  [], ◌∷◌, ◌++◌, map, Option, none, some, Bytes, codes, ◌==◌, bytes_eq, bytes_beq, bytes_beq_iff,
  bytes_beq_refl, bytes_beq_ne, if◌then◌else◌, Bool-cases, Option-cases, arith, append-nil,
}
use proxmox_eventbus.Prelude.GoMap
use proxmox_eventbus.Bufio.{FileRead, scan_lines}
use proxmox_eventbus.Events.{Time, Kind, Phase, phase_started, phase_finished, phase_failed}
use proxmox_eventbus.Tasks.Watcher.{
  TaskEvent, UpidState, zero_state, Known, Watcher, Effect, send, watch, Observation, observe,
  emits_start, emits_end, next_state, start_effects, end_effects, end_phase, line_effects, Scan,
  absorb, scan_line, scan_all, collect_garbage, max_line, begin, parse_all,
}

-- The stages of a task, as its events show them.
pub data Stage : Type 0 where
  fresh running ended : Stage

-- A task starts once, and then ends once.
unfoldable pub follow_one : Stage → Phase → Option Stage
follow_one fresh p = if p == phase_started then some running else none
follow_one running p = if p == phase_finished || p == phase_failed then some ended else none
follow_one ended p = none

unfoldable pub follow : Stage → List Phase → Option Stage
unfolding follow_one
follow s [] = some s
follow s (p ∷ ps) = elim (follow_one s p) [ none ↦ none | some t ↦ follow t ps ]

-- The phases that the effects send of a UPID.
unfoldable pub phases_of : Bytes → List Effect → List Phase
phases_of k [] = []
phases_of k (send e ∷ es) = if k == e.upid.raw then e.phase ∷ phases_of k es else phases_of k es
phases_of k (watch u ∷ es) = phases_of k es

-- The stage that the watcher's record of a UPID stands for.
unfoldable pub stage : Option UpidState → Stage
stage none = fresh
stage (some st) =
    if st.finished_emitted then ended else if st.started_emitted then running else fresh

-- No UPID has ended that has not started.
abbrev pub Orderly : Option UpidState → Type 0
Orderly none = Unit
Orderly (some st) = st.finished_emitted ≡ true → st.started_emitted ≡ true

pub record IsConsistent (known : Known) : Type 0 where
  pub at_key : (k : Bytes) → Orderly (known k)

-- A scan has taken a task from stage `s` to `t`, and forgets it at most if it has ended.
abbrev pub Leaves : Stage → Stage → Type 0
Leaves t u = (u ≡ t) ⊎ ((t ≡ ended) × (u ≡ fresh))

-- The watcher behind a sequence of readings, and what each has sent.
unfoldable pub run_scans : Watcher → List (Time × FileRead) → Watcher
run_scans w [] = w
run_scans w ((obs, r) ∷ rs) = run_scans (parse_all w obs r).watcher rs

unfoldable pub sent_by_scans : Watcher → List (Time × FileRead) → List (List Effect)
sent_by_scans w [] = []
sent_by_scans w ((obs, r) ∷ rs) =
    (parse_all w obs r).effects ∷ sent_by_scans (parse_all w obs r).watcher rs

-- The stages of a UPID over a sequence of readings that send these phases: each follows the
-- protocol from where the one before left it, and a task is forgotten only once it has ended.
pub data Lives : Stage → List (List Phase) → Stage → Type 0 where
  stop : {s : Stage} → Lives s [] s
  scan :
      {s t u v : Stage} {ps : List Phase} {pss : List (List Phase)}
      → follow s ps ≡ some t
      → (u ≡ t) ⊎ ((t ≡ ended) × (u ≡ fresh))
      → Lives u pss v
      → Lives s (ps ∷ pss) v
