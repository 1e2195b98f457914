-- ===== src/Examples/Waiting.antt =====
-- The wait for a migration's target, and the times of the snapshots.
use proxmox_eventbus.Prelude.{
  ℕ, ◌+◌, ◌*◌, ◌^◌, ◌≤◌, ◌<◌, ◌≡◌, zero, suc, refl, List, [], ◌∷◌, Option, none, some, Bytes, codes,
  length, if◌then◌else◌, ltb, pos, arith, bytes_beq,
}
use proxmox_eventbus.Strings.Affix.{has_prefix}
use proxmox_eventbus.Strconv.{atoi}
use proxmox_eventbus.Enrich.Target.{looks_like_node}
use proxmox_eventbus.Enrich.TaskLog.{parse_migrate_target_from_log}
use proxmox_eventbus.Enrich.Lifecycle.{resolve_migrate_target}
use proxmox_eventbus.Enrich.Lifecycle.Polling.{
  Polls, migrate_target_wait, migrate_target_poll, most_rounds, resolve_waiting,
  resolve_waiting-resolve,
}
use proxmox_eventbus.Snapshot.Schedule.{schedule, ticking, schedule-bounds, run_batches, Wake}
use proxmox_eventbus.Examples.Enrich.{started, without_log}

-- The log names the target from the third interval on.
abbrev log_at : ℕ → Option Bytes
log_at t =
    if ltb t (250 * 10 ^ 6)
    then none
    else some (codes "starting migration of VM 101 to node 'pve2'")

abbrev late : ℕ → ℕ
late t = 5

resolve_waiting-resolve_example :
    (logs : List (Option Bytes)) × Polls late log_at
      (0 + migrate_target_wait (pos 0))
      (migrate_target_poll (pos 0))
      0
      logs
    × (length logs ≤ most_rounds (pos 0) (pos 0))
    × (resolve_waiting late log_at
          (suc (most_rounds (pos 0) (pos 0)))
          (pos 0)
          (pos 0)
          0
          started
          without_log
        ≡ some (resolve_migrate_target started (record without_log { polls = logs })))
resolve_waiting-resolve_example =
    resolve_waiting-resolve late log_at (pos 0) (pos 0) 0 started without_log

waited : resolve_waiting late log_at 22 (pos 0) (pos 0) 0 started without_log ≡ some (codes "pve2")
unfolding resolve_waiting parse_migrate_target_from_log bytes_beq looks_like_node has_prefix atoi
waited = refl

-- The number that is one less the bound.
abbrev last_below : ℕ → ℕ
last_below (suc n) = n
last_below zero = 0

-- The product of this interval with 100 overflows an int64.
schedule-bounds_example :
    (first : ℕ) × (schedule last_below (pos (10 ^ 17)) (pos 100) ≡ ticking first (10 ^ 17))
    × (first < 10 ^ 17)
schedule-bounds_example =
    schedule-bounds last_below (λ m. omega arith) (10 ^ 17) 100 (omega arith) (omega arith)

ticks :
    run_batches
      (schedule last_below (pos 100) (pos 10))
      (Wake.fires ∷ Wake.fires ∷ Wake.cancelled ∷ Wake.fires ∷ [])
    ≡ 2
unfolding run_batches schedule
ticks = refl

single : run_batches (schedule last_below (pos 0) (pos 10)) [] ≡ 1
unfolding run_batches schedule
single = refl
