-- ===== src/Enrich/Lifecycle/Polling.antt =====
-- The wait of `resolveMigrateTarget` for the target of a migration that has started, with its
-- clock.
--
-- Times and durations are nanoseconds. A round sleeps for the interval and some more: `extra` says
-- how much, by the time at which the round begins. `log_at` is what the log file of the task holds
-- at a time.
use proxmox_eventbus.Prelude.{
  ℕ, zero, suc, ◌+◌, ◌*◌, ◌/◌, ◌^◌, ◌<◌, ◌≤◌, ◌≡◌, Bool, true, false, List, [], ◌∷◌, Option, none,
  some, Bytes, ◌==◌, bytes_eq, if◌then◌else◌, if_false, ltb, ltb→lt, not, Bool-cases, inl, inr,
  length, arith, ℤ, pos, negsuc,
}
use proxmox_eventbus.Enrich.Target.{first_of}
use native.Mathlib.Nat.{lt-div-mul-add}
use proxmox_eventbus.Tasks.Watcher.{TaskEvent}
use proxmox_eventbus.Events.{phase_started}
use proxmox_eventbus.Enrich.Lifecycle.{
  Inputs, migrate_target, migrate_target_from_task_log, poll_target, resolve_migrate_target,
}

-- a setting that counts only if it is positive
unfoldable pub positive_or : ℤ → ℕ → ℕ
positive_or (pos zero) default = default
positive_or (pos (suc n)) default = suc n
positive_or (negsuc n) default = default

-- `migrateTargetWait`
unfoldable pub migrate_target_wait : ℤ → ℕ
unfolding positive_or
migrate_target_wait set = positive_or set (2 * 10 ^ 9)

-- `migrateTargetPoll`
unfoldable pub migrate_target_poll : ℤ → ℕ
unfolding positive_or
migrate_target_poll set = positive_or set (100 * 10 ^ 6)

module _ (extra : ℕ → ℕ) (log_at : ℕ → Option Bytes) where
  -- The loop up to the deadline; none where the fuel is used up.
  unfoldable pub await_target : ℕ → ℕ → ℕ → ℕ → Option Bytes
  unfolding migrate_target_from_task_log
  await_target zero deadline poll now = none
  await_target (suc fuel) deadline poll now =
      let woken = now + poll + extra now in
      let target = migrate_target_from_task_log (log_at woken) in
      let rest = await_target fuel deadline poll woken in
      if ltb now deadline then if target == [] then rest else some target else some []

  -- What the log holds at each round that begins in front of the deadline.
  pub data Polls (deadline poll : ℕ) : ℕ → List (Option Bytes) → Type 0 where
    over : {now : ℕ} → deadline ≤ now → Polls deadline poll now []
    again :
        {now : ℕ} {logs : List (Option Bytes)}
        → now < deadline
        → Polls deadline poll (now + poll + extra now) logs
        → Polls deadline poll now (log_at (now + poll + extra now) ∷ logs)

  await_first :
      (target rest : Bytes) (o : Option Bytes)
      → o ≡ some rest
      → (if target == [] then o else some target) ≡ some (first_of target rest)
  unfolding first_of
  await_first target rest o h = elim (Bool-cases (target == [])) [ inl e ↦ rw e h | inr e ↦ rw e ]

  await_over :
      (fuel deadline poll now : ℕ)
      → ltb now deadline ≡ false
      → await_target (suc fuel) deadline poll now ≡ some []
  unfolding await_target
  await_over fuel deadline poll now h = if_false _ _ h

  await_within :
      (n deadline poll now : ℕ)
      → deadline ≤ now + n * poll
      → (logs : List (Option Bytes)) × Polls deadline poll now logs
        × (length logs ≤ n)
        × (await_target (suc n) deadline poll now ≡ some (poll_target logs))
  unfolding await_target poll_target
  await_within zero deadline poll now h =
      ([], over (omega arith), omega arith, await_over zero deadline poll now (ground arith))
  await_within (suc n) deadline poll now h = elim (Bool-cases (ltb now deadline)) [
    | inr e ↦ ([], over (ground arith), omega arith, await_over (suc n) deadline poll now e)
    | inl e ↦
        let woken = now + poll + extra now in
        let (logs, polls, few, ends) = await_within n deadline poll woken (grind arith) in
        (
          log_at woken ∷ logs,
          again (ltb→lt now deadline e) polls,
          omega arith,
          rw e
              (await_first (migrate_target_from_task_log (log_at woken)) (poll_target logs) _ ends),
        )
  ]

  -- `resolveMigrateTarget`, with the two settings, the clock at its start and as much fuel as
  -- rounds
  unfoldable pub resolve_waiting : ℕ → ℤ → ℤ → ℕ → TaskEvent → Inputs → Option Bytes
  unfolding migrate_target migrate_target_from_task_log first_of await_target migrate_target_wait
      migrate_target_poll
  resolve_waiting fuel wait poll now ev world =
      let from_process = migrate_target world.cmdline in
      let from_log = migrate_target_from_task_log world.log in
      let awaited =
        await_target fuel (now + migrate_target_wait wait) (migrate_target_poll poll) now in
      if not (from_process == [])
      then some from_process
      else if not (from_log == [])
      then some from_log
      else if not (ev.phase == phase_started)
      then some []
      else awaited

positive_or-pos : (set : ℤ) (default : ℕ) → 0 < default → 0 < positive_or set default
unfolding positive_or
positive_or-pos (pos zero) default h = h
positive_or-pos (pos (suc n)) default h = omega arith
positive_or-pos (negsuc n) default h = h

-- The most rounds that a wait takes: the quotient of the two settings, and one more.
abbrev pub most_rounds : ℤ → ℤ → ℕ
most_rounds wait poll = migrate_target_wait wait / migrate_target_poll poll + 1

enough_rounds : (now w p : ℕ) → 0 < p → now + w ≤ now + (w / p + 1) * p
enough_rounds now w p h = let below : w < w / p * p + p = lt-div-mul-add h in grind arith

-- The three sources of a target, one behind the other.
first_answer :
    (process log : Bytes) (started : Bool) {o : Option Bytes} {awaited : Bytes}
    → o ≡ some awaited
    → (if not (process == [])
        then some process
        else if not (log == [])
        then some log
        else if not started
        then some []
        else o)
      ≡ some (first_of process (first_of log (if not started then [] else awaited)))
unfolding first_of
first_answer process log true h = ground arith
first_answer process log false h = ground arith

module _ (extra : ℕ → ℕ) (log_at : ℕ → Option Bytes) where
  -- For all settings, whatever the log holds at any time and however long a sleep is beyond its
  -- interval, `resolveMigrateTarget` returns, after at most as many rounds as the wait holds
  -- intervals, and one more. Its answer is that of `resolve_migrate_target`, where the polls are
  -- the contents of the log at the rounds that begin in front of the deadline.
  pub resolve_waiting-resolve :
      (wait poll : ℤ) (now : ℕ) (ev : TaskEvent) (world : Inputs)
      → (logs : List (Option Bytes)) × Polls extra log_at
          (now + migrate_target_wait wait)
          (migrate_target_poll poll)
          now
          logs
        × (length logs ≤ most_rounds wait poll)
        × (resolve_waiting extra log_at (suc (most_rounds wait poll)) wait poll now ev world
            ≡ some (resolve_migrate_target ev (record world { polls = logs })))
  unfolding resolve_waiting resolve_migrate_target migrate_target_poll
  resolve_waiting-resolve wait poll now ev world =
      let w = migrate_target_wait wait in
      let p = migrate_target_poll poll in
      let (logs, polls, few, ends) =
        await_within extra log_at (most_rounds wait poll) (now + w) p now
          (enough_rounds now w p (positive_or-pos poll (100 * 10 ^ 6) (omega arith))) in
      (
        logs,
        polls,
        few,
        first_answer (migrate_target world.cmdline) (migrate_target_from_task_log world.log)
            (ev.phase == phase_started) ends,
      )
