-- ===== src/Tasks/Run/Debounce.antt =====
-- No change of the active file is lost: the timer that it arms leads to a scan.
use proxmox_eventbus.Prelude.{
  ◌≡◌, refl, sym, subst, ap, ◌∙◌, Bool, true, false, not, ◌&&◌, List, [], ◌∷◌, ◌++◌, map, Bytes,
  ◌==◌, bytes_eq, if◌then◌else◌, if_true, if_false, Bool-cases, inl, inr, All,
}
use proxmox_eventbus.Bufio.{FileRead, scan_lines}
use proxmox_eventbus.Events.{Time}
use proxmox_eventbus.Tasks.Watcher.{ScanResult, max_line, parse_all, scan, relevant_path}
use proxmox_eventbus.Tasks.Watcher.Settled.{SettledLine}
use proxmox_eventbus.Tasks.Watcher.Rescan.{parse_all-settles}
use proxmox_eventbus.Tasks.Run.{
  Opened, RunEffect, emit, add_active, Loop, Input, RunResult, go_on, stop, Stop, scan_opened,
  scanned, arm, run_step, prepend, run_loop,
}

-- The flag `pending` tells whether the timer is armed.
abbrev pub IsInStep : Loop → Type 0
IsInStep l = l.pending ≡ l.armed

-- The property holds of the loop, if it goes on.
abbrev pub IfGoesOn : (Loop → Type 0) → RunResult → Type 0
IfGoesOn P (go_on l es) = P l
IfGoesOn P (stop why es) = Unit

scanned-IsInStep : (l : Loop) (s : ScanResult × Bool) → IsInStep l → IfGoesOn IsInStep (scanned l s)
unfolding scanned
scanned-IsInStep l (s, true) h = tt
scanned-IsInStep l (s, false) h = h

arm_pending : (l : Loop) → l.pending ≡ true → arm l ≡ l
unfolding arm
arm_pending l h = if_false _ _ (ap not h)

arm_idle : (l : Loop) → l.pending ≡ false → arm l ≡ record l { pending = true; armed = true }
unfolding arm
arm_idle l h = if_true _ _ (ap not h)

arm-IsInStep : (l : Loop) → IsInStep l → IsInStep (arm l)
arm-IsInStep l h = elim (Bool-cases l.pending) [
  | inl e ↦ subst IsInStep (sym (arm_pending l e)) h
  | inr e ↦ subst IsInStep (sym (arm_idle l e)) refl
]

-- Every round keeps the flag and the timer in step.
run_step-IsInStep : (l : Loop) (i : Input) → IsInStep l → IfGoesOn IsInStep (run_step l i)
unfolding run_step
run_step-IsInStep l Input.cancelled h = tt
run_step-IsInStep l Input.errors_closed h = tt
run_step-IsInStep l (Input.inotify_error true) h = tt
run_step-IsInStep l (Input.inotify_error false) h = h
run_step-IsInStep l Input.events_closed h = tt
run_step-IsInStep l (Input.file_event name create) h =
    elim (Bool-cases (relevant_path name l.active_path)) [
      | inl e ↦ rw e (arm-IsInStep l h)
      | inr e ↦ rw e h
    ]
run_step-IsInStep l (Input.debounce_fired now file) h =
    scanned-IsInStep (record l { pending = false; armed = false }) (scan_opened l.watcher now file)
      refl

-- An event of inotify or an empty error, which do not end the loop.
unfoldable pub is_quiet : Input → Bool
is_quiet (Input.file_event name create) = true
is_quiet (Input.inotify_error failed) = not failed
is_quiet _ = false

-- While the timer is armed, events change nothing.
quiet_step :
    (l : Loop) (i : Input)
    → l.pending ≡ true
    → is_quiet i ≡ true
    → (es : List RunEffect) × (run_step l i ≡ go_on l es)
unfolding run_step is_quiet
quiet_step l (Input.file_event name create) h q =
    let added = if create && name == l.active_path then add_active ∷ [] else [] in
    elim (Bool-cases (relevant_path name l.active_path)) [
      | inl e ↦ (added, rw e (ap (λ m. go_on m added) (arm_pending l h)))
      | inr e ↦ ([], rw e)
    ]
quiet_step l (Input.inotify_error true) h q = cc
quiet_step l (Input.inotify_error false) h q = ([], refl)
quiet_step l Input.cancelled h q = cc
quiet_step l Input.errors_closed h q = cc
quiet_step l Input.events_closed h q = cc
quiet_step l (Input.debounce_fired now file) h q = cc

quiet_rounds :
    (l : Loop) (es : List RunEffect) (ins : List Input)
    → l.pending ≡ true
    → All (λ i. is_quiet i ≡ true) ins
    → (fs : List RunEffect) × (run_loop (go_on l es) ins ≡ go_on l fs)
unfolding run_loop prepend
quiet_rounds l es [] h _ = (es, refl)
quiet_rounds l es (i ∷ ins) h (q, qs) =
    let (fs, e) = quiet_step l i h q in
    let (gs, f) = quiet_rounds l fs ins h qs in
    (es ++ gs, ap (λ r. prepend es (run_loop r ins)) e ∙ ap (prepend es) f)

-- What a scan at the firing of the timer makes of the loop.
unfoldable pub fired : Loop → ScanResult → RunResult
fired l s =
    if s.failed
    then stop Stop.scan_failed (map emit s.effects)
    else go_on (record l { watcher = s.watcher; pending = false; armed = false })
        (map emit s.effects)

fired_step :
    (l : Loop) (now : Time) (r : FileRead)
    → run_step l (Input.debounce_fired now (Opened.opened r)) ≡ fired l (parse_all l.watcher now r)
unfolding run_step fired scan
fired_step l now r = elim (Bool-cases (parse_all l.watcher now r).failed) [
  | inl e ↦ rw e
  | inr e ↦ rw e
]

arm-armed : (l : Loop) → IsInStep l → ((arm l).pending ≡ true) × ((arm l).armed ≡ true)
arm-armed l h = elim (Bool-cases l.pending) [
  | inl e ↦
      subst (λ m. (m.pending ≡ true) × (m.armed ≡ true)) (sym (arm_pending l e)) (e, sym h ∙ e)
  | inr e ↦ subst (λ m. (m.pending ≡ true) × (m.armed ≡ true)) (sym (arm_idle l e)) (refl, refl)
]

arm-watcher : (l : Loop) → (arm l).watcher ≡ l.watcher
unfolding arm
arm-watcher l = elim (Bool-cases l.pending) [ inl e ↦ rw e | inr e ↦ rw e ]

relevant_step :
    (l : Loop) (name : Bytes) (create : Bool)
    → relevant_path name l.active_path ≡ true
    → (es : List RunEffect) × (run_step l (Input.file_event name create) ≡ go_on (arm l) es)
unfolding run_step
relevant_step l name create h =
    let added = if create && name == l.active_path then add_active ∷ [] else [] in (added, rw h)

-- Let a round of `Run` receive an event of the active file, and the rounds behind it further events
-- or empty errors of inotify. Then the loop goes on, with the timer armed and the watcher as it
-- was; when the timer fires and the file opens, the loop makes one scan of what the file then
-- holds, and stops only if that reading fails. Behind the scan all that each line read can send has
-- been sent.
pub event-scanned :
    (l : Loop) (es : List RunEffect) (name : Bytes) (create : Bool) (ins : List Input) (now : Time)
    (r : FileRead)
    → IsInStep l
    → relevant_path name l.active_path ≡ true
    → All (λ i. is_quiet i ≡ true) ins
    → (l' : Loop) × (fs : List RunEffect) × (run_loop
          (go_on l es)
          (Input.file_event name create ∷ ins)
        ≡ go_on l' fs)
      × (l'.armed ≡ true)
      × (l'.watcher ≡ l.watcher)
      × (run_step l' (Input.debounce_fired now (Opened.opened r))
          ≡ fired l' (parse_all l.watcher now r))
      × All
          (SettledLine l.watcher.include (parse_all l.watcher now r).watcher.known)
          ((scan_lines max_line r).0)
unfolding run_loop prepend
event-scanned l es name create ins now r h hr qs =
    let (added, e) = relevant_step l name create hr in
    let (pending, armed) = arm-armed l h in
    let (fs, f) = quiet_rounds (arm l) added ins pending qs in
    (
      arm l,
      es ++ fs,
      ap (λ s. prepend es (run_loop s ins)) e ∙ ap (prepend es) f,
      armed,
      arm-watcher l,
      fired_step (arm l) now r ∙ ap (λ w. fired (arm l) (parse_all w now r)) (arm-watcher l),
      parse_all-settles l.watcher now r,
    )

prepend-IfGoesOn :
    (es : List RunEffect) (r : RunResult) → IfGoesOn IsInStep r → IfGoesOn IsInStep (prepend es r)
unfolding prepend
prepend-IfGoesOn es (go_on l fs) h = h
prepend-IfGoesOn es (stop why fs) h = tt

-- Over any inputs, as long as the loop goes on, an event is pending exactly while the timer is
-- armed, if that is so before them.
run_loop-IsInStep :
    (r : RunResult) (ins : List Input) → IfGoesOn IsInStep r → IfGoesOn IsInStep (run_loop r ins)
unfolding run_loop
run_loop-IsInStep (stop why es) ins h = tt
run_loop-IsInStep (go_on l es) [] h = h
run_loop-IsInStep (go_on l es) (i ∷ ins) h =
    prepend-IfGoesOn es (run_loop (run_step l i) ins)
      (run_loop-IsInStep (run_step l i) ins (run_step-IsInStep l i h))
