-- ===== src/Examples/Run.antt =====
-- The loop of the watcher behind a change of the active file.
use proxmox_eventbus.Prelude.{◌≡◌, refl, true, false, List, [], ◌∷◌, Bytes, bytes_beq, All, codes}
use proxmox_eventbus.Filepath.{join_path}
use proxmox_eventbus.Strings.Affix.{has_prefix}
use proxmox_eventbus.Bufio.{scan_lines}
use proxmox_eventbus.Tasks.Watcher.{new_watcher, max_line, parse_all, relevant_path}
use proxmox_eventbus.Tasks.Watcher.Settled.{SettledLine}
use proxmox_eventbus.Tasks.Run.{
  Opened, RunEffect, Loop, Input, go_on, run_step, run_loop, loop_start,
}
use proxmox_eventbus.Tasks.Run.Debounce.{is_quiet, fired, event-scanned}
use proxmox_eventbus.Examples.Watcher.{first_read}

abbrev active : Bytes
active = codes "/var/log/pve/tasks/active"

abbrev idle : Loop
idle = record { watcher = new_watcher []; active_path = active; pending = false; armed = false }

abbrev behind : List Input
behind =
    Input.file_event active false
    ∷ Input.inotify_error false
    ∷ Input.file_event (codes "/var/log/pve/tasks/index") false
    ∷ []

active-relevant : relevant_path active idle.active_path ≡ true
unfolding relevant_path bytes_beq
active-relevant = refl

event-scanned_example :
    (l' : Loop) × (fs : List RunEffect) × (run_loop
        (go_on idle [])
        (Input.file_event active true ∷ behind)
      ≡ go_on l' fs)
    × (l'.armed ≡ true)
    × (l'.watcher ≡ new_watcher [])
    × (run_step l' (Input.debounce_fired 7 (Opened.opened first_read))
        ≡ fired l' (parse_all (new_watcher []) 7 first_read))
    × All
        (SettledLine
          (new_watcher []).include
          (parse_all (new_watcher []) 7 first_read).watcher.known)
        ((scan_lines max_line first_read).0)
unfolding is_quiet
event-scanned_example =
    event-scanned idle [] active true behind 7 first_read refl active-relevant
      (refl, (refl, (refl, tt)))

start_path : (loop_start (new_watcher []) (codes "/var/log/pve/tasks/")).active_path ≡ active
unfolding join_path has_prefix bytes_beq
start_path = refl
