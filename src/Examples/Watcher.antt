-- ===== src/Examples/Watcher.antt =====
-- Readings of a small task log.
use proxmox_eventbus.Prelude.{◌≡◌, refl, false, [], ◌∷◌, ◌++◌, Bytes, codes, bytes_beq, List}
use proxmox_eventbus.Strings.Affix.{has_prefix, trim_suffix}
use proxmox_eventbus.Strings.Split.{split, join, cut}
use proxmox_eventbus.Strings.Space.{trim_space, fields}
use proxmox_eventbus.Strconv.{parse_int}
use proxmox_eventbus.Bufio.{FileRead, scan_lines}
use proxmox_eventbus.Events.{Time, phase_started, phase_finished}
use proxmox_eventbus.Tasks.Upid.{parse_upid, parse_active_line}
use proxmox_eventbus.Tasks.Workers.{worker_type_map}
use proxmox_eventbus.Tasks.Watcher.{new_watcher, is_ok, parse_all}
use proxmox_eventbus.Tasks.Status.{parse_status_tail}
use proxmox_eventbus.Tasks.Watcher.Protocol.{
  fresh, Lives, IsConsistent, run_scans, sent_by_scans, stage, phases_of,
}
use proxmox_eventbus.Tasks.Watcher.Protocol.Scans.{run_scans-Lives}
use proxmox_eventbus.Tasks.Watcher.Rescan.{parse_all_again}

abbrev pub key : Bytes
key = codes "UPID:pve1:00001234:0ABCDEF0:6645A1B2:qmigrate:101:root@pam:"

abbrev pub first_read : FileRead
first_read = record { content = key ++ codes " 0\n"; fault = false }

abbrev second_read : FileRead
second_read = record { content = key ++ codes " 1 6645A1FF OK\n"; fault = false }

abbrev third_read : FileRead
third_read = record { content = []; fault = false }

abbrev pub reads : List (Time × FileRead)
reads = (1, first_read) ∷ (2, second_read) ∷ (3, third_read) ∷ []

pub new_watcher-IsConsistent : IsConsistent (new_watcher []).known
unfolding new_watcher
new_watcher-IsConsistent = record { at_key = λ k. tt }

run_scans-Lives_example : Lives fresh ((phase_started ∷ []) ∷ (phase_finished ∷ []) ∷ [] ∷ []) fresh
unfolding new_watcher run_scans sent_by_scans stage phases_of parse_all scan_lines split cut
    parse_active_line worker_type_map bytes_beq trim_space fields parse_int has_prefix trim_suffix
    parse_upid parse_status_tail join is_ok
run_scans-Lives_example = run_scans-Lives (new_watcher []) reads key new_watcher-IsConsistent

first_whole : (parse_all (new_watcher []) 1 first_read).failed ≡ false
unfolding new_watcher parse_all bytes_beq split
first_whole = refl

parse_all_again_example :
    ((parse_all (parse_all (new_watcher []) 1 first_read).watcher 2 first_read).effects ≡ [])
    × ((k : Bytes)
        → (parse_all (parse_all (new_watcher []) 1 first_read).watcher 2 first_read).watcher.known k
          ≡ (parse_all (new_watcher []) 1 first_read).watcher.known k)
parse_all_again_example = parse_all_again (new_watcher []) 1 2 first_read first_whole
