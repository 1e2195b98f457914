-- ===== src/Examples/TaskLog.antt =====
-- Logs of a migration.
use proxmox_eventbus.Prelude.{
  ◌≡◌, refl, inr, codes, Bytes, [], ◌∷◌, ◌++◌, Bool, true, false, not, ◌&&◌, bytes_beq, bytes_eq,
  nat_eq, ◌==◌, All, none, some, arith, if◌then◌else◌,
}
use proxmox_eventbus.Strings.Affix.{has_prefix, contains}
use proxmox_eventbus.Strings.Case.{lower, to_lower, equal_fold}
use proxmox_eventbus.Strconv.{atoi}
use proxmox_eventbus.Strings.Affix.{trim_suffix}
use proxmox_eventbus.Strings.Space.{trim_space}
use proxmox_eventbus.Filepath.{join_path}
use proxmox_eventbus.Tasks.LogFile.{find_log_file, nil}
use proxmox_eventbus.Enrich.Lifecycle.{
  migrate_target, lifecycle, is_terminal, resolve_migrate_target,
}
use proxmox_eventbus.Enrich.Lifecycle.Targets.{run}
use proxmox_eventbus.Enrich.Lifecycle.Sources.{
  Roots, Disk, LogNames, tasks_root, with_reads, read_cmdline, ha_migration-target,
}
use proxmox_eventbus.Examples.Enrich.{upid, started, failed, without_log, enricher, between}
use proxmox_eventbus.Strings.Split.{split, cut}
use proxmox_eventbus.Enrich.Target.{
  node_byte, looks_like_node, parse_migrate_target, parse_target_option, split_cmdline, split_kv,
  last_path_element,
}
use proxmox_eventbus.Enrich.TaskLog.{parse_migrate_target_from_log}
use proxmox_eventbus.Enrich.TaskLog.Lines.{
  IsQuiet, IsNodeName, is_alnum, starting_line, parse_log-lock_line,
}

abbrev stamp : Bytes
stamp = codes "2026-06-17 16:24:13 "

unfoldable all_quiet : Bytes → Bool
unfolding lower
all_quiet [] = true
all_quiet (c ∷ s) = not (lower c == b't') && all_quiet s

all_quiet-IsQuiet : (s : Bytes) → all_quiet s ≡ true → All IsQuiet s
unfolding all_quiet
all_quiet-IsQuiet [] h = tt
all_quiet-IsQuiet (c ∷ s) h = (ground arith, all_quiet-IsQuiet s (ground arith))

stamp-IsQuiet : All IsQuiet stamp
unfolding all_quiet
stamp-IsQuiet = all_quiet-IsQuiet stamp refl

pve01 : IsNodeName b'p' (codes "ve01")
unfolding is_alnum lower node_byte looks_like_node has_prefix atoi bytes_beq
pve01 = record { first = refl; others = (refl, (refl, (refl, (refl, tt)))); accepted = refl }

-- The line with the node follows.
parse_log-lock_line_example :
    parse_migrate_target_from_log (
      stamp
      ++ (codes "trying to acquire lock"
          ++ (codes "...\n" ++ starting_line 999 (codes "pve01") (codes " (10.10.0.11)"))))
    ≡ codes "acquire"
unfolding lower
parse_log-lock_line_example =
    parse_log-lock_line stamp
      (codes "...\n" ++ starting_line 999 (codes "pve01") (codes " (10.10.0.11)")) stamp-IsQuiet

abbrev path : Bytes
path = codes "/var/log/pve/tasks/UPID:pve1:1234:1:2:qmigrate:101:root@pam:"

abbrev log : Bytes
log = stamp ++ starting_line 101 (codes "pve01") (codes " (10.10.0.11)")

-- The log lies directly in the root; the process is that of the HA manager.
abbrev disk : Disk
disk = record {
  files = record { stat = λ p. if p == path then some false else none; glob = λ p. []; tree = nil };
  contents = λ p. if p == path then some log else some (codes "pve-ha-lrm");
}

abbrev roots : Roots
roots = record { proc = []; tasks = [] }

log-names : LogNames roots disk upid b'p' (codes "ve01")
unfolding find_log_file tasks_root join_path trim_space trim_suffix has_prefix bytes_beq
log-names = record {
  path = path;
  found = refl;
  path_ne = refl;
  stamp = stamp;
  id = 101;
  rest = codes " (10.10.0.11)";
  stamped = stamp-IsQuiet;
  named = pve01;
  holds = refl;
}

ha_process : migrate_target (read_cmdline roots disk upid) ≡ []
unfolding bytes_beq read_cmdline parse_migrate_target parse_target_option split_cmdline split
    trim_space split_kv cut to_lower last_path_element contains equal_fold migrate_target
ha_process = refl

ha_migration-target_example :
    ((lifecycle enricher started 1000000
        (with_reads roots disk [] upid without_log)).0.event_data.target_node
      ≡ codes "pve01")
    × ((lifecycle
          (run
            ((lifecycle enricher started 1000000 (with_reads roots disk [] upid without_log)).1)
            between)
          failed
          1000000
          without_log).0.event_data.target_node
        ≡ codes "pve01")
unfolding bytes_beq resolve_migrate_target is_terminal
ha_migration-target_example =
    ha_migration-target roots disk [] b'p' (codes "ve01") enricher started failed 1000000 1000000
      without_log without_log between ha_process log-names refl refl (λ e. cc)
      (inr (refl, refl), tt) refl refl refl refl
