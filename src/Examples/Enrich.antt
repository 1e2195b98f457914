-- ===== src/Examples/Enrich.antt =====
-- Command lines and task logs of migrations.
use proxmox_eventbus.Prelude.{
  ◌≡◌, ◌≢◌, refl, inr, [], ◌∷◌, ◌++◌, none, some, Bytes, codes, bytes_beq, List, pos, arith,
}
use proxmox_eventbus.Prelude.GoMap
use proxmox_eventbus.Prelude.Result.{err}
use proxmox_eventbus.Strings.Affix.{has_prefix, contains}
use proxmox_eventbus.Strings.Split.{cut}
use proxmox_eventbus.Strings.Space.{trim_space}
use proxmox_eventbus.Strings.Case.{to_lower, equal_fold}
use proxmox_eventbus.Strconv.{atoi}
use proxmox_eventbus.Events.{action_migrate, phase_started, phase_failed, kind_qemu, phase_synced}
use proxmox_eventbus.Pmxcfs.VmConf.{ConfigError}
use proxmox_eventbus.Tasks.Upid.{Upid}
use proxmox_eventbus.Tasks.Watcher.{TaskEvent}
use proxmox_eventbus.Enrich.Target.{
  parse_migrate_target, looks_like_node, last_path_element, parse_target_option, is_number, one_of,
  split_kv,
}
use proxmox_eventbus.Enrich.Target.Command.{IsId, parse_migrate_target-command}
use proxmox_eventbus.Enrich.TaskLog.{parse_migrate_target_from_log}
use proxmox_eventbus.Enrich.Lifecycle.{
  Enricher, Inputs, lifecycle, recall, resolve_migrate_target, is_terminal,
}
use proxmox_eventbus.Enrich.Lifecycle.Targets.{Call, run, terminal-target}

abbrev command : List Bytes
command =
    (codes "perl" ∷ codes "-T" ∷ [])
    ++ codes "/usr/sbin/qm" ∷ codes "migrate" ∷ codes "101" ∷ codes "pve2" ∷ codes "--online" ∷ []

IsId-IsId : IsId (codes "101")
unfolding is_number atoi has_prefix
IsId-IsId = record { number = refl; nonempty = λ e. cc; no_option = refl; no_pair = omega arith }

parse_migrate_target-command_example : parse_migrate_target command ≡ codes "pve2"
unfolding one_of to_lower last_path_element equal_fold looks_like_node is_number parse_target_option
    bytes_beq contains atoi trim_space split_kv cut has_prefix
parse_migrate_target-command_example =
    parse_migrate_target-command (codes "perl" ∷ codes "-T" ∷ []) (codes "/usr/sbin/qm")
      (codes "migrate") (codes "101") (codes "pve2") (codes "--online" ∷ [])
      ((refl, refl), ((refl, refl), tt)) refl refl IsId-IsId refl refl

log_tests :
    (parse_migrate_target_from_log (codes "Migrate VM 101 to node 'pve-3' (10.0.0.3)")
      ≡ codes "pve-3")
    × (parse_migrate_target_from_log (codes "TARGET_node := pve2") ≡ [])
    × (parse_migrate_target_from_log (codes "TARGET_node: \"pve2\"") ≡ codes "pve2")
    × (parse_migrate_target_from_log (codes "goto 12") ≡ [])
    × (parse_migrate_target_from_log (codes "auto node") ≡ codes "node")
unfolding parse_migrate_target_from_log bytes_beq looks_like_node has_prefix atoi
log_tests = (refl, refl, refl, refl, refl)

abbrev pub upid : Upid
upid = record {
  node = codes "pve1";
  pid = pos 4660;
  pstart = 1;
  start_time = pos 2;
  type = codes "qmigrate";
  id = codes "101";
  user = codes "root@pam";
  raw = codes "UPID:pve1:1234:1:2:qmigrate:101:root@pam:";
}

abbrev pub started : TaskEvent
started = record {
  upid = upid;
  kind = kind_qemu;
  action = action_migrate;
  phase = phase_started;
  status = [];
  obs_time = 1000000;
}

abbrev pub failed : TaskEvent
failed = record started {
  phase = phase_failed;
  status = codes "migration aborted";
  obs_time = 9000000;
}

abbrev synced : TaskEvent
synced = record started { phase = phase_synced }

abbrev with_log : Inputs
with_log = record {
  config = err ConfigError.not_opened;
  cmdline = none;
  log = some (codes "starting migration of VM 101 to node 'pve2'");
  polls = [];
  clock = 5000000;
  id = [];
  now = 0;
}

abbrev pub without_log : Inputs
without_log = record with_log { log = none }

abbrev pub enricher : Enricher
enricher = record { cluster = codes "lab"; node = codes "pve1"; migrate_targets = GoMap.empty }

abbrev pub between : List Call
between = (synced, 1000000, without_log) ∷ []

resolved : resolve_migrate_target started with_log ≡ codes "pve2"
unfolding resolve_migrate_target parse_migrate_target_from_log bytes_beq looks_like_node has_prefix
    atoi
resolved = refl

resolved-ne-nil : resolve_migrate_target started with_log ≢ []
resolved-ne-nil e = cc (resolved, e)

terminal-target_example :
    ((lifecycle enricher started 1000000 with_log).0.event_data.target_node
      ≡ resolve_migrate_target started with_log)
    × ((lifecycle
          (run ((lifecycle enricher started 1000000 with_log).1) between)
          failed
          1000000
          without_log).0.event_data.target_node
        ≡ resolve_migrate_target started with_log)
    × (recall upid.raw (
          (lifecycle
            (run ((lifecycle enricher started 1000000 with_log).1) between)
            failed
            1000000
            without_log).1.migrate_targets)
        ≡ [])
unfolding bytes_beq resolve_migrate_target is_terminal
terminal-target_example =
    terminal-target enricher started failed 1000000 1000000 with_log without_log between refl refl
      (λ e. cc) resolved-ne-nil (inr (refl, refl), tt) refl refl refl refl
