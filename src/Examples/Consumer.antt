-- ===== src/Examples/Consumer.antt =====
-- A migration that is read twice from the task log, and the end of a batch, on their way to a
-- consumer.
use proxmox_eventbus.Prelude.{
  ◌≡◌, ◌≢◌, refl, sym, subst, [], ◌∷◌, map, none, codes, pos, arith, bytes_beq,
}
use proxmox_eventbus.Prelude.Merges.{Merges, done, left}
use proxmox_eventbus.Bufio.{scan_lines}
use proxmox_eventbus.Strings.Affix.{has_prefix, trim_suffix}
use proxmox_eventbus.Strings.Space.{trim_space, fields}
use proxmox_eventbus.Strings.Split.{split, cut, join}
use proxmox_eventbus.Strconv.{parse_int}
use proxmox_eventbus.Events.{
  CloudEvent, new, kind_qemu, action_migrate, phase_started, phase_finished,
}
use proxmox_eventbus.Tasks.Upid.{Upid, parse_upid, parse_active_line}
use proxmox_eventbus.Tasks.Status.{parse_status_tail}
use proxmox_eventbus.Tasks.Workers.{worker_type_map}
use proxmox_eventbus.Tasks.Watcher.{TaskEvent, new_watcher, parse_all, is_ok}
use proxmox_eventbus.Tasks.Watcher.Protocol.{phases_of, sent_by_scans, run_scans, stage, Lives}
use proxmox_eventbus.Main.{watch_step}
use proxmox_eventbus.Main.Channel.{has_room, enqueue, offer_event, forward_event, take_from}
use proxmox_eventbus.Main.Pipeline.{History, Pipeline, Reach}
use proxmox_eventbus.Main.Pipeline.Runs.{start, emit, take, pass, offer, publish}
use proxmox_eventbus.Main.Pipeline.Told.{told, event_phase, all_sends, all_phases}
use proxmox_eventbus.Main.Pipeline.Consumer.{published_phases-Lives}
use proxmox_eventbus.Examples.Daemon.{inputs, at_start}
use proxmox_eventbus.Examples.Watcher.{key, reads, new_watcher-IsConsistent}
use proxmox_eventbus.Examples.Pipeline.{ending}

abbrev migration : Upid
migration = record {
  node = codes "pve1";
  pid = pos 0x1234;
  pstart = 0x0ABCDEF0;
  start_time = pos 0x6645A1B2;
  type = codes "qmigrate";
  id = codes "101";
  user = codes "root@pam";
  raw = key;
}

abbrev started : TaskEvent
started = record {
  upid = migration;
  kind = kind_qemu;
  action = action_migrate;
  phase = phase_started;
  status = [];
  obs_time = 1;
}

abbrev finished : TaskEvent
finished = record started { phase = phase_finished; status = codes "OK"; obs_time = 2 }

sends_two : all_sends (sent_by_scans (new_watcher []) reads) ≡ started ∷ finished ∷ []
unfolding new_watcher all_sends sent_by_scans parse_all scan_lines split cut parse_active_line
    worker_type_map bytes_beq trim_space fields parse_int has_prefix trim_suffix parse_upid
    parse_status_tail join is_ok
sends_two = refl

abbrev first : CloudEvent
first = (watch_step at_start started inputs).0

abbrev second : CloudEvent
second = (watch_step (watch_step at_start started inputs).1 finished inputs).0

abbrev history : History
history = record {
  emitted = started ∷ finished ∷ [];
  taken = (started, inputs) ∷ (finished, inputs) ∷ [];
  offered = ending ∷ [];
}

abbrev state : Pipeline
state = record {
  task_queue = [];
  watch = (watch_step (watch_step at_start started inputs).1 finished inputs).1;
  held = none;
  out = record { queue = []; received = first ∷ ending ∷ second ∷ [] };
}

state-Reach : Reach at_start history state
unfolding offer_event forward_event take_from has_room enqueue
state-Reach = publish _ refl (
    pass second _ refl refl (
      take finished [] inputs refl refl (
        publish _ refl (
          publish _ refl (
            offer ending (
              pass first _ refl refl (
                take started (finished ∷ []) inputs refl refl
                  (emit finished (omega arith) (emit started (omega arith) start)))))))))

key-ne-nil : key ≢ []
key-ne-nil e = cc

published_phases-Lives_example :
    (told (event_phase key) (first ∷ ending ∷ second ∷ [])
      ≡ all_phases (map (phases_of key) (sent_by_scans (new_watcher []) reads)))
    × Lives
        (stage ((new_watcher []).known key))
        (map (phases_of key) (sent_by_scans (new_watcher []) reads))
        (stage ((run_scans (new_watcher []) reads).known key))
unfolding new
published_phases-Lives_example =
    published_phases-Lives {s = state} (new_watcher []) reads [] key state-Reach
      (record { no_tasks = refl; nothing_held = refl; no_events = refl }) new_watcher-IsConsistent
      (subst (λ es. Merges es [] history.emitted) (sym sends_two) (left (left done))) tt (refl, tt)
      key-ne-nil
