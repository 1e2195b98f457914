-- ===== src/Examples/Daemon.antt =====
-- The log, a batch of states, and the events of a task on their way to the bus.
use proxmox_eventbus.Prelude.{
  ◌≡◌, ◌≢◌, ◌+◌, ℕ, ℤ, Bool, List, not, ◌==◌, nat_eq, true, Bytes, refl, inl, [], ◌∷◌, ◌++◌, none,
  some, codes, bytes_beq, bytes_beq_iff, pos, arith, sub_ℕ, length,
}
use proxmox_eventbus.Prelude.GoMap
use proxmox_eventbus.Prelude.Result.{err}
use proxmox_eventbus.Events.{kind_qemu, action_start, phase_started, phase_finished, state_running}
use proxmox_eventbus.Pmxcfs.VmConf.{ConfigError}
use proxmox_eventbus.Tasks.Upid.{Upid}
use proxmox_eventbus.Tasks.Watcher.{TaskEvent}
use proxmox_eventbus.Enrich.Lifecycle.{Inputs, milliseconds, is_terminal}
use proxmox_eventbus.Snapshot.Emitter.{Emitter, BatchWorld, guest_events, deliver}
use proxmox_eventbus.Snapshot.Emitter.Batch.{batch_guests}
use proxmox_eventbus.Main.{WatchState, watch_step, watch_run}
use proxmox_eventbus.Main.Logging.{slog_level, of_errorf, server_error-enabled}
use proxmox_eventbus.Bus.LogAdapter.{LogLevel, errorf, forward}
use proxmox_eventbus.Journal.{Handler, parse_level, enabled, handle}
use proxmox_eventbus.Main.Durations.{terminal-duration}

abbrev pub emitter : Emitter
emitter = record { cluster = codes "lab"; node = codes "pve1" }

abbrev pub batch : BatchWorld
batch = record {
  snapshot_id = codes "b1";
  stamp = λ i. record { id = codes "e"; now = 7 + i; unix_nano = pos 7 };
  state = λ kind vmid. (state_running, []);
  config = λ kind vmid. err ConfigError.not_opened;
}

abbrev qemu : List ℤ
qemu = pos 100 ∷ pos 101 ∷ []

-- The second send finds the channel full.
abbrev room : ℕ → Bool
room i = not (i == 1)

one_lost : length (deliver room (batch_guests emitter batch qemu (pos 200 ∷ []))) ≡ 2
unfolding deliver batch_guests guest_events
one_lost = refl

abbrev quiet : Handler
quiet = record { lvl = parse_level (codes "ERROR"); attrs = []; group = codes "nats" }

server_error-enabled_example :
    (forward errorf (codes "no route") ≡ some (LogLevel.error, codes "no route"))
    × (enabled quiet (slog_level LogLevel.error) ≡ true)
    × ((rest : Bytes) × (handle quiet (slog_level LogLevel.error) (codes "no route") []
          ≡ codes "<3>" ++ (codes "no route" ++ rest)))
server_error-enabled_example =
    server_error-enabled (codes "no route") (codes "ERROR") quiet [] of_errorf refl

abbrev pub upid : Upid
upid = record {
  node = codes "pve1";
  pid = pos 4660;
  pstart = 1;
  start_time = pos 2;
  type = codes "qmstart";
  id = codes "101";
  user = codes "root@pam";
  raw = codes "UPID:pve1:1234:1:2:qmstart:101:root@pam:";
}

abbrev pub started : TaskEvent
started = record {
  upid = upid;
  kind = kind_qemu;
  action = action_start;
  phase = phase_started;
  status = [];
  obs_time = 1000000;
}

abbrev finished : TaskEvent
finished = record started { phase = phase_finished; status = codes "OK"; obs_time = 9000000 }

abbrev other : TaskEvent
other = record started {
  upid = record upid { raw = codes "UPID:pve1:1235:1:2:qmstart:102:root@pam:" };
}

abbrev pub inputs : Inputs
inputs = record {
  config = err ConfigError.not_opened;
  cmdline = none;
  log = none;
  polls = [];
  clock = 8000000;
  id = [];
  now = 0;
}

abbrev pub at_start : WatchState
at_start = record {
  starts = GoMap.empty;
  enricher = record { cluster = codes "lab"; node = codes "pve1"; migrate_targets = GoMap.empty };
}

other-ne : other.upid.raw ≢ upid.raw
unfolding bytes_beq
other-ne e = cc ((bytes_beq_iff other.upid.raw upid.raw).1 e)

terminal-duration_example :
    ((watch_step
        ((watch_run ((watch_step at_start started inputs).1) ((other, inputs) ∷ [])).1)
        finished
        inputs).0.event_data.duration_ms
      ≡ some (milliseconds (sub_ℕ 8000000 1000000)))
    × ((watch_step
            ((watch_run ((watch_step at_start started inputs).1) ((other, inputs) ∷ [])).1)
            finished
            inputs).1.starts
          upid.raw
        ≡ none)
unfolding is_terminal bytes_beq
terminal-duration_example =
    terminal-duration at_start started finished inputs inputs ((other, inputs) ∷ []) refl
      (λ e. omega arith) (inl other-ne, tt) refl refl

seven_milliseconds : milliseconds (sub_ℕ 8000000 1000000) ≡ pos 7
unfolding milliseconds
seven_milliseconds = refl
