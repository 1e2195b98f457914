-- ===== src/Examples/Published.antt =====
-- From a line of a task log to the subject of its event.
use proxmox_eventbus.Prelude.{[], ◌∷◌, none, codes, All}
use proxmox_eventbus.Prelude.GoMap
use proxmox_eventbus.Prelude.Result.{err}
use proxmox_eventbus.Pmxcfs.VmConf.{ConfigError}
use proxmox_eventbus.Enrich.Lifecycle.{Inputs}
use proxmox_eventbus.Config.{Config, defaults}
use proxmox_eventbus.Tasks.Watcher.Protocol.{sent_by_scans}
use proxmox_eventbus.Tasks.Watcher.Vocabulary.{IfSent}
use proxmox_eventbus.Main.{WatchState}
use proxmox_eventbus.Main.Published.{
  IsWatchedAndPublished, daemon_watcher, daemon_watcher-IsPublished,
}
use proxmox_eventbus.Examples.Watcher.{reads}

abbrev inputs : Inputs
inputs = record {
  config = err ConfigError.not_opened;
  cmdline = none;
  log = none;
  polls = [];
  clock = 8000000;
  id = [];
  now = 0;
}

abbrev state : WatchState
state = record {
  starts = GoMap.empty;
  enricher = record {
    cluster = codes "my lab";
    node = codes "pve1";
    migrate_targets = GoMap.empty;
  };
}

abbrev configuration : Config
configuration = record defaults { watch = record defaults.watch { include = codes "qemu" ∷ [] } }

daemon_watcher-IsPublished_example :
    All
      (All (IfSent (IsWatchedAndPublished configuration state inputs)))
      (sent_by_scans (daemon_watcher configuration) reads)
daemon_watcher-IsPublished_example = daemon_watcher-IsPublished configuration reads state inputs
