-- ===== src/Examples/Synced.antt =====
-- Two goroutines of one migration, and the scans between their sections.
use proxmox_eventbus.Prelude.{
  ◌≡◌, ◌≤◌, refl, Bool, Bytes, ◌&&◌, if◌then◌else◌, true, false, [], ◌∷◌, ◌++◌, List, codes, pos,
  some, none, bytes_beq, bytes_eq, ◌==◌,
}
use proxmox_eventbus.Prelude.GoMap
use proxmox_eventbus.Prelude.GoMap.{set_self}
use proxmox_eventbus.Strings.Affix.{contains}
use proxmox_eventbus.Events.{kind_qemu, action_migrate}
use proxmox_eventbus.Tasks.Upid.{Upid}
use proxmox_eventbus.Tasks.Watcher.{
  Observation, Known, UpidState, new_watcher, emits_end, collect_garbage,
}
use proxmox_eventbus.Tasks.LogFile.{Files, nil}
use proxmox_eventbus.Tasks.Synced.Goroutine.{Tick, SyncOutcome, decision, sent}
use proxmox_eventbus.Tasks.Synced.{
  goes_on, synced_event, Section, Round, section_known, sync_round, migration_synced_marker,
  already_synced, mark_synced, log_synced,
}
use proxmox_eventbus.Tasks.Synced.Once.{synced_sends, synced_sends_once}
use proxmox_eventbus.Tasks.Synced.Late.{
  collections, only_synced, synced_behind_end, mark_behind_collection,
}

abbrev upid : Upid
upid = record {
  node = codes "pve1";
  pid = pos 4660;
  pstart = 1;
  start_time = pos 2;
  type = codes "qmigrate";
  id = codes "101";
  user = codes "root@pam";
  raw = codes "UPID:1";
}

abbrev seen_line : Observation
seen_line = record { upid = upid; kind = kind_qemu; action = action_migrate; status = [] }

abbrev known : Known
known = (new_watcher []).known

abbrev sections : List Section
sections =
    Section.line seen_line
    ∷ Section.marking upid
    ∷ Section.collection (λ k. k == upid.raw)
    ∷ Section.marking upid
    ∷ []

synced_sends_once_example : synced_sends upid.raw known sections ≤ 1
unfolding bytes_beq
synced_sends_once_example = synced_sends_once upid.raw known sections (tt, (tt, (refl, (tt, tt))))

sends_one : synced_sends upid.raw known sections ≡ 1
unfolding synced_sends section_known already_synced new_watcher bytes_beq
sends_one = refl

-- A UPID that was collected in between comes back without its start.
collected_comes_back :
    section_known (Section.marking upid) GoMap.empty upid.raw
    ≡ some (record { started_emitted = false; finished_emitted = false; synced_emitted = true })
unfolding section_known bytes_beq
collected_comes_back = refl

rounds :
    (sync_round none none ≡ Round.return_now)
    × (sync_round
          (some
            (record { started_emitted = true; finished_emitted = false; synced_emitted = false }))
          (some (codes "x\n" ++ migration_synced_marker))
        ≡ Round.mark_now)
unfolding sync_round contains
rounds = (refl, refl)

abbrev running : UpidState
running = record { started_emitted = true; finished_emitted = false; synced_emitted = false }

abbrev log_path : Bytes
log_path = codes "/tasks/UPID:1"

-- The log is there or not.
abbrev files : Bool → Files
files there = record {
  stat = λ p. if there && p == log_path then some false else none;
  glob = λ p. [];
  tree = nil;
}

abbrev tick : Bool → Bytes → Tick
tick there text = record {
  state = some running;
  files = files there;
  contents = λ p. some text;
  already = false;
  now = 7;
}

sends_synced_event :
    decision upid (tick true migration_synced_marker) ≡ SyncOutcome.returned (synced_event upid 7)
unfolding decision goes_on sent
sends_synced_event = refl

abbrev ended : UpidState
ended = record { started_emitted = true; finished_emitted = true; synced_emitted = true }

abbrev ended_line : Observation
ended_line = record { upid = upid; kind = kind_qemu; action = action_migrate; status = codes "OK" }

running_known : GoMap.set known upid.raw running upid.raw ≡ some running
running_known = set_self known upid.raw running

synced_behind_end_example :
    (sync_round (GoMap.set known upid.raw running upid.raw) (some migration_synced_marker)
      ≡ Round.mark_now)
    × (emits_end running (codes "OK") ≡ true)
    × (already_synced upid.raw
          (section_known (Section.line ended_line) (GoMap.set known upid.raw running))
        ≡ false)
    × (sync_round
          (section_known (Section.line ended_line) (GoMap.set known upid.raw running) upid.raw)
          none
        ≡ Round.return_now)
unfolding contains bytes_beq log_synced
synced_behind_end_example =
    synced_behind_end (GoMap.set known upid.raw running) ended_line running running_known
      (some migration_synced_marker) none refl refl refl refl

mark_behind_collection_example :
    (collect_garbage (λ k. false) (GoMap.set known upid.raw ended) upid.raw ≡ none)
    × (collections
          (mark_synced upid.raw (collect_garbage (λ k. false) (GoMap.set known upid.raw ended)))
          ((λ k. false) ∷ [])
          upid.raw
        ≡ some only_synced)
mark_behind_collection_example =
    mark_behind_collection upid.raw (GoMap.set known upid.raw ended) ended (λ k. false)
      ((λ k. false) ∷ []) (set_self known upid.raw ended) refl refl
