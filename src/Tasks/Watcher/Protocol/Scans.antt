-- ===== src/Tasks/Watcher/Protocol/Scans.antt =====
-- The readings of the task log follow the protocol.
use proxmox_eventbus.Prelude.{
  ◌≡◌, ◌≢◌, ◌⊎◌, inl, inr, refl, sym, subst, ap, ◌∙◌, Bool, List, [], ◌∷◌, map, Option, none, some,
  Bytes, bytes_eq, bytes_beq, bytes_beq_iff, bytes_beq_refl, bytes_beq_ne, Bool-cases, Option-cases,
  arith,
}
use proxmox_eventbus.Prelude.GoMap
use proxmox_eventbus.Bufio.{FileRead, scan_lines}
use proxmox_eventbus.Events.{Time, Kind}
use proxmox_eventbus.Tasks.Watcher.{
  UpidState, zero_state, Known, Watcher, Observation, observe, next_state, line_effects, Scan,
  absorb, scan_line, scan_all, collect_garbage, max_line, begin, parse_all,
}
use proxmox_eventbus.Tasks.Watcher.Protocol.{
  Stage, follow, phases_of, stage, Orderly, IsConsistent, Leaves, run_scans, sent_by_scans, Lives,
  stop, scan,
}
use proxmox_eventbus.Tasks.Watcher.Protocol.Lines.{
  phases_of-append, follow-append, other_line, line_follows, follow_nil,
}

-- The record that a line reads.
abbrev record_of : Option UpidState → UpidState
record_of v = GoMap.get_or v zero_state

stage-record_of : (v : Option UpidState) → stage (some (record_of v)) ≡ stage v
unfolding stage
stage-record_of none = refl
stage-record_of (some st) = refl

Orderly-record_of : (v : Option UpidState) → Orderly v → Orderly (some (record_of v))
Orderly-record_of none h = λ e. e
Orderly-record_of (some st) h = h

next_state-Orderly : (st : UpidState) (status : Bytes) → Orderly (some (next_state st status))
unfolding next_state
next_state-Orderly st status = ground arith

-- The effects so far take the task from the stage `s` to the one on record.
record Tracks (k : Bytes) (s : Stage) (c : Scan) : Type 0 where
  followed : follow s (phases_of k c.effects) ≡ some (stage (c.known k))
  orderly : Orderly (c.known k)

module _ (k : Bytes) (s : Stage) (obs : Time) where
  followed-append :
      (c : Scan) (o : Observation)
      → Tracks k s c
      → follow s (phases_of k (absorb obs o c).effects)
        ≡ follow
            (stage (c.known k))
            (phases_of k (line_effects (record_of (c.known o.upid.raw)) o obs))
  unfolding absorb
  followed-append c o h =
      ap (follow s) (phases_of-append k c.effects _)
      ∙ follow-append s (phases_of k c.effects) _ h.followed

  absorb_other :
      (c : Scan) (o : Observation) → k ≢ o.upid.raw → (absorb obs o c).known k ≡ c.known k
  unfolding absorb
  absorb_other c o h = rw (bytes_beq_ne k o.upid.raw h)

  absorb-Tracks_other :
      (c : Scan) (o : Observation) → k ≢ o.upid.raw → Tracks k s c → Tracks k s (absorb obs o c)
  absorb-Tracks_other c o n h = record {
    followed =
        followed-append c o h
        ∙ ap (follow (stage (c.known k))) (other_line k o obs _ n)
        ∙ follow_nil _
        ∙ ap (λ v. some (stage v)) (sym (absorb_other c o n));
    orderly = rw (absorb_other c o n) h.orderly;
  }

module _ (s : Stage) (obs : Time) (o : Observation) (c : Scan) where
  absorb_own :
      (absorb obs o c).known o.upid.raw
      ≡ some (next_state (record_of (c.known o.upid.raw)) o.status)
  unfolding absorb
  absorb_own = rw (bytes_beq_refl o.upid.raw)

  absorb-Tracks_own : Tracks o.upid.raw s c → Tracks o.upid.raw s (absorb obs o c)
  absorb-Tracks_own h =
      let old = c.known o.upid.raw in
      record {
        followed =
            followed-append o.upid.raw s obs c o h
            ∙ ap (λ t. follow t (phases_of o.upid.raw (line_effects (record_of old) o obs)))
                (sym (stage-record_of old))
            ∙ line_follows o obs (record_of old) (Orderly-record_of old h.orderly)
            ∙ ap (λ v. some (stage v)) (sym absorb_own);
        orderly = rw absorb_own (next_state-Orderly _ o.status);
      }

  absorb-Tracks : (k : Bytes) → Tracks k s c → Tracks k s (absorb obs o c)
  absorb-Tracks k h = elim (Bool-cases (bytes_beq k o.upid.raw)) [
    | inl e ↦
        subst (λ j. Tracks j s c → Tracks j s (absorb obs o c))
          (sym ((bytes_beq_iff k o.upid.raw).0 e)) absorb-Tracks_own h
    | inr e ↦ absorb-Tracks_other k s obs c o (λ same. ground (arith, bytes_beq_iff k o.upid.raw)) h
  ]

module _ (include : Kind → Bool) (obs : Time) (k : Bytes) (s : Stage) where
  scan_line-Tracks :
      (line : Bytes) (c : Scan) → Tracks k s c → Tracks k s (scan_line include obs line c)
  unfolding scan_line
  scan_line-Tracks line c h = elim (Option-cases (observe include line)) [
    | inl e ↦ rw (e, scan_line) h
    | inr (o, e) ↦ rw (e, scan_line) (absorb-Tracks s obs o c k h)
  ]

  scan_all-Tracks :
      (lines : List Bytes) (c : Scan) → Tracks k s c → Tracks k s (scan_all include obs lines c)
  unfolding scan_all
  scan_all-Tracks [] c h = h
  scan_all-Tracks (line ∷ lines) c h = scan_all-Tracks lines _ (scan_line-Tracks line c h)

collect_garbage-Leaves :
    (seen : Bytes → Bool) (known : Known) (k : Bytes)
    → Leaves (stage (known k)) (stage (collect_garbage seen known k))
unfolding collect_garbage stage
collect_garbage-Leaves seen known k = ground arith

collect_garbage-cases :
    (seen : Bytes → Bool) (known : Known) (k : Bytes)
    → (collect_garbage seen known k ≡ known k) ⊎ (collect_garbage seen known k ≡ none)
unfolding collect_garbage
collect_garbage-cases seen known k = ground arith

collect_garbage-Orderly :
    (seen : Bytes → Bool) (known : Known) (k : Bytes)
    → Orderly (known k)
    → Orderly (collect_garbage seen known k)
collect_garbage-Orderly seen known k h = elim (collect_garbage-cases seen known k) [
  | inl e ↦ rw e h
  | inr e ↦ rw e tt
]

module _ (w : Watcher) (obs : Time) (r : FileRead) (good : IsConsistent w.known) (k : Bytes) where
  end_of_scan : Scan
  end_of_scan = scan_all w.include obs (scan_lines max_line r).0 (begin w.known)

  end_of_scan-Tracks : Tracks k (stage (w.known k)) end_of_scan
  unfolding end_of_scan
  end_of_scan-Tracks =
      scan_all-Tracks w.include obs k (stage (w.known k)) (scan_lines max_line r).0 (begin w.known)
        (record { followed = unfold phases_of in follow_nil _; orderly = good.at_key k })

  -- One reading of the task log, whatever it holds and also where it fails, sends of each UPID
  -- events that take it from the stage on record to some stage: a start if it is fresh, and then
  -- one end. What is on record then is that stage, or nothing if the task has ended.
  pub parse_all-follows :
      (t : Stage) × (follow (stage (w.known k)) (phases_of k (parse_all w obs r).effects) ≡ some t)
      × Leaves t (stage ((parse_all w obs r).watcher.known k))
  unfolding parse_all end_of_scan
  parse_all-follows = (
    stage (end_of_scan.known k),
    end_of_scan-Tracks.followed,
    elim (Bool-cases (scan_lines max_line r).1) [
      | inl e ↦ rw e (collect_garbage-Leaves end_of_scan.seen end_of_scan.known k)
      | inr e ↦ rw e (inl refl)
    ],
  )

  parse_all-Orderly : Orderly ((parse_all w obs r).watcher.known k)
  unfolding parse_all end_of_scan
  parse_all-Orderly = elim (Bool-cases (scan_lines max_line r).1) [
    | inl e ↦
        rw e
          (collect_garbage-Orderly end_of_scan.seen end_of_scan.known k end_of_scan-Tracks.orderly)
    | inr e ↦ rw e end_of_scan-Tracks.orderly
  ]

pub parse_all-IsConsistent :
    (w : Watcher) (obs : Time) (r : FileRead)
    → IsConsistent w.known
    → IsConsistent (parse_all w obs r).watcher.known
parse_all-IsConsistent w obs r good = record { at_key = parse_all-Orderly w obs r good }

-- Over any sequence of readings of the task log, from a consistent record, the events of each UPID
-- keep to the protocol: one start, then one end, and a new start only after an end was forgotten.
pub run_scans-Lives :
    (w : Watcher) (rs : List (Time × FileRead)) (k : Bytes)
    → IsConsistent w.known
    → Lives
        (stage (w.known k))
        (map (phases_of k) (sent_by_scans w rs))
        (stage ((run_scans w rs).known k))
unfolding run_scans sent_by_scans
run_scans-Lives w [] k good = stop
run_scans-Lives w ((obs, r) ∷ rs) k good =
    let (t, followed, leaves) = parse_all-follows w obs r good k in
    scan followed leaves
      (run_scans-Lives (parse_all w obs r).watcher rs k (parse_all-IsConsistent w obs r good))
