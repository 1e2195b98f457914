-- ===== src/Tasks/Watcher/Rescan.antt =====
-- Reading a task log again that has not changed: the file is read on every change in its directory.
use proxmox_eventbus.Prelude.{
  Bool-cases, ◌≡◌, inl, inr, refl, ap, ◌∙◌, Bool, true, false, ◌||◌, List, [], ◌∷◌, some, Bytes,
  bytes_eq, bytes_beq, bytes_beq_refl, Option-cases, arith, All,
}
use proxmox_eventbus.Bufio.{FileRead, scan_lines}
use proxmox_eventbus.Events.{Time, Kind}
use proxmox_eventbus.Tasks.Watcher.{
  Known, Watcher, Observation, observe, Scan, scan_line, scan_all, collect_garbage, max_line, begin,
  parse_all,
}
use proxmox_eventbus.Tasks.Watcher.Settled.{IsSettled, SettledLine, All-settle, settled-All}

-- The UPID of the line has been marked as seen.
SeenLine : (Kind → Bool) → (Bytes → Bool) → Bytes → Type 0
SeenLine include seen line =
    (o : Observation) → observe include line ≡ some o → seen o.upid.raw ≡ true

module _ (include : Kind → Bool) (obs : Time) where
  seen_grows :
      (line k : Bytes) (c : Scan) → c.seen k ≡ true → (scan_line include obs line c).seen k ≡ true
  unfolding scan_line
  seen_grows line k c h = elim (Option-cases (observe include line)) [
    | inl e ↦ rw (e, scan_line) h
    | inr (o, e) ↦ rw (e, scan_line) (ground arith)
  ]

  line_seen : (line : Bytes) (c : Scan) → SeenLine include (scan_line include obs line c).seen line
  unfolding SeenLine scan_line
  line_seen line c o e = rw (e, scan_line) (rw (bytes_beq_refl o.upid.raw))

  seen_all_grows :
      (lines : List Bytes) (k : Bytes) (c : Scan)
      → c.seen k ≡ true
      → (scan_all include obs lines c).seen k ≡ true
  unfolding scan_all
  seen_all_grows [] k c h = h
  seen_all_grows (line ∷ lines) k c h = seen_all_grows lines k _ (seen_grows line k c h)

  All-seen :
      (lines : List Bytes) (c : Scan)
      → All (SeenLine include (scan_all include obs lines c).seen) lines
  unfolding scan_all SeenLine
  All-seen [] c = tt
  All-seen (line ∷ lines) c = (
    λ o e. seen_all_grows lines o.upid.raw _ (line_seen line c o e),
    All-seen lines (scan_line include obs line c),
  )

module _ (include : Kind → Bool) (obs obs' : Time) where
  same_seen_line :
      (line : Bytes) (c c' : Scan)
      → c.seen ≡ c'.seen
      → (scan_line include obs line c).seen ≡ (scan_line include obs' line c').seen
  unfolding scan_line
  same_seen_line line c c' h = elim (Option-cases (observe include line)) [
    | inl e ↦ rw (e, scan_line) h
    | inr (o, e) ↦
        rw (e, scan_line) (ap (λ (seen : Bytes → Bool). λ k. bytes_beq k o.upid.raw || seen k) h)
  ]

  -- What is seen depends on the lines alone.
  same_seen :
      (lines : List Bytes) (c c' : Scan)
      → c.seen ≡ c'.seen
      → (scan_all include obs lines c).seen ≡ (scan_all include obs' lines c').seen
  unfolding scan_all
  same_seen [] c c' h = h
  same_seen (line ∷ lines) c c' h = same_seen lines _ _ (same_seen_line line c c' h)

-- The deletion spares what was seen, and deletes nothing more when it is made again.
collect_garbage-IsSettled :
    (seen : Bytes → Bool) (known : Known) (o : Observation)
    → seen o.upid.raw ≡ true
    → IsSettled known o
    → IsSettled (collect_garbage seen known) o
unfolding collect_garbage
collect_garbage-IsSettled seen known o s h = record {
  st = h.st;
  at_key = rw (h.at_key, collect_garbage) (rw s);
  started = h.started;
  ended = h.ended;
}

collect_garbage_again :
    (seen : Bytes → Bool) (known : Known) (k : Bytes)
    → collect_garbage seen (collect_garbage seen known) k ≡ collect_garbage seen known k
unfolding collect_garbage
collect_garbage_again seen known k = ground arith

settle_garbage :
    (include : Kind → Bool) (seen : Bytes → Bool) (known : Known) (lines : List Bytes)
    → All (SeenLine include seen) lines
    → All (SettledLine include known) lines
    → All (SettledLine include (collect_garbage seen known)) lines
unfolding SettledLine SeenLine
settle_garbage include seen known [] s h = tt
settle_garbage include seen known (line ∷ lines) (s, ss) (h, hs) = (
  λ o e. collect_garbage-IsSettled seen known o (s o e) (h o e),
  settle_garbage include seen known lines ss hs,
)

-- Reading a file a second time that was read to its end and has not changed sends nothing, and
-- leaves the record of every UPID as it is.
pub parse_all_again :
    (w : Watcher) (obs obs' : Time) (r : FileRead)
    → (parse_all w obs r).failed ≡ false
    → ((parse_all (parse_all w obs r).watcher obs' r).effects ≡ [])
      × ((k : Bytes)
          → (parse_all (parse_all w obs r).watcher obs' r).watcher.known k
            ≡ (parse_all w obs r).watcher.known k)
unfolding parse_all
parse_all_again w obs obs' r whole =
    let lines = (scan_lines max_line r).0 in
    let first = scan_all w.include obs lines (begin w.known) in
    let kept = collect_garbage first.seen first.known in
    let all_read : (scan_lines max_line r).1 ≡ true = ground arith in
    let settled =
      settle_garbage w.include first.seen first.known lines
        (All-seen w.include obs lines (begin w.known))
        (All-settle w.include obs lines (begin w.known)) in
    let (quiet, same) = settled-All w.include obs' lines (begin kept) settled in
    let seen_same = same_seen w.include obs' obs lines (begin kept) (begin w.known) refl in
    rw all_read (
      quiet,
      λ k.
          ap (λ m. collect_garbage (scan_all w.include obs' lines (begin kept)).seen m k) same
          ∙ ap (λ seen. collect_garbage seen kept k) seen_same
          ∙ collect_garbage_again first.seen first.known k,
    )

-- Behind a reading, whether or not the file was read to its end, all that each line could send has
-- been sent.
pub parse_all-settles :
    (w : Watcher) (obs : Time) (r : FileRead)
    → All (SettledLine w.include (parse_all w obs r).watcher.known) ((scan_lines max_line r).0)
unfolding parse_all
parse_all-settles w obs r =
    let lines = (scan_lines max_line r).0 in
    let read = scan_all w.include obs lines (begin w.known) in
    let settled = All-settle w.include obs lines (begin w.known) in
    elim (Bool-cases ((scan_lines max_line r).1)) [
      | inl e ↦ rw e (
          settle_garbage w.include read.seen read.known lines
            (All-seen w.include obs lines (begin w.known)) settled)
      | inr e ↦ rw e settled
    ]
