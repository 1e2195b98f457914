-- ===== src/Tasks/Synced/Once.antt =====
-- However the lock sections interleave, a migration is reported as synced once.
use proxmox_eventbus.Prelude.{
  ◌≡◌, ◌≤◌, ◌+◌, refl, sym, ap, ◌∙◌, Bool, true, false, not, ◌&&◌, List, [], ◌∷◌, Option, Bytes,
  ◌==◌, bytes_eq, bytes_beq, bytes_beq_iff, if◌then◌else◌, if_true, if_false, Bool-cases,
  Option-cases, inl, inr, arith, All, ℕ,
}
use proxmox_eventbus.Prelude.GoMap
use proxmox_eventbus.Tasks.Watcher.{UpidState, zero_state, Known, next_state, collect_garbage}
use proxmox_eventbus.Tasks.Synced.{mark_synced, already_synced, Section, section_known}

-- Behind the section, the goroutine of the UPID goes on to send the event `synced`.
unfoldable pub sends_synced : Bytes → Known → Section → Bool
sends_synced raw known (Section.line o) = false
sends_synced raw known (Section.collection seen) = false
sends_synced raw known (Section.marking upid) = upid.raw == raw && not (already_synced raw known)

-- How often that happens in a sequence of sections.
unfoldable pub synced_sends : Bytes → Known → List Section → ℕ
unfolding sends_synced
synced_sends raw known [] = 0
synced_sends raw known (s ∷ rest) =
    let later = synced_sends raw (section_known s known) rest in
    if sends_synced raw known s then 1 + later else later

-- The section does not collect the UPID: the scan has seen it in the file.
abbrev pub Spares : Bytes → Section → Type 0
Spares raw (Section.line o) = Unit
Spares raw (Section.collection seen) = seen raw ≡ true
Spares raw (Section.marking upid) = Unit

abbrev flag : Option UpidState → Bool
flag o = (GoMap.get_or o zero_state).synced_emitted

-- A state that is stored under any key keeps the mark, if it has it where the key is this UPID.
set-flag :
    (raw key : Bytes) (known : Known) (st : UpidState)
    → (raw ≡ key → st.synced_emitted ≡ true)
    → flag (known raw) ≡ true
    → flag (GoMap.set known key st raw) ≡ true
set-flag raw key known st hs h = elim (Bool-cases (bytes_beq raw key)) [
  | inl e ↦ ap flag (if_true _ _ e) ∙ hs ((bytes_beq_iff raw key).0 e)
  | inr e ↦ ap flag (if_false _ _ e) ∙ h
]

collect_garbage-spared :
    (seen : Bytes → Bool) (known : Known) (raw : Bytes)
    → seen raw ≡ true
    → collect_garbage seen known raw ≡ known raw
unfolding collect_garbage
collect_garbage-spared seen known raw h = elim (Option-cases (known raw)) [
  | inl e ↦ rw (e, collect_garbage)
  | inr (st, e) ↦ rw (e, collect_garbage) (rw h)
]

section-flag :
    (raw : Bytes) (known : Known) (s : Section)
    → Spares raw s
    → flag (known raw) ≡ true
    → flag (section_known s known raw) ≡ true
unfolding section_known next_state mark_synced
section-flag raw known (Section.line o) _ h =
    set-flag raw o.upid.raw known _ (λ e. ap (λ k. flag (known k)) (sym e) ∙ h) h
section-flag raw known (Section.collection seen) p h =
    ap flag (collect_garbage-spared seen known raw p) ∙ h
section-flag raw known (Section.marking upid) _ h = set-flag raw upid.raw known _ (λ e. refl) h

marked-sends :
    (raw : Bytes) (known : Known) (s : Section)
    → flag (known raw) ≡ true
    → sends_synced raw known s ≡ false
unfolding sends_synced already_synced
marked-sends raw known (Section.line o) h = refl
marked-sends raw known (Section.collection seen) h = refl
marked-sends raw known (Section.marking upid) h = ground (arith, h)

sends-flag :
    (raw : Bytes) (known : Known) (s : Section)
    → sends_synced raw known s ≡ true
    → flag (section_known s known raw) ≡ true
unfolding sends_synced section_known mark_synced
sends-flag raw known (Section.line o) h = cc
sends-flag raw known (Section.collection seen) h = cc
sends-flag raw known (Section.marking upid) h =
    let e : bytes_beq upid.raw raw ≡ true = ground arith in
    let f : raw ≡ upid.raw = sym ((bytes_beq_iff upid.raw raw).0 e) in
    ap flag (if_true _ _ ((bytes_beq_iff raw upid.raw).1 f))

-- Behind the mark no more is sent.
marked-once :
    (raw : Bytes) (known : Known) (sections : List Section)
    → All (Spares raw) sections
    → flag (known raw) ≡ true
    → synced_sends raw known sections ≡ 0
unfolding synced_sends
marked-once raw known [] _ h = refl
marked-once raw known (s ∷ rest) (p, ps) h =
    rw (marked-sends raw known s h)
      (marked-once raw (section_known s known) rest ps (section-flag raw known s p h))

-- For every sequence of lock sections of scans and of any number of goroutines, in any
-- interleaving, in which no collection deletes the UPID (each scan has seen it in the file), the
-- event `synced` is sent for the UPID at most once, from every state of `known`.
pub synced_sends_once :
    (raw : Bytes) (known : Known) (sections : List Section)
    → All (Spares raw) sections
    → synced_sends raw known sections ≤ 1
unfolding synced_sends
synced_sends_once raw known [] _ = omega arith
synced_sends_once raw known (s ∷ rest) (p, ps) = elim (Bool-cases (sends_synced raw known s)) [
  | inl e ↦
      let done = marked-once raw (section_known s known) rest ps (sends-flag raw known s e) in
      rw (e, done) (omega arith)
  | inr e ↦ rw e (synced_sends_once raw (section_known s known) rest ps)
]
