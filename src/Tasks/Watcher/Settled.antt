-- ===== src/Tasks/Watcher/Settled.antt =====
-- A task log that has been read: each of its lines has sent all that it can send.
use proxmox_eventbus.Prelude.{
  ◌≡◌, ◌⊎◌, inl, inr, refl, sym, subst, ap, ◌∙◌, fun_ext, Bool, true, List, [], ◌∷◌, Option, some,
  Bytes, bytes_eq, bytes_beq, bytes_beq_iff, bytes_beq_refl, Bool-cases, Option-cases, arith,
  append-nil, All,
}
use proxmox_eventbus.Prelude.GoMap
use proxmox_eventbus.Events.{Time, Kind}
use proxmox_eventbus.Tasks.Watcher.{
  UpidState, zero_state, Known, Observation, observe, next_state, line_effects, Scan, absorb,
  scan_line, scan_all,
}

-- All that the observation can send has been sent.
pub record IsSettled (known : Known) (o : Observation) : Type 0 where
  pub st : UpidState
  pub at_key : known o.upid.raw ≡ some st
  pub started : st.started_emitted ≡ true
  pub ended : (bytes_beq o.status [] ≡ true) ⊎ (st.finished_emitted ≡ true)

next_state-settled :
    (st : UpidState) (status : Bytes) → (next_state st status).started_emitted ≡ true
unfolding next_state
next_state-settled st status = ground arith

next_state-ended :
    (st : UpidState) (status : Bytes)
    → (bytes_beq status [] ≡ true) ⊎ ((next_state st status).finished_emitted ≡ true)
unfolding next_state
next_state-ended st status = ground arith

next_state-keeps :
    (st : UpidState) (status : Bytes)
    → st.finished_emitted ≡ true
    → (next_state st status).finished_emitted ≡ true
unfolding next_state
next_state-keeps st status h = ground arith

abbrev record_of : Option UpidState → UpidState
record_of v = GoMap.get_or v zero_state

next_state-keeps_end :
    (st : UpidState) (p : Observation) (status : Bytes)
    → (bytes_beq p.status [] ≡ true) ⊎ (st.finished_emitted ≡ true)
    → (bytes_beq p.status [] ≡ true) ⊎ ((next_state st status).finished_emitted ≡ true)
next_state-keeps_end st p status (inl e) = inl e
next_state-keeps_end st p status (inr e) = inr (next_state-keeps st status e)

module _ (obs : Time) (o : Observation) (c : Scan) where
  absorb-IsSettled_own : IsSettled (absorb obs o c).known o
  unfolding absorb
  absorb-IsSettled_own =
      let old = record_of (c.known o.upid.raw) in
      record {
        st = next_state old o.status;
        at_key = rw (bytes_beq_refl o.upid.raw);
        started = next_state-settled old o.status;
        ended = next_state-ended old o.status;
      }

  absorb-IsSettled : (p : Observation) → IsSettled c.known p → IsSettled (absorb obs o c).known p
  unfolding absorb
  absorb-IsSettled p h = elim (Bool-cases (bytes_beq p.upid.raw o.upid.raw)) [
    | inl e ↦
        let same : c.known o.upid.raw ≡ some h.st =
          ap c.known (sym ((bytes_beq_iff p.upid.raw o.upid.raw).0 e)) ∙ h.at_key in
        record {
          st = next_state h.st o.status;
          at_key = rw e (ap (λ v. some (next_state (record_of v) o.status)) same);
          started = next_state-settled h.st o.status;
          ended = next_state-keeps_end h.st p o.status h.ended;
        }
    | inr e ↦ record { st = h.st; at_key = rw e h.at_key; started = h.started; ended = h.ended }
  ]

-- A settled observation sends nothing, and what is stored is what was there.
settled_next :
    (st : UpidState) (status : Bytes)
    → st.started_emitted ≡ true
    → (bytes_beq status [] ≡ true) ⊎ (st.finished_emitted ≡ true)
    → next_state st status ≡ st
unfolding next_state
settled_next st status h e = ground arith

settled_effects :
    (st : UpidState) (o : Observation) (obs : Time)
    → st.started_emitted ≡ true
    → (bytes_beq o.status [] ≡ true) ⊎ (st.finished_emitted ≡ true)
    → line_effects st o obs ≡ []
unfolding line_effects
settled_effects st o obs h e = ground arith

module _ (obs : Time) (o : Observation) (c : Scan) (h : IsSettled c.known o) where
  absorb-effects_settled : (absorb obs o c).effects ≡ c.effects
  unfolding absorb
  absorb-effects_settled =
      rw (h.at_key, settled_effects h.st o obs h.started h.ended) (append-nil c.effects)

  known_settled : (k : Bytes) → (absorb obs o c).known k ≡ c.known k
  unfolding absorb
  known_settled k = elim (Bool-cases (bytes_beq k o.upid.raw)) [
    | inl e ↦ rw e (
        ap (λ v. some (next_state (record_of v) o.status)) h.at_key
        ∙ ap some (settled_next h.st o.status h.started h.ended)
        ∙ sym (ap c.known ((bytes_beq_iff k o.upid.raw).0 e) ∙ h.at_key))
    | inr e ↦ rw e
  ]

-- A line that passes no filter has nothing to settle.
unfoldable pub SettledLine : (Kind → Bool) → Known → Bytes → Type 0
SettledLine include known line =
    (o : Observation) → observe include line ≡ some o → IsSettled known o

module _ (include : Kind → Bool) (obs : Time) where
  line_keeps :
      (line other : Bytes) (c : Scan)
      → SettledLine include c.known other
      → SettledLine include (scan_line include obs line c).known other
  unfolding SettledLine scan_line
  line_keeps line other c h p seen = elim (Option-cases (observe include line)) [
    | inl e ↦ rw (e, scan_line) (h p seen)
    | inr (o, e) ↦ rw (e, scan_line) (absorb-IsSettled obs o c p (h p seen))
  ]

  line_settles :
      (line : Bytes) (c : Scan) → SettledLine include (scan_line include obs line c).known line
  unfolding SettledLine scan_line
  line_settles line c p seen = rw (seen, scan_line) (absorb-IsSettled_own obs p c)

  all_keep :
      (lines : List Bytes) (other : Bytes) (c : Scan)
      → SettledLine include c.known other
      → SettledLine include (scan_all include obs lines c).known other
  unfolding scan_all
  all_keep [] other c h = h
  all_keep (line ∷ lines) other c h = all_keep lines other _ (line_keeps line other c h)

  -- Behind a scan every line is settled.
  pub All-settle :
      (lines : List Bytes) (c : Scan)
      → All (SettledLine include (scan_all include obs lines c).known) lines
  unfolding scan_all
  All-settle [] c = tt
  All-settle (line ∷ lines) c =
      (all_keep lines line _ (line_settles line c), All-settle lines (scan_line include obs line c))

  settled_line :
      (line : Bytes) (c : Scan)
      → SettledLine include c.known line
      → ((scan_line include obs line c).effects ≡ c.effects)
        × ((k : Bytes) → (scan_line include obs line c).known k ≡ c.known k)
  unfolding SettledLine scan_line
  settled_line line c h = elim (Option-cases (observe include line)) [
    | inl e ↦ rw (e, scan_line) (refl, λ k. refl)
    | inr (o, e) ↦
        rw (e, scan_line) (absorb-effects_settled obs o c (h o e), known_settled obs o c (h o e))
  ]

  -- A scan of settled lines changes nothing.
  pub settled-All :
      (lines : List Bytes) (c : Scan)
      → All (SettledLine include c.known) lines
      → ((scan_all include obs lines c).effects ≡ c.effects)
        × ((scan_all include obs lines c).known ≡ c.known)
  unfolding scan_all
  settled-All [] c h = (refl, refl)
  settled-All (line ∷ lines) c (hl, h) =
      let (e, ks) = settled_line line c hl in
      let (e', ks') =
        settled-All lines (scan_line include obs line c)
          (subst (λ m. All (SettledLine include m) lines) (sym (fun_ext ks)) h) in
      (e' ∙ e, ks' ∙ fun_ext ks)
