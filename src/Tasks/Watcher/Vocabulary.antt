-- ===== src/Tasks/Watcher/Vocabulary.antt =====
-- What a scan sends is of the table of worker types and of the kinds that are included.
use proxmox_eventbus.Prelude.{
  ◌≡◌, ◌⊎◌, inl, inr, refl, subst, Bool, true, false, List, [], ◌∷◌, Option, none, some, Bytes,
  bytes_eq, ◌==◌, if◌then◌else◌, if_true, if_false, Bool-cases, Option-cases, All, All-append,
}
use proxmox_eventbus.Prelude.GoMap
use proxmox_eventbus.Prelude.Result.{Result, ok, err}
use proxmox_eventbus.Bufio.{FileRead, scan_lines}
use proxmox_eventbus.Events.{Time, Kind, Action, phase_started, phase_finished, phase_failed}
use proxmox_eventbus.Tasks.Upid.{UpidError, Upid, parse_active_line}
use proxmox_eventbus.Tasks.Workers.{worker_type_map}
use proxmox_eventbus.Tasks.Watcher.{
  TaskEvent, Watcher, Observation, UpidState, zero_state, Effect, send, watch, observe, emits_start,
  emits_end, start_effects, end_phase, end_effects, line_effects, Scan, absorb, scan_line, scan_all,
  max_line, begin, parse_all, is_ok,
}

-- The type of the task stands for the event's kind and action, the kind is included, and the phase
-- is one of three.
pub record IsFromTable (include : Kind → Bool) (ev : TaskEvent) : Type 0 where
  pub of_table : worker_type_map ev.upid.type ≡ some (ev.kind, ev.action)
  pub included : include ev.kind ≡ true
  pub phase_known :
      (ev.phase ≡ phase_started) ⊎ ((ev.phase ≡ phase_finished) ⊎ (ev.phase ≡ phase_failed))

-- What is sent has the property.
abbrev pub IfSent : (TaskEvent → Type 0) → Effect → Type 0
IfSent P (send ev) = P ev
IfSent P (watch u) = Unit

if-eq_some {ℓ} :
    {A : Type ℓ} (b : Bool) (x : A) {y : A}
    → (if b then some x else none) ≡ some y
    → (b ≡ true) × (x ≡ y)
if-eq_some true x h = (refl, cc h)
if-eq_some false x h = cc h

abbrev OfTable : (Kind → Bool) → Observation → Type 0
OfTable include o =
    (worker_type_map o.upid.type ≡ some (o.kind, o.action)) × (include o.kind ≡ true)

module _ (include : Kind → Bool) (o : Observation) where
  -- the filters behind the table, and behind the parser
  known_type :
      (upid : Upid) (status : Bytes) (t : Option (Kind × Action))
      → worker_type_map upid.type ≡ t
      → (elim t [
        | none ↦ none
        | some (kind, action) ↦
            if include kind
            then some (record { upid = upid; kind = kind; action = action; status = status })
            else none
      ])
        ≡ some o
      → OfTable include o
  known_type upid status none t h = cc h
  known_type upid status (some (kind, action)) t h =
      let (e, same) = if-eq_some (include kind) _ h in subst (OfTable include) same (t, e)

  parsed_line :
      (r : Result UpidError (Upid × Bytes))
      → (elim r [
        | err _ ↦ none
        | ok (upid, status) ↦ elim (worker_type_map upid.type) [
          | none ↦ none
          | some (kind, action) ↦
              if include kind
              then some (record { upid = upid; kind = kind; action = action; status = status })
              else none
        ]
      ])
        ≡ some o
      → OfTable include o
  parsed_line (err _) h = cc h
  parsed_line (ok (upid, status)) h = known_type upid status (worker_type_map upid.type) refl h

  observe-OfTable : (line : Bytes) → observe include line ≡ some o → OfTable include o
  unfolding observe
  observe-OfTable line h = elim (Bool-cases (line == [])) [
    | inl e ↦ cc (rw e at h)
    | inr e ↦ parsed_line (parse_active_line line) (rw e at h)
  ]

All-if {ℓ κ} :
    {A : Type ℓ} (P : A → Type κ) (b : Bool) (xs : List A) → All P xs → All P (if b then xs else [])
All-if P true xs h = h
All-if P false xs h = tt

module _ (include : Kind → Bool) (obs : Time) (o : Observation)
    (of_table : worker_type_map o.upid.type ≡ some (o.kind, o.action))
    (included : include o.kind ≡ true) where
  end_phase-known :
      (status : Bytes)
      → (end_phase status ≡ phase_started)
        ⊎ ((end_phase status ≡ phase_finished) ⊎ (end_phase status ≡ phase_failed))
  unfolding end_phase
  end_phase-known status = elim (Bool-cases (is_ok status)) [
    | inl e ↦ inr (inl (if_true _ _ e))
    | inr e ↦ inr (inr (if_false _ _ e))
  ]

  line_effects-of_table :
      (st : UpidState) → All (IfSent (IsFromTable include)) (line_effects st o obs)
  unfolding line_effects start_effects end_effects
  line_effects-of_table st =
      All-append (IfSent (IsFromTable include)) _ _
        (All-if (IfSent (IsFromTable include)) (emits_start st) _ (
          record { of_table = of_table; included = included; phase_known = inl refl },
          All-if (IfSent (IsFromTable include)) _ (watch o.upid ∷ []) (tt, tt),
        ))
        (All-if (IfSent (IsFromTable include)) (emits_end st o.status) _ (
          record {
            of_table = of_table;
            included = included;
            phase_known = end_phase-known o.status;
          },
          tt,
        ))

module _ (include : Kind → Bool) (obs : Time) where
  scan_line-of_table :
      (line : Bytes) (c : Scan)
      → All (IfSent (IsFromTable include)) c.effects
      → All (IfSent (IsFromTable include)) (scan_line include obs line c).effects
  unfolding scan_line absorb
  scan_line-of_table line c h = elim (Option-cases (observe include line)) [
    | inl e ↦ rw (e, scan_line) h
    | inr (o, e) ↦
        let (of_table, included) = observe-OfTable include o line e in
        rw (e, scan_line)
          (All-append (IfSent (IsFromTable include)) c.effects _ h (
            line_effects-of_table include obs o of_table included
              (GoMap.get_or (c.known o.upid.raw) zero_state)))
  ]

  scan_all-of_table :
      (lines : List Bytes) (c : Scan)
      → All (IfSent (IsFromTable include)) c.effects
      → All (IfSent (IsFromTable include)) (scan_all include obs lines c).effects
  unfolding scan_all
  scan_all-of_table [] c h = h
  scan_all-of_table (line ∷ lines) c h = scan_all-of_table lines _ (scan_line-of_table line c h)

-- Whatever the task log holds, each event that reading it sends is of an included kind, with the
-- kind and the action that the table gives the type of its task, and one of the three phases of a
-- scan.
pub parse_all-IsFromTable :
    (w : Watcher) (obs : Time) (r : FileRead)
    → All (IfSent (IsFromTable w.include)) (parse_all w obs r).effects
unfolding parse_all
parse_all-IsFromTable w obs r =
    scan_all-of_table w.include obs ((scan_lines max_line r).0) (begin w.known) tt
