-- ===== src/Tasks/Watcher/Protocol/Lines.antt =====
-- What one line of the task log sends follows the protocol.
use proxmox_eventbus.Prelude.{
  ◌≡◌, ◌≢◌, ◌⊎◌, inl, inr, refl, ◌∙◌, List, [], ◌∷◌, ◌++◌, some, Bytes, bytes_eq, bytes_beq,
  bytes_beq_iff, bytes_beq_refl, if◌then◌else◌, Option-cases, arith,
}
use proxmox_eventbus.Events.{Time, Phase, phase_started, phase_finished, phase_failed}
use proxmox_eventbus.Tasks.Watcher.{
  UpidState, Effect, send, watch, Observation, emits_start, emits_end, next_state, start_effects,
  end_effects, end_phase, line_effects,
}
use proxmox_eventbus.Tasks.Watcher.Protocol.{
  Stage, fresh, running, ended, follow_one, follow, phases_of, stage, Orderly,
}

pub phases_of-append :
    (k : Bytes) (es fs : List Effect) → phases_of k (es ++ fs) ≡ phases_of k es ++ phases_of k fs
unfolding phases_of
phases_of-append k [] fs = refl
phases_of-append k (send e ∷ es) fs = ground (arith, phases_of-append k es fs)
phases_of-append k (watch u ∷ es) fs = phases_of-append k es fs

pub follow-append :
    (s : Stage) (ps qs : List Phase) {t : Stage}
    → follow s ps ≡ some t
    → follow s (ps ++ qs) ≡ follow t qs
unfolding follow
follow-append s [] qs e = ground arith
follow-append s (p ∷ ps) qs e = elim (Option-cases (follow_one s p)) [
  | inl h ↦ absurd (ground arith)
  | inr (u, h) ↦ rw (h, follow) (follow-append u ps qs (rw (h, follow) at e))
]

module _ (k : Bytes) (o : Observation) (obs : Time) where
  other_start : k ≢ o.upid.raw → phases_of k (start_effects o obs) ≡ []
  unfolding phases_of start_effects
  other_start h = ground (arith, bytes_beq_iff k o.upid.raw)

  other_end : k ≢ o.upid.raw → phases_of k (end_effects o obs) ≡ []
  unfolding phases_of end_effects
  other_end h = ground (arith, bytes_beq_iff k o.upid.raw)

  -- A line of another UPID sends nothing of this one.
  pub other_line : (st : UpidState) → k ≢ o.upid.raw → phases_of k (line_effects st o obs) ≡ []
  unfolding phases_of line_effects
  other_line st h = ground (arith, bytes_beq_iff k o.upid.raw)

-- What a line sends of its own UPID.
own_line :
    (o : Observation) (obs : Time) (st : UpidState)
    → phases_of o.upid.raw (line_effects st o obs)
      ≡ (if emits_start st then phase_started ∷ [] else [])
        ++ (if emits_end st o.status then end_phase o.status ∷ [] else [])
unfolding phases_of line_effects
own_line o obs st = ground (arith, bytes_beq_refl o.upid.raw)

end_phase-cases :
    (status : Bytes) → (end_phase status ≡ phase_finished) ⊎ (end_phase status ≡ phase_failed)
unfolding end_phase
end_phase-cases status = ground arith

follow_start : follow fresh (phase_started ∷ []) ≡ some running
unfolding follow bytes_beq
follow_start = refl

follow_end : (status : Bytes) → follow running (end_phase status ∷ []) ≡ some ended
unfolding follow
follow_end status = elim (end_phase-cases status) [
  | inl e ↦ rw e (unfold bytes_beq in refl)
  | inr e ↦ rw e (unfold bytes_beq in refl)
]

follow_both : (status : Bytes) → follow fresh (phase_started ∷ end_phase status ∷ []) ≡ some ended
follow_both status =
    follow-append fresh (phase_started ∷ []) (end_phase status ∷ []) follow_start
    ∙ follow_end status

pub follow_nil : (s : Stage) → follow s [] ≡ some s
unfolding follow
follow_nil s = refl

-- What a line sends of its UPID takes the task from the stage on record to the one that is stored.
pub line_follows :
    (o : Observation) (obs : Time) (st : UpidState)
    → Orderly (some st)
    → follow (stage (some st)) (phases_of o.upid.raw (line_effects st o obs))
      ≡ some (stage (some (next_state st o.status)))
unfolding stage next_state
line_follows o obs st h = rw own_line (
    ground (
      arith,
      follow_start,
      follow_end o.status,
      follow_both o.status,
      follow_nil fresh,
      follow_nil running,
      follow_nil ended,
    ))
