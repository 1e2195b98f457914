-- ===== src/Tasks/Synced/Late.antt =====
-- A round of `watchMigrationSynced` between whose lock sections a scan runs.
use proxmox_eventbus.Prelude.{
  ◌≡◌, refl, ap, ◌∙◌, Bool, true, false, not, List, [], ◌∷◌, Option, none, some, Bytes, bytes_eq,
  ◌==◌, if_true, if_false, arith,
}
use proxmox_eventbus.Prelude.GoMap
use proxmox_eventbus.Prelude.GoMap.{set_self}
use proxmox_eventbus.Tasks.Watcher.{
  UpidState, zero_state, Known, Observation, emits_end, next_state, collect_garbage,
}
use proxmox_eventbus.Tasks.Synced.{
  goes_on, log_synced, mark_synced, already_synced, Round, sync_round, Section, section_known,
}

module _ (known : Known) (o : Observation) (st : UpidState)
    (at_key : known o.upid.raw ≡ some st) where
  line_stores : section_known (Section.line o) known o.upid.raw ≡ some (next_state st o.status)
  unfolding section_known
  line_stores =
      set_self known o.upid.raw _
      ∙ ap (λ v. some (next_state (GoMap.get_or v zero_state) o.status)) at_key

  -- Let the record of a migration say that it has not finished and no `synced` has been sent, let
  -- the log hold the marker, and let a scan read the line with the end of the task. A round that
  -- looked at the record in front of the line goes on to mark the UPID; the line sends the end; and
  -- the mark that comes behind the line finds no `synced`, so that one is sent behind the end. A
  -- round that looks behind the line returns, whatever the log holds.
  pub synced_behind_end :
      (log later : Option Bytes)
      → st.finished_emitted ≡ false
      → st.synced_emitted ≡ false
      → (o.status == [] ≡ false)
      → log_synced log ≡ true
      → (sync_round (known o.upid.raw) log ≡ Round.mark_now)
        × (emits_end st o.status ≡ true)
        × (already_synced o.upid.raw (section_known (Section.line o) known) ≡ false)
        × (sync_round (section_known (Section.line o) known o.upid.raw) later ≡ Round.return_now)
  unfolding sync_round goes_on emits_end already_synced next_state
  synced_behind_end log later unfinished unsynced status marker =
      let ends : emits_end st o.status ≡ true = ground arith in
      let finished : (next_state st o.status).finished_emitted ≡ true = if_true _ _ ends in
      (
        ap (λ v. sync_round v log) at_key
            ∙ if_false _ _ (ap (λ f. not (not f)) unfinished)
            ∙ if_true _ _ marker,
        ends,
        ap (λ v. (GoMap.get_or v zero_state).synced_emitted) line_stores ∙ unsynced,
        ap (λ v. sync_round v later) line_stores ∙ if_true _ _ (ap (λ f. not (not f)) finished),
      )

-- Collections of later scans, each with what the scan has seen.
unfoldable pub collections : Known → List (Bytes → Bool) → Known
collections known [] = known
collections known (seen ∷ seens) = collections (collect_garbage seen known) seens

-- What a mark stores of a UPID that is not in the map.
abbrev pub only_synced : UpidState
only_synced = record { started_emitted = false; finished_emitted = false; synced_emitted = true }

unfinished_kept :
    (raw : Bytes) (st : UpidState) (known : Known) (seen : Bytes → Bool)
    → st.finished_emitted ≡ false
    → known raw ≡ some st
    → collect_garbage seen known raw ≡ some st
unfolding collect_garbage
unfinished_kept raw st known seen h e = rw (e, collect_garbage) (ground arith)

unfinished_stays :
    (raw : Bytes) (st : UpidState) (known : Known) (seens : List (Bytes → Bool))
    → st.finished_emitted ≡ false
    → known raw ≡ some st
    → collections known seens raw ≡ some st
unfolding collections
unfinished_stays raw st known [] h e = e
unfinished_stays raw st known (seen ∷ seens) h e =
    unfinished_stays raw st (collect_garbage seen known) seens h
      (unfinished_kept raw st known seen h e)

collected_if :
    (raw : Bytes) (known : Known) (st : UpidState) (seen : Bytes → Bool)
    → known raw ≡ some st
    → st.finished_emitted ≡ true
    → seen raw ≡ false
    → collect_garbage seen known raw ≡ none
unfolding collect_garbage
collected_if raw known st seen e finished gone = rw (e, collect_garbage) (ground arith)

-- Let a scan collect a migration that has ended and is gone from the task log, while a round is
-- about to mark it. The mark then stores a record with nothing but `synced`, and no collection of a
-- later scan ever removes it.
pub mark_behind_collection :
    (raw : Bytes) (known : Known) (st : UpidState) (seen : Bytes → Bool)
    (seens : List (Bytes → Bool))
    → known raw ≡ some st
    → st.finished_emitted ≡ true
    → seen raw ≡ false
    → (collect_garbage seen known raw ≡ none)
      × (collections (mark_synced raw (collect_garbage seen known)) seens raw ≡ some only_synced)
unfolding mark_synced
mark_behind_collection raw known st seen seens e finished gone =
    let collected : collect_garbage seen known raw ≡ none =
      collected_if raw known st seen e finished gone in
    (
      collected,
      unfinished_stays raw only_synced (mark_synced raw (collect_garbage seen known)) seens refl (
          set_self (collect_garbage seen known) raw _
          ∙ ap (λ v. some (record (GoMap.get_or v zero_state) { synced_emitted = true }))
              collected),
    )
