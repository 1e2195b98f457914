-- ===== src/Snapshot/Qmp/ThirdLine.antt =====
-- The state of a virtual machine whose QMP socket is asked.
use proxmox_eventbus.Prelude.{
  ◌≡◌, refl, ap, ◌∙◌, true, List, [], ◌∷◌, Option, none, some, Bytes, bytes_beq, ℤ,
}
use proxmox_eventbus.Prelude.Result.{ok, err}
use proxmox_eventbus.Events.{State, state_running, state_unknown}
use proxmox_eventbus.Snapshot.State.{
  Prober, QemuWorld, exists, pid_of, read_pid, process_alive, map_qmp_status, qemu_state,
  stat_state, pid_state, qmp_state,
}
use proxmox_eventbus.Snapshot.Qmp.{
  Reply, Socket, status_of, written, dialled, read_json, query_qmp_status, asked_status,
}

-- The state that a line stands for that is read as the answer: one without a `return` is an error,
-- on which the machine counts as running.
unfoldable pub answered_state : Reply → State
answered_state r = elim r.returned [
  | none ↦ state_running
  | some none ↦ state_unknown
  | some (some status) ↦ map_qmp_status status
]

-- The virtual machine has a process, and its socket is connected to and takes both commands.
pub record IsAsked (p : Prober) (world : QemuWorld) (s : Socket) : Type 0 where
  pub pid : ℤ
  pub has_file : world.stat ≡ exists
  pub has_pid : read_pid world.pid_file ≡ pid_of pid
  pub is_alive : process_alive p world pid ≡ true
  pub uses_qmp : p.use_qmp ≡ true
  pub dials : s.dials ≡ true
  pub accepts_capabilities : s.accepts_capabilities ≡ true
  pub accepts_query : s.accepts_query ≡ true

module _ (decode : Bytes → Option Reply) where
  read_json-decoded :
      (line : Bytes) (lines : List Bytes) (r : Reply)
      → decode line ≡ some r
      → read_json decode (line ∷ lines) ≡ some (r, lines)
  unfolding read_json
  read_json-decoded line lines r h = rw (h, read_json)

  query-third :
      (s : Socket) (greeting ack answer : Bytes) (rest : List Bytes) (g a r : Reply)
      → s.dials ≡ true
      → s.accepts_capabilities ≡ true
      → s.accepts_query ≡ true
      → s.lines ≡ greeting ∷ ack ∷ answer ∷ rest
      → decode greeting ≡ some g
      → decode ack ≡ some a
      → decode answer ≡ some r
      → query_qmp_status decode s ≡ status_of r
  unfolding query_qmp_status dialled written
  query-third s greeting ack answer rest g a r d w w' l hg ha hr = simp (
    d,
    w,
    w',
    l,
    read_json-decoded greeting (ack ∷ answer ∷ rest) g hg,
    read_json-decoded ack (answer ∷ rest) a ha,
    read_json-decoded answer rest r hr,
  )

  state_of_answer :
      (r : Reply)
      → qmp_state (elim (status_of r) [ ok status ↦ some status | err e ↦ none ]) ≡ answered_state r
  unfolding qmp_state status_of answered_state map_qmp_status bytes_beq
  state_of_answer r =
      elim r.returned
        as (λ x.
          qmp_state
            (elim (status_of (record { returned = x })) [ ok status ↦ some status | err e ↦ none ])
          ≡ answered_state (record { returned = x })) [
            | none ↦ refl
            | some none ↦ refl
            | some (some status) ↦ refl
          ]

  -- Let a virtual machine have a live process, and let its QMP socket take both commands and send
  -- three lines that are JSON objects, and any more. Then its state is the one that the third line
  -- stands for, whatever the first two are: of an answer its status, `unknown` of a `return`
  -- without one, and `running` of anything else. So it is the state that QEMU answers only if
  -- nothing comes between.
  pub qemu_state-third :
      (p : Prober) (world : QemuWorld) (vmid : ℤ) (s : Socket) (greeting ack answer : Bytes)
      (rest : List Bytes) (g a r : Reply)
      → IsAsked p world s
      → world.qmp ≡ asked_status decode s
      → s.lines ≡ greeting ∷ ack ∷ answer ∷ rest
      → decode greeting ≡ some g
      → decode ack ≡ some a
      → decode answer ≡ some r
      → qemu_state p world vmid ≡ (answered_state r, [])
  unfolding qemu_state stat_state pid_state asked_status
  qemu_state-third p world vmid s greeting ack answer rest g a r h asked l hg ha hr =
      let third =
        query-third s greeting ack answer rest g a r h.dials h.accepts_capabilities h.accepts_query
          l hg ha hr in
      let state : qmp_state world.qmp ≡ answered_state r =
        ap qmp_state asked
        ∙ ap (λ q. qmp_state (elim q [ ok status ↦ some status | err e ↦ none ])) third
        ∙ state_of_answer r in
      rw (h.has_file) (rw (h.has_pid, pid_state) (rw (h.is_alive) (rw (h.uses_qmp) (rw state))))
