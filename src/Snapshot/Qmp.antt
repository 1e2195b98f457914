-- ===== src/Snapshot/Qmp.antt =====
-- internal/snapshot/qmp.go: `queryQMPStatus`.
--
-- The socket is what it answers: whether it is connected to, whether each write succeeds, and the
-- lines that arrive before the deadline or the end. A line is given decoded: its member `return`,
-- if that is an object, and the member `status` of that, if it is a text.
pub mod ThirdLine
use proxmox_eventbus.Prelude.{
  ℕ, ◌≡◌, refl, Bool, true, false, List, [], ◌∷◌, Option, none, some, Bytes, bytes_beq,
  if◌then◌else◌, ℤ, not, arith,
}
use proxmox_eventbus.Prelude.Result.{Result, ok, err, or_fail, ◌>>=◌}

-- A decoded line.
pub record Reply : Type 0 where
  pub returned : Option (Option Bytes)

pub record Socket : Type 0 where
  pub dials : Bool
  pub accepts_capabilities : Bool
  pub accepts_query : Bool
  pub lines : List Bytes

pub data QmpError : Type 0 where
  not_dialled no_greeting not_written no_ack no_answer no_return : QmpError

-- The text of `ret["status"].(string)`, which is empty where there is none.
unfoldable pub status_of : Reply → Result QmpError Bytes
status_of r = elim r.returned [
  | none ↦ err QmpError.no_return
  | some none ↦ ok []
  | some (some status) ↦ ok status
]

unfoldable pub written : Bool → Result QmpError (Unit {0})
written true = ok tt
written false = err QmpError.not_written

unfoldable pub dialled : Bool → Result QmpError (Unit {0})
dialled true = ok tt
dialled false = err QmpError.not_dialled

module _ (decode : Bytes → Option Reply) where
  -- `readJSON`: the next line, and those behind it
  unfoldable pub read_json : List Bytes → Option (Reply × List Bytes)
  read_json [] = none
  read_json (line ∷ lines) = elim (decode line) [ none ↦ none | some r ↦ some (r, lines) ]

  -- `queryQMPStatus`
  unfoldable pub query_qmp_status : Socket → Result QmpError Bytes
  unfolding read_json status_of written dialled
  query_qmp_status s = do
    connected ← dialled s.dials
    greeting ← or_fail (read_json s.lines) QmpError.no_greeting
    asked ← written s.accepts_capabilities
    ack ← or_fail (read_json greeting.1) QmpError.no_ack
    queried ← written s.accepts_query
    answer ← or_fail (read_json ack.1) QmpError.no_answer
    status_of answer.0

  -- the status, none on an error
  unfoldable pub asked_status : Socket → Option Bytes
  unfolding query_qmp_status
  asked_status s = elim (query_qmp_status s) [ ok status ↦ some status | err e ↦ none ]
