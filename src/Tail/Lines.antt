-- ===== src/Tail/Lines.antt =====
-- A summary is one line.
use proxmox_eventbus.Prelude.{
  ℕ, zero, suc, ◌/◌, ◌≡◌, ◌≢◌, refl, Bool, true, false, List, [], ◌∷◌, ◌++◌, append_assoc, Option,
  none, some, Bytes, codes, ◌==◌, bytes_eq, nat_eq, if◌then◌else◌, Bool-cases, inl, inr, ℤ, pos,
  negsuc, is_zero, arith, All, All-append, Lacks,
}
use proxmox_eventbus.Strings.Split.{glue, join}
use proxmox_eventbus.Strconv.Decimal.{digits, format_nat, format_int}
use proxmox_eventbus.Tail.{
  Message, Envelope, Detail, Decoders, tag_part, unless_empty, batch_part, name_part, state_part,
  nodes_part, took_part, exit_part, lifecycle_part, detail_part, compact_part, data_part,
  summary_of, print_summary,
}

-- The text has no newline.
pub record IsPlain (s : Bytes) : Type 0 where
  pub lacks_newline : Lacks 10 s

-- The text is one line, with the newline at its end.
abbrev pub IsLine : Bytes → Type 0
IsLine s = (body : Bytes) × IsPlain body × (s ≡ body ++ codes "\n")

-- The texts of an event that are printed as they are.
pub record HasPlainTexts (d : Detail) : Type 0 where
  pub action : IsPlain d.action
  pub phase : IsPlain d.phase
  pub state : IsPlain d.state
  pub state_detail : IsPlain d.state_detail
  pub name : IsPlain d.name
  pub tags : All IsPlain d.tags
  pub source_node : IsPlain d.source_node
  pub target_node : IsPlain d.target_node

plain_nil : IsPlain []
plain_nil = record { lacks_newline = tt }

-- A literal text is seen to have no newline.
literal : (s : Bytes) → Lacks 10 s → IsPlain s
literal s h = record { lacks_newline = h }

plain_append : {s t : Bytes} → IsPlain s → IsPlain t → IsPlain (s ++ t)
plain_append {s} {t} hs ht = record {
  lacks_newline = All-append _ s t hs.lacks_newline ht.lacks_newline;
}

plain_cons : (c : ℕ) {s : Bytes} → c ≢ 10 → IsPlain s → IsPlain (c ∷ s)
plain_cons c hc hs = record { lacks_newline = (hc, hs.lacks_newline) }

plain_if : (b : Bool) {s t : Bytes} → IsPlain s → IsPlain t → IsPlain (if b then s else t)
plain_if true hs ht = hs
plain_if false hs ht = ht

digits-IsPlain : (rounds n : ℕ) (s : Bytes) → IsPlain s → IsPlain (digits rounds n s)
unfolding digits
digits-IsPlain zero n s h = h
digits-IsPlain (suc rounds) n s h = elim (Bool-cases (n == 0)) [
  | inl e ↦ rw (e, digits) h
  | inr e ↦ rw (e, digits) (digits-IsPlain rounds (n / 10) _ (plain_cons _ (omega arith) h))
]

format_nat-IsPlain : (n : ℕ) → IsPlain (format_nat n)
unfolding format_nat
format_nat-IsPlain zero = literal _ (omega arith)
format_nat-IsPlain (suc n) = digits-IsPlain (suc n) (suc n) [] plain_nil

format_int-IsPlain : (z : ℤ) → IsPlain (format_int z)
unfolding format_int
format_int-IsPlain (pos n) = format_nat-IsPlain n
format_int-IsPlain (negsuc n) = plain_cons _ (omega arith) (format_nat-IsPlain (suc n))

glue-IsPlain : (ps : List Bytes) → All IsPlain ps → IsPlain (glue ps (codes ","))
unfolding glue
glue-IsPlain [] h = plain_nil
glue-IsPlain (p ∷ ps) (hp, h) = plain_cons _ (omega arith) (plain_append hp (glue-IsPlain ps h))

tag_part-IsPlain : (tags : List Bytes) → All IsPlain tags → IsPlain (tag_part tags)
unfolding tag_part join
tag_part-IsPlain [] h = plain_nil
tag_part-IsPlain (t ∷ ts) (ht, h) =
    plain_append (literal (codes "  tags=") (omega arith)) (plain_append ht (glue-IsPlain ts h))

unless_empty-IsPlain : (s printed : Bytes) → IsPlain printed → IsPlain (unless_empty s printed)
unfolding unless_empty
unless_empty-IsPlain s printed h = plain_if (s == []) plain_nil h

module _ (d : Detail) (h : HasPlainTexts d) where
  batch_part-IsPlain : IsPlain (batch_part d)
  unfolding batch_part
  batch_part-IsPlain =
      plain_append (literal (codes "  batch=") (omega arith)) (format_int-IsPlain d.snapshot_count)

  name_part-IsPlain : IsPlain (name_part d)
  unfolding name_part
  name_part-IsPlain = unless_empty-IsPlain d.name _ (
      plain_append (literal (codes "(") (omega arith))
        (plain_append h.name (literal (codes ")") (omega arith))))

  state_part-IsPlain : IsPlain (state_part d)
  unfolding state_part
  state_part-IsPlain = plain_append (literal (codes "  vm=") (omega arith)) (
      plain_append (format_int-IsPlain d.vmid) (
        plain_append name_part-IsPlain (
          plain_append
            (unless_empty-IsPlain d.state _
              (plain_append (literal (codes "  state=") (omega arith)) h.state))
            (plain_append
              (unless_empty-IsPlain d.state_detail _ (
                plain_append (literal (codes " (") (omega arith))
                  (plain_append h.state_detail (literal (codes ")") (omega arith)))))
              (tag_part-IsPlain d.tags h.tags)))))

  nodes_part-IsPlain : IsPlain (nodes_part d)
  unfolding nodes_part
  nodes_part-IsPlain =
      plain_if _
        (plain_append (literal (codes "  ") (omega arith)) (
          plain_append h.source_node
            (plain_append (literal (codes "->") (omega arith)) h.target_node)))
        (unless_empty-IsPlain d.target_node _
          (plain_append (literal (codes "  ->") (omega arith)) h.target_node))

  took_part-IsPlain : (ms : Option ℤ) → IsPlain (took_part ms)
  unfolding took_part
  took_part-IsPlain none = plain_nil
  took_part-IsPlain (some ms) =
      plain_append (literal (codes "  took=") (omega arith))
        (plain_append (format_int-IsPlain ms) (literal (codes "ms") (omega arith)))

  module _ (quote : Bytes → Bytes) (quoted : (s : Bytes) → IsPlain (quote s)) where
    exit_part-IsPlain : (status : Bytes) → IsPlain (exit_part quote status)
    unfolding exit_part
    exit_part-IsPlain status =
        plain_if _ (plain_append (literal (codes "  exit=") (omega arith)) (quoted status))
          plain_nil

    lifecycle_part-IsPlain : IsPlain (lifecycle_part quote d)
    unfolding lifecycle_part
    lifecycle_part-IsPlain =
        plain_append
          (plain_if (is_zero d.vmid) plain_nil (
            plain_append (literal (codes "  vm=") (omega arith))
              (plain_append (format_int-IsPlain d.vmid) name_part-IsPlain)))
          (plain_append
            (unless_empty-IsPlain d.action _ (
              plain_append (literal (codes "  ") (omega arith))
                (plain_append h.action (plain_append (literal (codes "/") (omega arith)) h.phase))))
            (plain_append nodes_part-IsPlain (
              plain_append (took_part-IsPlain d.duration_ms)
                (plain_append (exit_part-IsPlain d.exit_status) (tag_part-IsPlain d.tags h.tags)))))

    detail_part-IsPlain : (type : Bytes) → IsPlain (detail_part quote type d)
    unfolding detail_part
    detail_part-IsPlain type =
        plain_if _ batch_part-IsPlain (plain_if _ state_part-IsPlain lifecycle_part-IsPlain)

data_part-IsPlain :
    (compact : Bytes → Option Bytes) (with_data : Bool) (raw : Bytes)
    → ((s t : Bytes) → compact s ≡ some t → IsPlain t)
    → IsPlain (data_part compact with_data raw)
unfolding data_part compact_part
data_part-IsPlain compact with_data raw h = plain_if _ (one (compact raw) (h raw)) plain_nil
  where
    one : (o : Option Bytes) → ((t : Bytes) → o ≡ some t → IsPlain t) → IsPlain (compact_part o)
    one none h = plain_nil
    one (some t) h = plain_append (literal (codes "  data=") (omega arith)) (h t refl)

-- Let a message be decoded to an event whose texts have no newline, but for its exit status and the
-- JSON of its data, of which nothing is asked. Where `%q` and `json.Compact` write no newline, what
-- `printSummary` prints is one line, with the data or without it.
pub print_summary-IsLine :
    (x : Decoders) (now : Bytes) (with_data : Bool) (m : Message) (ev : Envelope)
    → ((s : Bytes) → IsPlain (x.quote s))
    → ((s t : Bytes) → x.compact s ≡ some t → IsPlain t)
    → x.envelope m.text ≡ some ev
    → IsPlain ev.clock
    → IsPlain m.subject
    → HasPlainTexts (x.detail ev.raw)
    → IsLine (print_summary x now with_data m)
unfolding print_summary summary_of
print_summary-IsLine x now with_data m ev quoted compacted decoded clock subject plain =
    let part = detail_part x.quote ev.type (x.detail ev.raw) in
    let more = data_part x.compact with_data ev.raw in
    (
      ev.clock ++ (codes "  " ++ (m.subject ++ (part ++ more))),
      plain_append clock (
          plain_append (literal (codes "  ") (omega arith)) (
            plain_append subject (
              plain_append (detail_part-IsPlain (x.detail ev.raw) plain x.quote quoted ev.type)
                (data_part-IsPlain x.compact with_data ev.raw compacted)))),
      rw (decoded, summary_of) (simp append_assoc),
    )
