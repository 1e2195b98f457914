-- ===== src/Tail.antt =====
-- cmd/proxmox-eventbus/tail.go: the lines that `tail` prints.
--
-- A message is its subject and its text. The JSON decoder, the local time of day of a message, the
-- `%q` of a text and `json.Compact` are the record `Decoders`.
pub mod Lines
pub mod Setup
pub mod Reading
use proxmox_eventbus.Prelude.{
  Bool, true, false, not, ◌&&◌, List, [], ◌∷◌, ◌++◌, Option, none, some, Bytes, codes, ◌==◌,
  bytes_eq, if◌then◌else◌, ℤ, is_zero,
}
use proxmox_eventbus.Strings.Affix.{has_suffix}
use proxmox_eventbus.Strings.Split.{join}
use proxmox_eventbus.Strconv.Decimal.{format_int}

pub record Message : Type 0 where
  pub subject : Bytes
  pub text : Bytes

-- The envelope: `clock` is the time of day of its `time`, and `raw` the JSON of its `data`.
pub record Envelope : Type 0 where
  pub type : Bytes
  pub clock : Bytes
  pub raw : Bytes

pub record Detail : Type 0 where
  pub action : Bytes
  pub phase : Bytes
  pub state : Bytes
  pub state_detail : Bytes
  pub vmid : ℤ
  pub name : Bytes
  pub tags : List Bytes
  pub source_node : Bytes
  pub target_node : Bytes
  pub duration_ms : Option ℤ
  pub exit_status : Bytes
  pub snapshot_count : ℤ

-- `detail` keeps what was decoded before an error, as the program ignores the error.
pub record Decoders : Type 0 where
  pub envelope : Bytes → Option Envelope
  pub detail : Bytes → Detail
  pub quote : Bytes → Bytes
  pub compact : Bytes → Option Bytes

-- the tags behind a line, if there are any
unfoldable pub tag_part : List Bytes → Bytes
unfolding join
tag_part [] = []
tag_part (t ∷ ts) = codes "  tags=" ++ join (t ∷ ts) (codes ",")

-- text that is printed unless the text it is about is empty
unfoldable pub unless_empty : Bytes → Bytes → Bytes
unless_empty s printed = if s == [] then [] else printed

-- the three cases of the `switch` of `printSummary`
unfoldable pub batch_part : Detail → Bytes
batch_part d = codes "  batch=" ++ format_int d.snapshot_count

unfoldable pub name_part : Detail → Bytes
unfolding unless_empty
name_part d = unless_empty d.name (codes "(" ++ (d.name ++ codes ")"))

unfoldable pub state_part : Detail → Bytes
unfolding name_part tag_part unless_empty
state_part d =
    codes "  vm="
    ++ (format_int d.vmid
        ++ (name_part d
            ++ (unless_empty d.state (codes "  state=" ++ d.state)
                ++ (unless_empty d.state_detail (codes " (" ++ (d.state_detail ++ codes ")"))
                    ++ tag_part d.tags))))

unfoldable pub nodes_part : Detail → Bytes
unfolding unless_empty
nodes_part d =
    if not (d.source_node == []) && not (d.source_node == d.target_node)
    then codes "  " ++ (d.source_node ++ (codes "->" ++ d.target_node))
    else unless_empty d.target_node (codes "  ->" ++ d.target_node)

unfoldable pub took_part : Option ℤ → Bytes
took_part none = []
took_part (some ms) = codes "  took=" ++ (format_int ms ++ codes "ms")

unfoldable pub exit_part : (Bytes → Bytes) → Bytes → Bytes
exit_part quote status =
    if not (status == []) && not (status == codes "OK") then codes "  exit=" ++ quote status else []

unfoldable pub lifecycle_part : (Bytes → Bytes) → Detail → Bytes
unfolding name_part unless_empty nodes_part took_part exit_part tag_part
lifecycle_part quote d =
    (if is_zero d.vmid then [] else codes "  vm=" ++ (format_int d.vmid ++ name_part d))
    ++ (unless_empty d.action (codes "  " ++ (d.action ++ (codes "/" ++ d.phase)))
        ++ (nodes_part d
            ++ (took_part d.duration_ms ++ (exit_part quote d.exit_status ++ tag_part d.tags))))

unfoldable pub detail_part : (Bytes → Bytes) → Bytes → Detail → Bytes
unfolding batch_part state_part lifecycle_part has_suffix
detail_part quote type d =
    if has_suffix type (codes ".snapshot.complete")
    then batch_part d
    else if d.action == codes "state" && d.phase == codes "snapshot"
    then state_part d
    else lifecycle_part quote d

unfoldable pub compact_part : Option Bytes → Bytes
compact_part none = []
compact_part (some text) = codes "  data=" ++ text

unfoldable pub data_part : (Bytes → Option Bytes) → Bool → Bytes → Bytes
unfolding compact_part
data_part compact with_data raw =
    if with_data && not (raw == []) then compact_part (compact raw) else []

unfoldable pub summary_of : Decoders → Bytes → Bool → Message → Option Envelope → Bytes
unfolding detail_part data_part
summary_of x now with_data m none =
    now ++ (codes "  " ++ (m.subject ++ (codes "  (unparsed) " ++ (m.text ++ codes "\n"))))
summary_of x now with_data m (some ev) =
    ev.clock
    ++ (codes "  "
        ++ (m.subject
            ++ (detail_part x.quote ev.type (x.detail ev.raw)
                ++ (data_part x.compact with_data ev.raw ++ codes "\n"))))

-- `printSummary`: what is written, where the time of day is `now`
unfoldable pub print_summary : Decoders → Bytes → Bool → Message → Bytes
unfolding summary_of
print_summary x now with_data m = summary_of x now with_data m (x.envelope m.text)

-- The handler that `makeHandler` returns.
unfoldable pub handler : Decoders → Bool → Bool → Bytes → Message → Bytes
unfolding print_summary
handler x true with_data now m = m.text ++ codes "\n"
handler x false with_data now m = print_summary x now with_data m
