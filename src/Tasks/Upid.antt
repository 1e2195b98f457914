-- ===== src/Tasks/Upid.antt =====
-- internal/tasks/upid.go: `UPID`, `ParseUPID`, `VMID`, `ParseActiveLine`.
pub mod Format
pub mod Values
pub mod Lines
use proxmox_eventbus.Prelude.{
  ℕ, ◌^◌, ◌≡◌, refl, Bool, true, false, ◌||◌, List, [], ◌∷◌, Option, none, some, Bytes, codes, ◌==◌,
  nat_eq, bytes_eq, ltb, if◌then◌else◌, drop, length, ℤ, pos, negsuc,
}
use proxmox_eventbus.Prelude.Result.{Result, ok, err, or_fail, ◌>>=◌}
use proxmox_eventbus.Strings.Affix.{has_prefix, trim_suffix, trim_right}
use proxmox_eventbus.Strings.Split.{split, cut}
use proxmox_eventbus.Strconv.{parse_int, parse_uint, atoi}
use proxmox_eventbus.Tasks.Status.{parse_status_tail}

pub record Upid : Type 0 where
  pub node : Bytes
  pub pid : ℤ
  pub pstart : ℕ
  pub start_time : ℤ
  pub type : Bytes
  pub id : Bytes
  pub user : Bytes
  pub raw : Bytes

-- The errors of `ParseUPID` and `ParseActiveLine`.
pub data UpidError : Type 0 where
  missing_prefix too_few_fields bad_pid bad_pstart bad_starttime empty_line : UpidError

-- the fields, with the test on their number as the pattern
upid_fields : Bytes → List Bytes → Result UpidError Upid
upid_fields s (node ∷ pid ∷ pstart ∷ start ∷ type ∷ id ∷ user ∷ _) = do
  p ← or_fail (parse_int pid 16 32) bad_pid
  ps ← or_fail (parse_uint pstart 16 64) bad_pstart
  st ← or_fail (parse_int start 16 64) bad_starttime
  ok (record {
    node = node;
    pid = p;
    pstart = ps;
    start_time = st;
    type = type;
    id = id;
    user = user;
    raw = s;
  })
upid_fields s _ = err too_few_fields

-- `ParseUPID`
unfoldable pub parse_upid : Bytes → Result UpidError Upid
unfolding upid_fields
parse_upid s =
    if has_prefix s (codes "UPID:")
    then upid_fields s (split (trim_suffix (drop (length (codes "UPID:")) s) (codes ":")) b':')
    else err missing_prefix

-- `UPID.VMID`
unfoldable pub vmid : Upid → ℤ
vmid u = if u.id == [] then negsuc 0 else elim (atoi u.id) [ none ↦ negsuc 0 | some id ↦ id ]

-- the cutset of `strings.TrimRight(line, "\r\n")`
abbrev pub line_end : ℕ → Bool
line_end c = c == 13 || c == 10

-- what follows the test for an empty line
active_parts : Bytes × Bytes × Bool → Result UpidError (Upid × Bytes)
active_parts (upid_str, rest, _) = do upid ← parse_upid upid_str; ok (upid, parse_status_tail rest)

-- `ParseActiveLine`
unfoldable pub parse_active_line : Bytes → Result UpidError (Upid × Bytes)
unfolding active_parts
parse_active_line line =
    let trimmed = trim_right line_end line in
    if trimmed == [] then err empty_line else active_parts (cut trimmed b' ')
