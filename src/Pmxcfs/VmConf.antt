-- ===== src/Pmxcfs/VmConf.antt =====
-- internal/pmxcfs/vmconf.go: `ReadVMConfig`, `VMList` and what they call.
--
-- The files below the reader's root are a function from the path below the root to what reading
-- gives, none where opening fails; a directory's listing is the names of its entries.
pub mod Laws
use proxmox_eventbus.Prelude.{
  ◌*◌, Bool, true, false, not, ◌&&◌, ◌||◌, List, [], ◌∷◌, ◌++◌, Option, none, some, Bytes, codes,
  ◌==◌, nat_eq, bytes_eq, bytes_beq, if◌then◌else◌, ℕ, ℤ,
}
use proxmox_eventbus.Prelude.GoMap
use proxmox_eventbus.Prelude.GoMap.{GoMap}
use proxmox_eventbus.Prelude.Result.{Result, ok, err, ◌>>=◌}
use proxmox_eventbus.Strings.Affix.{has_prefix, has_suffix, trim_suffix, trim_right}
use proxmox_eventbus.Strings.Split.{cut, fields_func}
use proxmox_eventbus.Strings.Space.{trim_space}
use proxmox_eventbus.Strconv.{atoi}
use proxmox_eventbus.Strconv.Decimal.{format_int}
use proxmox_eventbus.Bufio.{FileRead, scan_lines}
use proxmox_eventbus.Events.{Kind, kind_qemu, kind_lxc}

-- `VMConfig`
pub record VmConfig : Type 0 where
  pub kind : Kind
  pub vmid : ℤ
  pub name : Bytes
  pub tags : List Bytes
  pub description : Bytes
  pub hook_script : Bytes
  pub net : GoMap Bytes
  pub raw : GoMap Bytes

pub data ConfigError : Type 0 where
  unknown_kind not_opened not_read : ConfigError

abbrev pub tag_separator : ℕ → Bool
tag_separator c = c == b';' || c == b',' || c == b' '

-- The loop of `splitTags` drops parts that are empty, which `FieldsFunc` never gives.
unfoldable pub nonempty : List Bytes → List Bytes
nonempty [] = []
nonempty (p ∷ ps) = if p == [] then nonempty ps else p ∷ nonempty ps

-- `splitTags`
unfoldable pub split_tags : Bytes → List Bytes
unfolding nonempty
split_tags v =
    let t = trim_space v in if t == [] then [] else nonempty (fields_func tag_separator t)

-- `unescapeDescription`: a backslash and `n` become a newline.
unfoldable pub unescape_description : Bytes → Bytes
unescape_description [] = []
unescape_description (c ∷ []) = c ∷ []
unescape_description (c ∷ d ∷ s) =
    let after_pair = unescape_description s in
    let after_one = unescape_description (d ∷ s) in
    if c == 92 && d == b'n' then 10 ∷ after_pair else c ∷ after_one

-- The `switch` on a key.
unfoldable pub set_field : Bytes → Bytes → VmConfig → VmConfig
unfolding split_tags unescape_description
set_field k v cfg =
    if k == codes "name" || k == codes "hostname"
    then record cfg { name = v }
    else if k == codes "tags"
    then record cfg { tags = split_tags v }
    else if k == codes "description"
    then record cfg { description = unescape_description v }
    else if k == codes "hookscript"
    then record cfg { hook_script = v }
    else if has_prefix k (codes "net")
    then record cfg { net = GoMap.set cfg.net k v }
    else cfg

unfoldable pub set_key : Bytes → Bytes → VmConfig → VmConfig
unfolding set_field
set_key k v cfg = set_field k v (record cfg { raw = GoMap.set cfg.raw k v })

-- a line that has been cut at its first colon
unfoldable pub apply_pair : Bytes × Bytes × Bool → VmConfig → VmConfig
unfolding set_key
apply_pair (k, v, found) cfg =
    if not found || k == [] then cfg else set_key (trim_space k) (trim_space v) cfg

-- The loop over the lines: the fields, and whether a section header ended it.
unfoldable pub config_lines : List Bytes → VmConfig → VmConfig × Bool
unfolding apply_pair
config_lines [] cfg = (cfg, false)
config_lines (l ∷ ls) cfg =
    let line = trim_right (λ c. c == 13 || c == 10) l in
    let skips = line == [] || has_prefix line (codes "#") in
    let next = if skips then cfg else apply_pair (cut line b':') cfg in
    if not skips && has_prefix line (codes "[") then (cfg, true) else config_lines ls next

abbrev pub new_config : Kind → ℤ → VmConfig
new_config kind vmid = record {
  kind = kind;
  vmid = vmid;
  name = [];
  tags = [];
  description = [];
  hook_script = [];
  net = GoMap.empty;
  raw = GoMap.empty;
}

-- The path below the root, for the two kinds that have one.
unfoldable pub config_path : Kind → ℤ → Result ConfigError Bytes
config_path kind vmid =
    if kind == kind_qemu
    then ok (codes "qemu-server/" ++ (format_int vmid ++ codes ".conf"))
    else if kind == kind_lxc
    then ok (codes "lxc/" ++ (format_int vmid ++ codes ".conf"))
    else err unknown_kind

-- What reading an open configuration returns. After a header `Err` is nil, since the scanner has
-- not gone on.
unfoldable pub parse_config : Kind → ℤ → FileRead → Result ConfigError VmConfig
unfolding config_lines
parse_config kind vmid r =
    let (lines, all_read) = scan_lines (64 * 1024) r in
    let (cfg, at_header) = config_lines lines (new_config kind vmid) in
    if at_header || all_read then ok cfg else err not_read

unfoldable pub open_config : Kind → ℤ → Option FileRead → Result ConfigError VmConfig
open_config kind vmid none = err not_opened
open_config kind vmid (some r) = parse_config kind vmid r

-- `ReadVMConfig`
unfoldable pub read_vm_config : (Bytes → Option FileRead) → Kind → ℤ → Result ConfigError VmConfig
unfolding config_path open_config parse_config
read_vm_config files kind vmid = do path ← config_path kind vmid; open_config kind vmid (files path)

-- the VMID of an entry of a directory
unfoldable pub entry_id : Bytes → Option ℤ
entry_id name =
    if has_suffix name (codes ".conf") then atoi (trim_suffix name (codes ".conf")) else none

unfoldable pub entry_ids : List Bytes → List ℤ
unfolding entry_id
entry_ids [] = []
entry_ids (name ∷ rest) = elim (entry_id name) [
  | none ↦ entry_ids rest
  | some id ↦ id ∷ entry_ids rest
]

-- What `os.ReadDir` gives: the names, no such directory, or another error.
pub data Listing : Type 0 where
  entries : List Bytes → Listing
  missing : Listing
  unreadable : Listing

-- `listConfigDir`
unfoldable pub list_config_dir : Listing → Option (List ℤ)
unfolding entry_ids
list_config_dir (entries ns) = some (entry_ids ns)
list_config_dir missing = some []
list_config_dir unreadable = none

-- `VMList`
unfoldable pub vm_list : Listing → Listing → Option (List ℤ × List ℤ)
unfolding list_config_dir
vm_list qemu lxc = elim (list_config_dir qemu) [
  | none ↦ none
  | some q ↦ elim (list_config_dir lxc) [ none ↦ none | some l ↦ some (q, l) ]
]
