-- ===== src/Enrich/Target.antt =====
-- internal/enrich/enrich.go: `parseMigrateTarget` and what it calls, which read the target node of
-- a migration off the arguments of the process.
--
-- `looksLikeNode` ranges over runes; a rune that passes is ASCII, so the bytes are tested here.
pub mod Nodes
pub mod Command
use proxmox_eventbus.Prelude.{
  ℕ, Bool, true, false, not, ◌&&◌, ◌||◌, List, [], ◌∷◌, Option, none, some, Bytes, codes, ◌==◌,
  nat_eq, bytes_eq, leb, if◌then◌else◌, every, bytes_beq,
}
use proxmox_eventbus.Strings.Affix.{has_prefix, contains, trim_left}
use proxmox_eventbus.Strings.Split.{split, cut}
use proxmox_eventbus.Strings.Space.{trim_space}
use proxmox_eventbus.Strings.Case.{to_lower, equal_fold}
use proxmox_eventbus.Strconv.{atoi}

-- `if target := a; target != "" { return target }` in front of `b`
unfoldable pub first_of : Bytes → Bytes → Bytes
unfolding bytes_beq
first_of a b = if a == [] then b else a

unfoldable pub node_byte : ℕ → Bool
node_byte c =
    leb b'a' c && leb c b'z'
    || leb b'A' c && leb c b'Z'
    || leb b'0' c && leb c b'9'
    || c == b'-'
    || c == b'_'
    || c == b'.'

-- `_, err := strconv.Atoi(s); err == nil`
unfoldable pub is_number : Bytes → Bool
is_number s = elim (atoi s) [ none ↦ false | some _ ↦ true ]

-- `looksLikeNode`
unfoldable pub looks_like_node : Bytes → Bool
unfolding is_number node_byte bytes_beq
looks_like_node s =
    not (s == [] || has_prefix s (codes "-")) && not (is_number s) && every node_byte s

-- the tests of `splitKV` behind the cut
unfoldable pub kv_parts : Bytes × Bytes × Bool → Option (Bytes × Bytes)
kv_parts (key, val, false) = none
kv_parts (key, val, true) =
    let k = trim_left (λ c. c == b'-') (trim_space key) in
    let v = trim_space val in if k == [] || v == [] then none else some (k, v)

-- `splitKV`
unfoldable pub split_kv : Bytes → Option (Bytes × Bytes)
unfolding kv_parts
split_kv s = kv_parts (cut s b'=')

-- The text is one of the list.
unfoldable pub one_of : List Bytes → Bytes → Bool
one_of [] s = false
one_of (k ∷ ks) s = s == k || one_of ks s

abbrev pub option_keys : List Bytes
option_keys =
    codes "target" ∷ codes "targetnode" ∷ codes "target_node" ∷ codes "node" ∷ codes "to" ∷ []

abbrev pub option_flags : List Bytes
option_flags =
    codes "--target"
    ∷ codes "-target"
    ∷ codes "--target-node"
    ∷ codes "--targetnode"
    ∷ codes "--to"
    ∷ []

-- `looksLikeNode(v)` guarding `return v`
unfoldable pub guarded : Bytes → Bytes
guarded v = if looks_like_node v then v else []

-- what an argument `key=value` returns in `parseTargetOption`
unfoldable pub kv_option : Option (Bytes × Bytes) → Bytes
unfolding guarded one_of
kv_option none = []
kv_option (some (k, v)) = if one_of option_keys (to_lower k) then guarded v else []

-- the argument behind an option
unfoldable pub flag_option : Bytes → List Bytes → Bytes
unfolding guarded one_of
flag_option norm [] = []
flag_option norm (next ∷ _) = if one_of option_flags norm then guarded next else []

-- `parseTargetOption`
unfoldable pub parse_target_option : List Bytes → Bytes
unfolding first_of kv_option flag_option
parse_target_option [] = []
parse_target_option (a ∷ rest) =
    let later = parse_target_option rest in
    let arg = trim_space a in
    if arg == []
    then later
    else first_of (kv_option (split_kv arg)) (first_of (flag_option (to_lower arg) rest) later)

abbrev pub after_keys : List Bytes
after_keys = codes "target" ∷ codes "targetnode" ∷ codes "target_node" ∷ codes "node" ∷ []

-- what a round of `parseTargetAfterMigrate` does with `key=value`: what it returns, and `seenVMID`
unfoldable pub inspect_kv : Bool → Bytes → Bytes → Bytes × Bool
unfolding guarded one_of
inspect_kv seen k v =
    if one_of after_keys k
    then (guarded v, seen)
    else if one_of (codes "vmid" ∷ codes "id" ∷ []) k
    then ([], is_number v || seen)
    else ([], seen)

-- what it does with an argument that is no option
unfoldable pub inspect_arg : Bool → Bytes → Option (Bytes × Bytes) → Bytes × Bool
unfolding inspect_kv
inspect_arg seen arg (some (k, v)) = inspect_kv seen (to_lower k) v
inspect_arg seen arg none = if not seen then ([], is_number arg || seen) else (guarded arg, seen)

-- one round of the loop of `parseTargetAfterMigrate`
unfoldable pub inspect : Bool → Bytes → Bytes × Bool
unfolding inspect_arg
inspect seen arg =
    if arg == [] || has_prefix arg (codes "-")
    then ([], seen)
    else inspect_arg seen arg (split_kv arg)

unfoldable pub after_loop : Bool → List Bytes → Bytes
unfolding inspect
after_loop seen [] = []
after_loop seen (arg ∷ rest) =
    let (target, seen_now) = inspect seen arg in first_of target (after_loop seen_now rest)

-- `parseTargetAfterMigrate`
unfoldable pub parse_target_after_migrate : List Bytes → Bytes
unfolding after_loop
parse_target_after_migrate args = first_of (parse_target_option args) (after_loop false args)

-- `lastPathElement`
unfoldable pub last_path_element : Bytes → Bytes
last_path_element [] = []
last_path_element (c ∷ s) =
    if contains s (b'/' ∷ []) then last_path_element s else if c == b'/' then s else c ∷ s

-- the arguments behind `migrate`, for `qm` and `pct`
unfoldable pub subcommand : List Bytes → Bytes
subcommand [] = []
subcommand (a ∷ rest) =
    if equal_fold a (codes "migrate") then parse_target_after_migrate rest else []

abbrev pub tools : List Bytes
tools = codes "qm" ∷ codes "pct" ∷ []

abbrev pub workers : List Bytes
workers = codes "qmigrate" ∷ codes "vzmigrate" ∷ []

-- one round of the first loop of `parseMigrateTarget`
unfoldable pub command_target : Bytes → List Bytes → Bytes
unfolding one_of subcommand
command_target base rest =
    if one_of tools base
    then subcommand rest
    else if one_of workers base
    then parse_target_after_migrate rest
    else []

unfoldable pub command_loop : List Bytes → Bytes
unfolding command_target
command_loop [] = []
command_loop (a ∷ rest) =
    first_of (command_target (to_lower (last_path_element a)) rest) (command_loop rest)

-- the second loop of `parseMigrateTarget`
unfoldable pub word_loop : List Bytes → Bytes
word_loop [] = []
word_loop (a ∷ rest) =
    first_of (if equal_fold a (codes "migrate") then parse_target_after_migrate rest else [])
      (word_loop rest)

-- `parseMigrateTarget`; without arguments each of the three gives the empty text
unfoldable pub parse_migrate_target : List Bytes → Bytes
unfolding command_loop word_loop
parse_migrate_target args =
    first_of (parse_target_option args) (first_of (command_loop args) (word_loop args))

-- the parts that are not empty
nonempty_parts : List Bytes → List Bytes
nonempty_parts [] = []
nonempty_parts (p ∷ ps) = if p == [] then nonempty_parts ps else p ∷ nonempty_parts ps

-- `splitCmdline`
unfoldable pub split_cmdline : Bytes → List Bytes
unfolding nonempty_parts
split_cmdline b = nonempty_parts (split b 0)
