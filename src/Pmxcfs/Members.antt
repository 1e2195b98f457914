-- ===== src/Pmxcfs/Members.antt =====
-- internal/pmxcfs/members.go: the cached reading of `.members`, and what is derived from it.
--
-- A reading of the file is given decoded, as `encoding/json` fills the struct: none if the file
-- cannot be read or does not parse. The map of the nodes is the list of its entries in the order
-- in which Go ranges over them, which the language leaves open; `lookup` does not depend on it
-- where the names are distinct. Times are readings of the monotonic clock in nanoseconds.
pub mod Recent
use proxmox_eventbus.Prelude.{
  ◌*◌, ◌-◌, ◌||◌, ◌⊎◌, inl, inr, ◌^◌, List, [], ◌∷◌, Option, none, some, Bytes, codes, ◌==◌,
  bytes_eq, if◌then◌else◌, ltb, ℤ, is_zero,
}
use proxmox_eventbus.Events.{Time}
use proxmox_eventbus.Filepath.{join_path}
use proxmox_eventbus.Strings.Space.{trim_space}

pub record ClusterInfo : Type 0 where
  pub name : Bytes
  pub nodes : ℤ
  pub quorate : ℤ
  pub version : ℤ

pub record Node : Type 0 where
  pub id : ℤ
  pub online : ℤ
  pub ip : Bytes

pub record Members : Type 0 where
  pub node_name : Bytes
  pub cluster : ClusterInfo
  pub node_list : List (Bytes × Node)

-- The fields of `Reader` that its methods change.
pub record Reader : Type 0 where
  pub members : Option Members
  pub loaded : Time

-- `MembersFile`
abbrev pub members_file : Bytes
members_file = codes ".members"

-- `New` and `Root`
unfoldable pub reader_root : Bytes → Bytes
reader_root root = if root == [] then codes "/etc/pve" else root

-- the file that `reloadMembers` reads
unfoldable pub members_path : Bytes → Bytes
unfolding reader_root join_path
members_path root = join_path (reader_root root) members_file

abbrev pub max_age : Time
max_age = 2 * 10 ^ 9

-- `reloadMembers`, with what the file holds when it is read, and the clock behind that.
unfoldable pub reload_members : Option Members → Time → Reader → Option Members × Reader
reload_members none now r = (none, r)
reload_members (some m) now r = (some m, record { members = some m; loaded = now })

-- The cached value while it is fresh.
unfoldable pub cached : Option Members → Time → Time → Option Members
cached none loaded now = none
cached (some m) loaded now = if ltb (now - loaded) max_age then some m else none

unfoldable pub or_reload : Option Members → Option Members → Time → Reader → Option Members × Reader
unfolding reload_members
or_reload (some m) file now r = (some m, r)
or_reload none file now r = reload_members file now r

-- `Members`: what the file holds if it is read, the clock when the cache is looked at, and the
-- clock behind a read.
unfoldable pub members : Option Members → Time → Time → Reader → Option Members × Reader
unfolding cached or_reload
members file now stamp r = or_reload (cached r.members r.loaded now) file stamp r

-- `ClusterName`, of what `Members` returns
unfoldable pub cluster_name : Option Members → Bytes
cluster_name none = []
cluster_name (some m) = m.cluster.name

-- `LocalNodeName`, with what `/etc/hostname` holds
unfoldable pub hostname_file : Option Bytes → Option Bytes
hostname_file none = none
hostname_file (some b) = some (trim_space b)

unfoldable pub local_node_name : Option Members → Option Bytes → Option Bytes
unfolding hostname_file
local_node_name none host = hostname_file host
local_node_name (some m) host = if m.node_name == [] then hostname_file host else some m.node_name

-- `m.NodeList[name]`
unfoldable pub lookup : Bytes → List (Bytes × Node) → Option Node
lookup name [] = none
lookup name ((k, n) ∷ rest) = if name == k then some n else lookup name rest

pub data IpError : Type 0 where
  no_members no_node_name not_listed no_ip : IpError

unfoldable pub node_ip : Option Node → Bytes ⊎ IpError
node_ip none = inr IpError.not_listed
node_ip (some n) = if n.ip == [] then inr IpError.no_ip else inl n.ip

-- `LocalIP`, of what `Members` returns
unfoldable pub local_ip : Option Members → Bytes ⊎ IpError
unfolding node_ip lookup
local_ip none = inr IpError.no_members
local_ip (some m) =
    if m.node_name == [] then inr IpError.no_node_name else node_ip (lookup m.node_name m.node_list)

-- the loop of `Peers`
unfoldable pub peers_of : Bytes → List (Bytes × Node) → List Node
peers_of self [] = []
peers_of self ((k, n) ∷ rest) =
    let others = peers_of self rest in if k == self || is_zero n.online then others else n ∷ others

-- `Peers`, of what `Members` returns
unfoldable pub peers : Option Members → Option (List Node)
unfolding peers_of
peers none = none
peers (some m) = some (peers_of m.node_name m.node_list)
