-- ===== src/Config.antt =====
-- internal/config/config.go: `Config`, `Defaults`, `Load` and `Validate`.
--
-- A `time.Duration` is its nanoseconds. The YAML decoder (gopkg.in/yaml.v3) is a parameter of
-- `load`: what it makes of the text and the defaults, with the error that it may return.
pub mod Checks
use proxmox_eventbus.Prelude.{
  ◌*◌, ◌^◌, Bool, true, false, not, ◌&&◌, ◌||◌, List, [], ◌∷◌, Option, none, some, Bytes, codes,
  ◌==◌, bytes_eq, bytes_beq, if◌then◌else◌, ltb, ℕ, ℤ, pos, negsuc, is_neg,
}

pub record NodeConfig : Type 0 where
  pub cluster_name : Bytes
  pub name : Bytes
  pub pmxcfs_root : Bytes

pub record WatchConfig : Type 0 where
  pub tasks_dir : Bytes
  pub include : List Bytes
  pub actions : List Bytes

pub record SnapshotConfig : Type 0 where
  pub enabled : Bool
  pub interval : ℤ
  pub jitter_pc : ℤ
  pub use_qmp : Bool

pub record ListenerConfig : Type 0 where
  pub host : Bytes
  pub port : ℤ
  pub advertise : Bytes

pub record TlsConfig : Type 0 where
  pub ca_file : Bytes
  pub cert_file : Bytes
  pub key_file : Bytes
  pub verify_client : Bool

pub record DiscoveryConfig : Type 0 where
  pub members_file : Bytes
  pub static_routes : List Bytes

pub record NatsConfig : Type 0 where
  pub server_name : Bytes
  pub client : ListenerConfig
  pub cluster : ListenerConfig
  pub tls : TlsConfig
  pub discovery : DiscoveryConfig

pub record LoggingConfig : Type 0 where
  pub level : Bytes
  pub format : Bytes

pub record Config : Type 0 where
  pub node : NodeConfig
  pub watch : WatchConfig
  pub snapshot : SnapshotConfig
  pub nats : NatsConfig
  pub logging : LoggingConfig

-- `Defaults`
unfoldable pub defaults : Config
defaults = record {
  node = record { cluster_name = []; name = []; pmxcfs_root = codes "/etc/pve" };
  watch = record {
    tasks_dir = codes "/var/log/pve/tasks";
    include = codes "qemu" ∷ codes "lxc" ∷ [];
    actions = [];
  };
  snapshot = record {
    enabled = true;
    interval = pos (30 * 10 ^ 9);
    jitter_pc = pos 10;
    use_qmp = false;
  };
  nats = record {
    server_name = [];
    client = record { host = codes "0.0.0.0"; port = pos 4222; advertise = [] };
    cluster = record { host = codes "0.0.0.0"; port = pos 6222; advertise = [] };
    tls = record {
      ca_file = codes "/etc/pve/pve-root-ca.pem";
      cert_file = codes "/etc/pve/local/pve-ssl.pem";
      key_file = codes "/etc/pve/local/pve-ssl.key";
      verify_client = true;
    };
    discovery = record { members_file = codes "/etc/pve/.members"; static_routes = [] };
  };
  logging = record { level = codes "info"; format = codes "journald" };
}

pub data ConfigError : Type 0 where
  unreadable : ConfigError
  unparsed : ConfigError
  bad_interval : ConfigError
  bad_jitter : ConfigError
  bad_format : Bytes → ConfigError
  bad_include : Bytes → ConfigError

-- `z > 100`
unfoldable pub over_100 : ℤ → Bool
over_100 (pos n) = ltb 100 n
over_100 (negsuc n) = false

unfoldable pub known_format : Bytes → Bool
known_format f = f == codes "journald" || f == codes "json" || f == codes "text"

-- the loop over `Watch.Include`
unfoldable pub check_include : List Bytes → Option ConfigError
check_include [] = none
check_include (k ∷ ks) =
    let rest = check_include ks in
    if not (k == codes "qemu") && not (k == codes "lxc") then some (bad_include k) else rest

-- `Validate`, none where it returns nil
unfoldable pub validate : Config → Option ConfigError
unfolding over_100 known_format check_include bytes_beq
validate c =
    if is_neg c.snapshot.interval
    then some bad_interval
    else if is_neg c.snapshot.jitter_pc || over_100 c.snapshot.jitter_pc
    then some bad_jitter
    else if not (c.logging.format == []) && not (known_format c.logging.format)
    then some (bad_format c.logging.format)
    else check_include c.watch.include

-- What `os.ReadFile` gives.
pub data ConfigFile : Type 0 where
  text : Bytes → ConfigFile
  missing : ConfigFile
  failed : ConfigFile

unfoldable pub load_decoded : Config × Bool → Config × Option ConfigError
unfolding validate
load_decoded (cfg, true) = (cfg, validate cfg)
load_decoded (cfg, false) = (cfg, some unparsed)

-- `Load`: `decode` fills the struct that it is given, and says whether it returned nil.
unfoldable pub load :
    (Bytes → Config → Config × Bool) → Bytes → ConfigFile → Config × Option ConfigError
unfolding load_decoded defaults bytes_beq
load decode path (text b) =
    if path == [] then (defaults, none) else load_decoded (decode b defaults)
load decode path missing = (defaults, none)
load decode path failed = if path == [] then (defaults, none) else (defaults, some unreadable)
