-- ===== src/Examples/Tls.antt =====
-- Readings of TLS material, and the listeners that are made of it.
use proxmox_eventbus.Prelude.{
  ◌≡◌, refl, true, false, Bool, List, [], ◌∷◌, Option, none, some, Bytes, codes, bytes_beq, ◌==◌,
  bytes_eq, nat_eq, if◌then◌else◌, ℕ, length,
}
use proxmox_eventbus.Prelude.Result.{ok}
use proxmox_eventbus.Config.{Config, defaults}
use proxmox_eventbus.Tlsutil.Loader.{
  Loader, Certificate, new_loader, read_material, make_config, verify_chain,
}
use proxmox_eventbus.Tlsutil.Loader.Reloads.{Disk, Holds, reloads, latest, reloads-Holds}

abbrev pub pool_of : Bytes → Option ℕ
pool_of pem = if pem == [] then none else some (length pem)

abbrev pub key_pair : Bytes → Bytes → Option ℕ
key_pair cert key = some (length cert)

abbrev url_of : Bytes → Option Bytes
url_of text = some text

abbrev pub at_start : Disk
at_start path = some (codes "old")

-- The files while they are replaced, and behind that.
abbrev torn : Disk
torn path = if path == codes "ca" then some (codes "newer") else none

abbrev replaced : Disk
replaced path = some (codes "newer")

abbrev loader : Loader ℕ ℕ
loader = record {
  ca_file = codes "ca";
  cert_file = codes "cert";
  key_file = codes "key";
  verify_client = true;
  cur = make_config true 3 3;
  ca_cur = 3;
}

loads :
    new_loader pool_of key_pair at_start (codes "ca") (codes "cert") (codes "key") true ≡ ok loader
unfolding new_loader bytes_beq
loads = refl

reloads-Holds_example :
    (m : ℕ × ℕ) × (read_material pool_of key_pair at_start (codes "ca") (codes "cert") (codes "key")
      ≡ ok m)
    × Holds
        (reloads pool_of key_pair loader (torn ∷ replaced ∷ []))
        (codes "ca")
        (codes "cert")
        (codes "key")
        true
        (latest pool_of key_pair (codes "ca") (codes "cert") (codes "key") m (torn ∷ replaced ∷ []))
reloads-Holds_example =
    reloads-Holds pool_of key_pair at_start (codes "ca") (codes "cert") (codes "key") true loader
      (torn ∷ replaced ∷ []) loads

torn_keeps :
    latest pool_of key_pair (codes "ca") (codes "cert") (codes "key") (3, 3) (torn ∷ []) ≡ (3, 3)
unfolding latest read_material bytes_beq
torn_keeps = refl

abbrev configuration : Config
configuration = record defaults {
  nats = record defaults.nats {
    tls = record {
      ca_file = codes "ca";
      cert_file = codes "cert";
      key_file = codes "key";
      verify_client = true;
    };
  };
}

-- The certificate of a server.
abbrev for_servers : Bytes → Option (Certificate Bytes)
for_servers raw =
    some
      (record { body = raw; ext_key_usage = codes "serverAuth" ∷ []; unknown_ext_key_usage = [] })

-- A verification that refuses what names a use.
abbrev verify : ℕ → List (Certificate Bytes) → Certificate Bytes → Bool
verify roots is leaf = elim leaf.ext_key_usage [ [] ↦ true | u ∷ us ↦ false ]

accepted : verify_chain for_servers verify 3 (codes "leaf" ∷ []) ≡ none
unfolding verify_chain
accepted = refl
