-- ===== src/Tlsutil/Loader.antt =====
-- internal/tlsutil/loader.go: `Loader` and the TLS configurations that it makes.
--
-- The packages crypto/tls and crypto/x509 are parameters: the pool that a PEM text gives, the key
-- pair of two texts, the certificate of a DER text, and the verification of a certificate against
-- roots and intermediates. The functions that a configuration holds are given by which of the
-- loader's methods they are; `handshake_config` is the configuration that crypto/tls uses for an
-- inbound connection, by the documentation of `GetConfigForClient`.
use proxmox_eventbus.Prelude.{
  Bool, true, false, List, [], ◌∷◌, Option, none, some, Bytes, if◌then◌else◌,
}
use proxmox_eventbus.Prelude.Result.{Result, ok, err, or_fail, ◌>>=◌}
pub mod Reloads
pub mod Chain

pub data ClientAuth : Type 0 where
  no_client_cert require_any_client_cert require_and_verify_client_cert : ClientAuth

-- What `GetConfigForClient` is: not set, the current configuration, or a copy of it with the
-- settings of the cluster.
pub data ForClient : Type 0 where
  not_set current current_for_cluster : ForClient

-- The fields of `tls.Config` that the loader sets.
pub record TlsConfig (Pool Pair : Type 0) : Type 0 where
  pub min_version_12 : Bool
  pub certificates : List Pair
  pub root_cas : Option Pool
  pub client_cas : Option Pool
  pub client_auth : ClientAuth
  pub server_name : Bytes
  pub insecure_skip_verify : Bool
  -- `VerifyPeerCertificate` is `verifyChain`
  pub verifies_chain : Bool
  -- `GetCertificate` or `GetClientCertificate` gives the current certificate
  pub current_certificate : Bool
  pub for_client : ForClient

pub record Loader (Pool Pair : Type 0) : Type 0 where
  pub ca_file : Bytes
  pub cert_file : Bytes
  pub key_file : Bytes
  pub verify_client : Bool
  pub cur : TlsConfig Pool Pair
  pub ca_cur : Pool

pub data LoadError : Type 0 where
  ca_not_read no_pem_blocks bad_key_pair : LoadError

module _ {Pool Pair : Type 0} where
  -- the configuration that `Reload` makes
  unfoldable pub make_config : Bool → Pool → Pair → TlsConfig Pool Pair
  make_config verify pool pair = record {
    min_version_12 = true;
    certificates = pair ∷ [];
    root_cas = some pool;
    client_cas = some pool;
    client_auth = if verify then require_and_verify_client_cert else no_client_cert;
    server_name = [];
    insecure_skip_verify = false;
    verifies_chain = false;
    current_certificate = false;
    for_client = not_set;
  }

  -- `Server`
  unfoldable pub server_config : Loader Pool Pair → TlsConfig Pool Pair
  server_config l = record l.cur { for_client = current; current_certificate = true }

  -- `Client`
  unfoldable pub client_config : Loader Pool Pair → Bytes → TlsConfig Pool Pair
  client_config l name = record {
    min_version_12 = true;
    certificates = [];
    root_cas = some l.ca_cur;
    client_cas = none;
    client_auth = no_client_cert;
    server_name = name;
    insecure_skip_verify = false;
    verifies_chain = false;
    current_certificate = true;
    for_client = not_set;
  }

  -- `applyClusterSettings`
  unfoldable pub apply_cluster_settings : TlsConfig Pool Pair → TlsConfig Pool Pair
  apply_cluster_settings c = record c {
    insecure_skip_verify = true;
    client_auth = require_any_client_cert;
    verifies_chain = true;
  }

  -- `Cluster`
  unfoldable pub cluster_config : Loader Pool Pair → TlsConfig Pool Pair
  unfolding server_config apply_cluster_settings
  cluster_config l = record (apply_cluster_settings (server_config l)) {
    for_client = current_for_cluster;
  }

  -- The configuration of an inbound connection, made with a configuration of the loader as it was,
  -- while the loader is as it is now.
  unfoldable pub handshake_config : Loader Pool Pair → TlsConfig Pool Pair → TlsConfig Pool Pair
  unfolding apply_cluster_settings
  handshake_config now base = elim base.for_client [
    | not_set ↦ base
    | current ↦ now.cur
    | current_for_cluster ↦ apply_cluster_settings now.cur
  ]

  -- what `Reload` does with the pool and the key pair, or with the error that comes in their place
  unfoldable pub install :
      Loader Pool Pair → Result LoadError (Pool × Pair) → Option LoadError × Loader Pool Pair
  unfolding make_config
  install l (err e) = (some e, l)
  install l (ok (pool, pair)) =
      (none, record l { cur = make_config l.verify_client pool pair; ca_cur = pool })

  -- `Paths`
  unfoldable pub paths : Loader Pool Pair → List Bytes
  paths l = l.ca_file ∷ l.cert_file ∷ l.key_file ∷ []

module _ {Pool Pair : Type 0} (pool_of : Bytes → Option Pool)
    (key_pair : Bytes → Bytes → Option Pair) where
  -- `tls.LoadX509KeyPair`, of what the two files hold
  unfoldable pub load_pair : Option Bytes → Option Bytes → Option Pair
  load_pair (some cert) (some key) = key_pair cert key
  load_pair none key = none
  load_pair (some cert) none = none

  -- the pool and the key pair of the three files
  unfoldable pub read_material :
      (Bytes → Option Bytes) → Bytes → Bytes → Bytes → Result LoadError (Pool × Pair)
  unfolding load_pair
  read_material files ca cert key = do
    pem ← or_fail (files ca) ca_not_read
    pool ← or_fail (pool_of pem) no_pem_blocks
    pair ← or_fail (load_pair (files cert) (files key)) bad_key_pair
    ok (pool, pair)

  -- `Reload`: the error, if there is one, and the loader.
  unfoldable pub reload :
      (Bytes → Option Bytes) → Loader Pool Pair → Option LoadError × Loader Pool Pair
  unfolding read_material install
  reload files l = install l (read_material files l.ca_file l.cert_file l.key_file)

  -- `NewLoader`
  unfoldable pub new_loader :
      (Bytes → Option Bytes) → Bytes → Bytes → Bytes → Bool → Result LoadError (Loader Pool Pair)
  unfolding read_material make_config
  new_loader files ca cert key verify = do
    m ← read_material files ca cert key
    ok (record {
      ca_file = ca;
      cert_file = cert;
      key_file = key;
      verify_client = verify;
      cur = make_config verify m.0 m.1;
      ca_cur = m.0;
    })

-- A certificate: the uses that it names, known and unknown to Go, and all else.
pub record Certificate (Body : Type 0) : Type 0 where
  pub body : Body
  pub ext_key_usage : List Bytes
  pub unknown_ext_key_usage : List Bytes

pub data ChainError : Type 0 where
  no_peer_certificate bad_leaf not_verified : ChainError

-- `ExtKeyUsage` and `UnknownExtKeyUsage` set to nil
unfoldable pub any_use : {Body : Type 0} → Certificate Body → Certificate Body
any_use c = record c { ext_key_usage = []; unknown_ext_key_usage = [] }

-- the pool of the intermediates, in the order in which they are added
unfoldable pub intermediates :
    {Body : Type 0} → (Bytes → Option (Certificate Body)) → List Bytes → List (Certificate Body)
unfolding any_use
intermediates parse [] = []
intermediates parse (raw ∷ raws) = elim (parse raw) [
  | none ↦ intermediates parse raws
  | some c ↦ any_use c ∷ intermediates parse raws
]

module _ {Pool Body : Type 0} (parse : Bytes → Option (Certificate Body))
    (verify : Pool → List (Certificate Body) → Certificate Body → Bool) where
  unfoldable pub verify_leaf : Pool → List Bytes → Option (Certificate Body) → Option ChainError
  unfolding intermediates any_use
  verify_leaf roots raws none = some bad_leaf
  verify_leaf roots raws (some leaf) =
      if verify roots (intermediates parse raws) (any_use leaf) then none else some not_verified

  -- `verifyChain`, with the current pool: the error, none where it returns nil
  unfoldable pub verify_chain : Pool → List Bytes → Option ChainError
  unfolding verify_leaf
  verify_chain roots [] = some no_peer_certificate
  verify_chain roots (raw ∷ raws) = verify_leaf roots raws (parse raw)

  -- What the verification of an inbound connection returns, where a configuration of the loader is
  -- in use and the loader is as it is now: `verifyChain` takes the pool of the roots from the
  -- loader.
  unfoldable pub verify_peer :
      {Pair : Type 0} → Loader Pool Pair → TlsConfig Pool Pair → List Bytes → Option ChainError
  unfolding verify_chain handshake_config
  verify_peer now base raws =
      if (handshake_config now base).verifies_chain then verify_chain now.ca_cur raws else none
