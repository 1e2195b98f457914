-- ===== src/Tlsutil/Loader/Reloads.antt =====
-- Any number of calls of `Reload`, behind which the loader holds the last material that was
-- complete.
use proxmox_eventbus.Prelude.{
  ◌≡◌, refl, sym, subst, ap, Bool, true, List, [], ◌∷◌, Option, some, Bytes,
}
use proxmox_eventbus.Prelude.Result.{Result, ok, err, checked_call}
use proxmox_eventbus.Tlsutil.Loader.{
  TlsConfig, Loader, LoadError, ClientAuth, make_config, apply_cluster_settings, cluster_config,
  handshake_config, read_material, reload, new_loader, install, Certificate, verify_chain,
  verify_peer,
}

-- What the files hold when they are read.
abbrev pub Disk : Type 0
Disk = Bytes → Option Bytes

-- The material behind a reading: as before, where the reading fails.
unfoldable pub kept : {M : Type 0} → M → Result LoadError M → M
kept m (ok n) = n
kept m (err e) = m

-- The loader has these files and this setting, and both of its pointers are of one reading, of this
-- pool and this key pair.
pub record Holds {Pool Pair : Type 0} (l : Loader Pool Pair) (ca cert key : Bytes) (verify : Bool)
    (m : Pool × Pair) : Type 0 where
  pub of_ca : l.ca_file ≡ ca
  pub of_cert : l.cert_file ≡ cert
  pub of_key : l.key_file ≡ key
  pub of_verify : l.verify_client ≡ verify
  pub of_cur : l.cur ≡ make_config verify m.0 m.1
  pub of_ca_cur : l.ca_cur ≡ m.0

-- An inbound connection of the cluster, with a configuration of the loader, while the loader is as
-- it is now: it demands a certificate, shows the own one, and verifies the chain of the peer
-- against this pool.
abbrev pub ChecksPeers :
    {Pool Pair Body : Type 0}
    → (Bytes → Option (Certificate Body))
    → (Pool → List (Certificate Body) → Certificate Body → Bool)
    → Loader Pool Pair
    → TlsConfig Pool Pair
    → Pool × Pair
    → Type 0
ChecksPeers parse verify now base m =
    let c = handshake_config now base in
    (c.client_auth ≡ ClientAuth.require_any_client_cert)
    × (c.verifies_chain ≡ true)
    × (c.min_version_12 ≡ true)
    × (c.certificates ≡ m.1 ∷ [])
    × (c.client_cas ≡ some m.0)
    × ((raws : List Bytes)
        → verify_peer parse verify now base raws ≡ verify_chain parse verify m.0 raws)

install-Holds :
    {Pool Pair : Type 0} (l : Loader Pool Pair) (ca cert key : Bytes) (verify : Bool)
    (m : Pool × Pair) (r : Result LoadError (Pool × Pair))
    → Holds l ca cert key verify m
    → Holds ((install l r).1) ca cert key verify (kept m r)
unfolding install kept
install-Holds l ca cert key verify m (err e) h = h
install-Holds l ca cert key verify m (ok (pool, pair)) h = record {
  of_ca = h.of_ca;
  of_cert = h.of_cert;
  of_key = h.of_key;
  of_verify = h.of_verify;
  of_cur = ap (λ v. make_config v pool pair) h.of_verify;
  of_ca_cur = refl;
}

module _ {Pool Pair : Type 0} (pool_of : Bytes → Option Pool)
    (key_pair : Bytes → Bytes → Option Pair) where
  -- `Reload` once for each state of the disk
  unfoldable pub reloads : Loader Pool Pair → List Disk → Loader Pool Pair
  unfolding reload
  reloads l [] = l
  reloads l (disk ∷ disks) = reloads ((reload pool_of key_pair disk l).1) disks

  -- The last of the materials that three files held when they were complete.
  unfoldable pub latest : Bytes → Bytes → Bytes → Pool × Pair → List Disk → Pool × Pair
  unfolding kept
  latest ca cert key m [] = m
  latest ca cert key m (disk ∷ disks) =
      latest ca cert key (kept m (read_material pool_of key_pair disk ca cert key)) disks

  reload-Holds :
      (disk : Disk) (l : Loader Pool Pair) (ca cert key : Bytes) (verify : Bool) (m : Pool × Pair)
      → Holds l ca cert key verify m
      → Holds
          ((reload pool_of key_pair disk l).1)
          ca
          cert
          key
          verify
          (kept m (read_material pool_of key_pair disk ca cert key))
  unfolding reload
  reload-Holds disk l ca cert key verify m h =
      let read = read_material pool_of key_pair disk in
      subst (λ r. Holds ((install l r).1) ca cert key verify (kept m (read ca cert key)))
        (cc (h.of_ca, h.of_cert, h.of_key))
        (install-Holds l ca cert key verify m (read ca cert key) h)

  reloads_keep :
      (disks : List Disk) (l : Loader Pool Pair) (ca cert key : Bytes) (verify : Bool)
      (m : Pool × Pair)
      → Holds l ca cert key verify m
      → Holds (reloads l disks) ca cert key verify (latest ca cert key m disks)
  unfolding reloads latest
  reloads_keep [] l ca cert key verify m h = h
  reloads_keep (disk ∷ disks) l ca cert key verify m h =
      reloads_keep disks _ ca cert key verify _ (reload-Holds disk l ca cert key verify m h)

  new_loader-Holds :
      (disk : Disk) (ca cert key : Bytes) (verify : Bool) (l : Loader Pool Pair)
      → new_loader pool_of key_pair disk ca cert key verify ≡ ok l
      → (m : Pool × Pair) × (read_material pool_of key_pair disk ca cert key ≡ ok m)
        × Holds l ca cert key verify m
  unfolding new_loader
  new_loader-Holds disk ca cert key verify l h =
      let (m, read, e) = checked_call (read_material pool_of key_pair disk ca cert key) _ l h in
      (
        m,
        sym read,
        subst (λ k. Holds k ca cert key verify m) (cc e)
            (record {
              of_ca = refl;
              of_cert = refl;
              of_key = refl;
              of_verify = refl;
              of_cur = refl;
              of_ca_cur = refl;
            }),
      )

  -- After `NewLoader` and any number of calls of `Reload`, failed ones among them, the
  -- configuration and the pool that the loader holds are those of one reading, the last one at
  -- which all three files could be read and parsed; the first reading is that of `NewLoader`.
  pub reloads-Holds :
      (disk : Disk) (ca cert key : Bytes) (verify : Bool) (l : Loader Pool Pair) (disks : List Disk)
      → new_loader pool_of key_pair disk ca cert key verify ≡ ok l
      → (m : Pool × Pair) × (read_material pool_of key_pair disk ca cert key ≡ ok m)
        × Holds (reloads l disks) ca cert key verify (latest ca cert key m disks)
  reloads-Holds disk ca cert key verify l disks h =
      let (m, read, held) = new_loader-Holds disk ca cert key verify l h in
      (m, read, reloads_keep disks l ca cert key verify m held)

  -- The configuration of the cluster listener is made once. Whatever `Reload` does between that and
  -- an inbound connection, the connection requires a certificate of the peer, checks its chain by
  -- `verifyChain` and shows the own certificate, with the pool and the key pair of the last
  -- complete reading: what `verifyChain` returns is what it returns for that pool.
  pub handshake-ChecksPeers :
      {Body : Type 0} (parse : Bytes → Option (Certificate Body))
      (check : Pool → List (Certificate Body) → Certificate Body → Bool) (disk : Disk)
      (ca cert key : Bytes) (verify : Bool) (l : Loader Pool Pair) (before behind : List Disk)
      → new_loader pool_of key_pair disk ca cert key verify ≡ ok l
      → (m : Pool × Pair) × (read_material pool_of key_pair disk ca cert key ≡ ok m)
        × ChecksPeers parse check
            (reloads (reloads l before) behind)
            (cluster_config (reloads l before))
            (latest ca cert key (latest ca cert key m before) behind)
  unfolding verify_peer handshake_config cluster_config apply_cluster_settings make_config
  handshake-ChecksPeers parse check disk ca cert key verify l before behind h =
      let (m, read, held) = reloads-Holds disk ca cert key verify l before h in
      let now = reloads_keep behind _ ca cert key verify _ held in
      let c = now.of_cur in
      (
        m,
        read,
        (
          refl,
          refl,
          ap (λ d. d.min_version_12) c,
          ap (λ d. d.certificates) c,
          ap (λ d. d.client_cas) c,
          λ raws. ap (λ pool. verify_chain parse check pool raws) now.of_ca_cur,
        ),
      )
