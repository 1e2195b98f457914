-- ===== src/Tlsutil/Issue.antt =====
-- internal/tlsutil/issue.go: client certificates signed by the CA of the cluster.
--
-- crypto/x509, encoding/pem, the random numbers and the clock are the record `Crypto`. A file is
-- its content and its mode, where the umask takes none of the bits; os.WriteFile keeps the mode of
-- a file that is there, as it documents. A call of the file system that fails leaves it in any
-- state.
pub mod Blocks
pub mod Files
use proxmox_eventbus.Prelude.{
  ℕ, zero, suc, ◌*◌, ◌^◌, ◌-◌, Bool, true, false, ◌||◌, List, [], ◌∷◌, ◌++◌, Option, none, some,
  Bytes, codes, ◌==◌, bytes_eq, if◌then◌else◌, ℤ, pos, negsuc, is_zero, length,
}
use proxmox_eventbus.Prelude.GoMap
use proxmox_eventbus.Prelude.GoMap.{GoMap}
use proxmox_eventbus.Prelude.Result.{Result, ok, err, or_fail, ◌>>=◌}
use proxmox_eventbus.Filepath.{join_path}

-- `DefaultCAcertPath` and `DefaultCAkeyPath`
abbrev pub default_ca_cert_path : Bytes
default_ca_cert_path = codes "/etc/pve/pve-root-ca.pem"

abbrev pub default_ca_key_path : Bytes
default_ca_key_path = codes "/etc/pve/priv/pve-root-ca.key"

pub record IssueClientCertOpts : Type 0 where
  pub ca_cert_file : Bytes
  pub ca_key_file : Bytes
  pub cn : Bytes
  pub out_dir : Bytes
  pub validity : ℤ
  pub orgs : List Bytes

pub record ClientCertBundle : Type 0 where
  pub ca_pem : Bytes
  pub cert_pem : Bytes
  pub key_pem : Bytes

pub data KeyUsage : Type 0 where
  digital_signature key_encipherment : KeyUsage

pub data ExtKeyUsage : Type 0 where
  client_auth : ExtKeyUsage

-- The fields of the `x509.Certificate` that is signed.
pub record Template (Moment : Type 0) : Type 0 where
  pub serial_number : ℕ
  pub common_name : Bytes
  pub organization : List Bytes
  pub not_before : Moment
  pub not_after : Moment
  pub key_usage : List KeyUsage
  pub ext_key_usage : List ExtKeyUsage

-- `decode` is `pem.Decode`: the type and the bytes of the first block, and the rest. `now_before`
-- and `now_after` are the two readings of the clock, and `add` is `Time.Add`.
pub record Crypto : Type 1 where
  pub Cert : Type 0
  pub CaKey : Type 0
  pub Priv : Type 0
  pub Moment : Type 0
  pub decode : Bytes → Option (Bytes × Bytes × Bytes)
  pub encode : Bytes → Bytes → Bytes
  pub parse_certificate : Bytes → Option Cert
  pub parse_pkcs1 : Bytes → Option CaKey
  pub parse_ec : Bytes → Option CaKey
  pub parse_pkcs8 : Bytes → Option CaKey
  pub generated : Option Priv
  pub serial : Option ℕ
  pub create_certificate : Template Moment → Cert → Priv → CaKey → Option Bytes
  pub marshal : Priv → Option Bytes
  pub now_before : Moment
  pub now_after : Moment
  pub add : Moment → ℤ → Moment

-- `no_fuel` stands for no error of the program: it does not arise.
pub data PemError : Type 0 where
  not_read no_block not_parsed no_fuel : PemError

pub data IssueError : Type 0 where
  out_dir_required cn_required key_not_generated no_serial not_signed not_marshalled : IssueError
  ca_cert_not_loaded ca_key_not_loaded : PemError → IssueError
  ca_cert_not_read make_dir_failed write_failed : IssueError

unfoldable pub wrapped {ℓ} :
    {A : Type ℓ} → Result PemError A → (PemError → IssueError) → Result IssueError A
wrapped (ok a) wrap = ok a
wrapped (err e) wrap = err (wrap e)

-- What one block gives: nothing, so that the next one is read, or what is returned.
abbrev pub Pick : Type 0 → Type 0
Pick A = Bytes → Bytes → Option (Result PemError A)

module _ (x : Crypto) where
  -- The loops of `loadPEMCert` and `loadPEMKey`.
  unfoldable pub scan_blocks : {A : Type 0} → Pick A → ℕ → Bytes → Result PemError A
  scan_blocks pick zero b = err PemError.no_fuel
  scan_blocks pick (suc fuel) b = elim (x.decode b) [
    | none ↦ err PemError.no_block
    | some (type, bytes, rest) ↦ elim (pick type bytes) [
      | some r ↦ r
      | none ↦ scan_blocks pick fuel rest
    ]
  ]

  unfoldable pub pick_cert : Pick x.Cert
  pick_cert type bytes =
      if type == codes "CERTIFICATE"
      then some (or_fail (x.parse_certificate bytes) PemError.not_parsed)
      else none

  unfoldable pub pick_key : Pick x.CaKey
  pick_key type bytes =
      if type == codes "RSA PRIVATE KEY"
      then some (or_fail (x.parse_pkcs1 bytes) PemError.not_parsed)
      else if type == codes "EC PRIVATE KEY"
      then some (or_fail (x.parse_ec bytes) PemError.not_parsed)
      else if type == codes "PRIVATE KEY"
      then some (or_fail (x.parse_pkcs8 bytes) PemError.not_parsed)
      else none

  -- `loadPEMCert` and `loadPEMKey`, of what the file holds
  unfoldable pub load_pem_cert : Option Bytes → Result PemError x.Cert
  unfolding scan_blocks pick_cert
  load_pem_cert none = err PemError.not_read
  load_pem_cert (some b) = scan_blocks pick_cert (suc (length b)) b

  unfoldable pub load_pem_key : Option Bytes → Result PemError x.CaKey
  unfolding scan_blocks pick_key
  load_pem_key none = err PemError.not_read
  load_pem_key (some b) = scan_blocks pick_key (suc (length b)) b

  unfoldable pub with_defaults : IssueClientCertOpts → IssueClientCertOpts
  with_defaults opts = record opts {
    ca_cert_file = if opts.ca_cert_file == [] then default_ca_cert_path else opts.ca_cert_file;
    ca_key_file = if opts.ca_key_file == [] then default_ca_key_path else opts.ca_key_file;
    validity = if is_zero opts.validity then pos (365 * 24 * 3600 * 10 ^ 9) else opts.validity;
    orgs = elim opts.orgs [ [] ↦ codes "proxmox-eventbus client" ∷ [] | o ∷ os ↦ o ∷ os ];
  }

  unfoldable pub template : IssueClientCertOpts → ℕ → Template x.Moment
  template opts serial = record {
    serial_number = serial;
    common_name = opts.cn;
    organization = opts.orgs;
    not_before = x.add x.now_before (negsuc (60 * 10 ^ 9 - 1));
    not_after = x.add x.now_after opts.validity;
    key_usage = KeyUsage.digital_signature ∷ KeyUsage.key_encipherment ∷ [];
    ext_key_usage = ExtKeyUsage.client_auth ∷ [];
  }

  -- `IssueClientCertPEM`. The certificate of the CA is read twice: `disk` is what the files hold at
  -- first, and `disk'` at the end.
  unfoldable pub issue_client_cert_pem :
      IssueClientCertOpts
      → (Bytes → Option Bytes)
      → (Bytes → Option Bytes)
      → Result IssueError ClientCertBundle
  unfolding with_defaults wrapped load_pem_cert load_pem_key template
  issue_client_cert_pem given disk disk' = do
    let opts = with_defaults given
    cn ← if opts.cn == [] then err IssueError.cn_required else ok opts.cn
    ca_cert ← wrapped (load_pem_cert (disk opts.ca_cert_file)) IssueError.ca_cert_not_loaded
    ca_key ← wrapped (load_pem_key (disk opts.ca_key_file)) IssueError.ca_key_not_loaded
    priv ← or_fail x.generated IssueError.key_not_generated
    serial ← or_fail x.serial IssueError.no_serial
    der ←
        or_fail (x.create_certificate (template opts serial) ca_cert priv ca_key)
          IssueError.not_signed
    key_der ← or_fail (x.marshal priv) IssueError.not_marshalled
    ca_pem ← or_fail (disk' opts.ca_cert_file) IssueError.ca_cert_not_read
    ok (record {
      ca_pem = ca_pem;
      cert_pem = x.encode (codes "CERTIFICATE") der;
      key_pem = x.encode (codes "PRIVATE KEY") key_der;
    })

pub record FileState : Type 0 where
  pub content : Bytes
  pub mode : ℕ

-- The regular files, by their paths.
abbrev pub FileSystem : Type 0
FileSystem = GoMap FileState

pub data FileOp : Type 0 where
  make_dir : Bytes → FileOp
  write : Bytes → Bytes → ℕ → FileOp

-- the mode of a file that is written, which was there or was not
unfoldable pub mode_behind : Option FileState → ℕ → ℕ
mode_behind none mode = mode
mode_behind (some f) mode = f.mode

-- What an operation that succeeds does to the regular files.
unfoldable pub done : FileOp → FileSystem → FileSystem
unfolding mode_behind
done (make_dir path) fs = fs
done (write path content mode) fs =
    GoMap.set fs path (record { content = content; mode = mode_behind (fs path) mode })

unfoldable pub failure : FileOp → IssueError
failure (make_dir path) = IssueError.make_dir_failed
failure (write path content mode) = IssueError.write_failed

-- the calls of `IssueClientCert` that change files
unfoldable pub bundle_ops : Bytes → ClientCertBundle → List FileOp
unfolding join_path
bundle_ops dir b =
    make_dir dir
    ∷ write (join_path dir (codes "ca.pem")) b.ca_pem 0o644
    ∷ write (join_path dir (codes "client.pem")) b.cert_pem 0o644
    ∷ write (join_path dir (codes "client.key")) b.key_pem 0o600
    ∷ []

-- Which operations fail, and what the files are behind one that does.
module _ (fails : FileOp → Bool) (broken : FileOp → FileSystem → FileSystem) where
  -- Calls one behind the other, up to the first one that fails: its error, and the files.
  unfoldable pub run_ops : List FileOp → FileSystem → Option IssueError × FileSystem
  unfolding done failure
  run_ops [] fs = (none, fs)
  run_ops (op ∷ ops) fs = elim (fails op) [
    | true ↦ (some (failure op), broken op fs)
    | false ↦ run_ops ops (done op fs)
  ]

  unfoldable pub write_bundle :
      Bytes → Result IssueError ClientCertBundle → FileSystem → Option IssueError × FileSystem
  unfolding run_ops bundle_ops
  write_bundle dir (err e) fs = (some e, fs)
  write_bundle dir (ok b) fs = run_ops (bundle_ops dir b) fs

  -- `IssueClientCert`: the error, if there is one, and the files.
  unfoldable pub issue_client_cert :
      (x : Crypto)
      → IssueClientCertOpts
      → (Bytes → Option Bytes)
      → (Bytes → Option Bytes)
      → FileSystem
      → Option IssueError × FileSystem
  unfolding write_bundle issue_client_cert_pem
  issue_client_cert x opts disk disk' fs =
      if opts.out_dir == []
      then (some IssueError.out_dir_required, fs)
      else write_bundle opts.out_dir (issue_client_cert_pem x opts disk disk') fs
