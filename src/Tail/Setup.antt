-- ===== src/Tail/Setup.antt =====
-- cmd/proxmox-eventbus/tail.go: `runTail` up to the wait for a signal, and `buildTailTLS`.
--
-- What `flag`, `config.Load` and the connection to NATS do is given by their results.
use proxmox_eventbus.Prelude.{
  ℕ, Bool, true, false, not, List, [], ◌∷◌, Option, none, some, Bytes, if◌then◌else◌, ℤ, every,
}
use proxmox_eventbus.Prelude.Result.{Result, ok, err, or_fail, ◌>>=◌}
use proxmox_eventbus.Tlsutil.Issue.{
  Crypto, IssueClientCertOpts, IssueError, ClientCertBundle, issue_client_cert_pem,
}
use proxmox_eventbus.Tlsutil.Loader.{TlsConfig, ClientAuth, ForClient}

pub data TailTlsError : Type 0 where
  not_issued : IssueError → TailTlsError
  not_loaded no_pem_blocks : TailTlsError

-- the certificate that `buildTailTLS` asks for
unfoldable pub tail_cert_opts : Bytes → Bytes → ℤ → IssueClientCertOpts
tail_cert_opts ca_file cn validity = record {
  ca_cert_file = ca_file;
  ca_key_file = [];
  cn = cn;
  out_dir = [];
  validity = validity;
  orgs = [];
}

unfoldable pub issued : Result IssueError ClientCertBundle → Result TailTlsError ClientCertBundle
issued (ok b) = ok b
issued (err e) = err (TailTlsError.not_issued e)

module _ {Pool Pair : Type 0} (x : Crypto) (pool_of : Bytes → Option Pool)
    (key_pair : Bytes → Bytes → Option Pair) where
  -- `buildTailTLS`, of the file of the CA, the common name, the validity and whether the check of
  -- the server's name is left out
  unfoldable pub build_tail_tls :
      (Bytes → Option Bytes)
      → (Bytes → Option Bytes)
      → Bytes
      → Bytes
      → ℤ
      → Bool
      → Result TailTlsError (TlsConfig Pool Pair)
  unfolding tail_cert_opts issued
  build_tail_tls disk disk' ca_file cn validity skip_verify = do
    bundle ← issued (issue_client_cert_pem x (tail_cert_opts ca_file cn validity) disk disk')
    cert ← or_fail (key_pair bundle.cert_pem bundle.key_pem) TailTlsError.not_loaded
    pool ← or_fail (pool_of bundle.ca_pem) TailTlsError.no_pem_blocks
    ok (record {
      min_version_12 = true;
      certificates = cert ∷ [];
      root_cas = some pool;
      client_cas = none;
      client_auth = ClientAuth.no_client_cert;
      server_name = [];
      insecure_skip_verify = skip_verify;
      verifies_chain = false;
      current_certificate = false;
      for_client = ForClient.not_set;
    })

-- What the calls of `runTail` that may fail return: whether they succeed.
pub record TailWorld : Type 0 where
  pub config_loads : Bool
  pub tls_builds : Bool
  pub connects : Bool
  pub subscribes : Bytes → Bool
  pub flushes : Bool

-- `runTail`: the exit status, of the subjects that the command line names, or none where it is not
-- parsed
unfoldable pub run_tail : Option (List Bytes) → TailWorld → ℕ
run_tail none w = 2
run_tail (some []) w = 2
run_tail (some (s ∷ subjects)) w =
    if not w.config_loads
    then 1
    else if not w.tls_builds
    then 1
    else if not w.connects
    then 1
    else if not (every w.subscribes (s ∷ subjects))
    then 1
    else if not w.flushes
    then 1
    else 0
