-- ===== src/Main/Commands.antt =====
-- cmd/proxmox-eventbus/main.go and issue_client_cert.go: which command runs, and its exit status.
use proxmox_eventbus.Prelude.{
  ℕ, Bool, ◌||◌, List, [], ◌∷◌, Option, none, some, Bytes, codes, ◌==◌, bytes_eq, ◌++◌,
  if◌then◌else◌, ℤ,
}
use proxmox_eventbus.Version.{Build, text}
use proxmox_eventbus.Tlsutil.Issue.{
  Crypto, IssueClientCertOpts, IssueError, FileOp, FileSystem, issue_client_cert,
}

pub data Command : Type 0 where
  issue_command tail_command : List Bytes → Command
  print_version print_help daemon : Command

-- The `switch` of `main` on the first argument; `args` are those behind the program's name.
unfoldable pub command_of : List Bytes → Command
command_of [] = daemon
command_of (arg ∷ args) =
    if arg == codes "issue-client-cert"
    then issue_command args
    else if arg == codes "tail"
    then tail_command args
    else if arg == codes "version" || arg == codes "-v" || arg == codes "--version"
    then print_version
    else if arg == codes "help" || arg == codes "-h" || arg == codes "--help"
    then print_help
    else daemon

-- What `printHelp` prints, without the last newline.
unfoldable pub help_text : Build → Bytes
unfolding text
help_text b =
    codes "proxmox-eventbus "
    ++ (text b
        ++ (codes "\n\nUsage:\n"
            ++ (codes
                  "  proxmox-eventbus                    run the daemon (reads /etc/proxmox-eventbus/config.yaml)\n"
                ++ (codes
                      "  proxmox-eventbus tail <subject>...  subscribe over local NATS and print events\n"
                    ++ (codes
                          "  proxmox-eventbus issue-client-cert  mint a client cert signed by the PVE cluster CA\n"
                        ++ (codes "  proxmox-eventbus version            print version\n"
                            ++ codes "  proxmox-eventbus help               print this help"))))))

-- What `runDaemon` returns: nil, the error of a cancelled context, or another one.
pub data DaemonResult : Type 0 where
  finished cancelled failed : DaemonResult

-- The exit status of `main`, of what the commands return.
unfoldable pub exit_status : (List Bytes → ℕ) → (List Bytes → ℕ) → DaemonResult → List Bytes → ℕ
unfolding command_of
exit_status issue tail run args = elim (command_of args) [
  | issue_command rest ↦ issue rest
  | tail_command rest ↦ tail rest
  | print_version ↦ 0
  | print_help ↦ 0
  | daemon ↦ elim run [ finished ↦ 0 | cancelled ↦ 0 | failed ↦ 1 ]
]

-- The values of the flags of `issue-client-cert`.
pub record IssueFlags : Type 0 where
  pub cn : Bytes
  pub out : Bytes
  pub ca_cert : Bytes
  pub ca_key : Bytes
  pub validity : ℤ

unfoldable pub issue_opts : IssueFlags → IssueClientCertOpts
issue_opts f = record {
  ca_cert_file = f.ca_cert;
  ca_key_file = f.ca_key;
  cn = f.cn;
  out_dir = f.out;
  validity = f.validity;
  orgs = [];
}

unfoldable pub issue_status : Option IssueError × FileSystem → ℕ × FileSystem
issue_status (none, fs) = (0, fs)
issue_status (some e, fs) = (1, fs)

-- `runIssueClientCert`, of the flags, or none where the command line is not parsed: the exit status
-- and the files.
unfoldable pub run_issue_client_cert :
    (FileOp → Bool)
    → (FileOp → FileSystem → FileSystem)
    → (x : Crypto) → Option IssueFlags
    → (Bytes → Option Bytes)
    → (Bytes → Option Bytes)
    → FileSystem
    → ℕ × FileSystem
unfolding issue_opts issue_status issue_client_cert
run_issue_client_cert fails broken x none disk disk' fs = (2, fs)
run_issue_client_cert fails broken x (some f) disk disk' fs =
    if f.cn == [] || f.out == []
    then (2, fs)
    else issue_status (issue_client_cert fails broken x (issue_opts f) disk disk' fs)
