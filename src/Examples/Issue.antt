-- ===== src/Examples/Issue.antt =====
-- The certificate that `tail` or `issue-client-cert` asks for.
use proxmox_eventbus.Prelude.{
  ℕ, ◌≡◌, refl, ap, false, Bool, List, [], ◌∷◌, ◌++◌, Option, none, some, Bytes, codes, pos, arith,
  bytes_beq, ◌==◌, nat_eq, if◌then◌else◌, length, ℤ,
}
use proxmox_eventbus.Prelude.GoMap
use proxmox_eventbus.Prelude.Result.{ok}
use proxmox_eventbus.Filepath.{join_path}
use proxmox_eventbus.Strings.Affix.{has_prefix}
use proxmox_eventbus.Tlsutil.Issue.{
  Crypto, IssueClientCertOpts, ClientCertBundle, FileSystem, FileOp, pick_cert, pick_key,
  load_pem_cert, load_pem_key, issue_client_cert_pem, issue_client_cert,
}
use proxmox_eventbus.Tlsutil.Issue.Blocks.{Decodes, first_answer, Shrinks, load_pem-first_answer}
use proxmox_eventbus.Tlsutil.Issue.Files.{HasBundle, issue_client_cert_files}
use proxmox_eventbus.Main.Commands.{IssueFlags, run_issue_client_cert}

-- In this encoding each byte is a block: 1 is a certificate, 2 a key, and another is neither.
block_type : ℕ → Bytes
block_type c =
    if c == 1 then codes "CERTIFICATE" else if c == 2 then codes "PRIVATE KEY" else codes "OTHER"

abbrev decode : Bytes → Option (Bytes × Bytes × Bytes)
decode [] = none
decode (c ∷ rest) = some (block_type c, c ∷ [], rest)

abbrev crypto : Crypto
crypto = record {
  Cert = ℕ;
  CaKey = ℕ;
  Priv = ℕ;
  Moment = ℤ;
  decode = decode;
  encode = λ type bytes. type ++ bytes;
  parse_certificate = λ bytes. some 11;
  parse_pkcs1 = λ bytes. none;
  parse_ec = λ bytes. none;
  parse_pkcs8 = λ bytes. some 12;
  generated = some 13;
  serial = some 14;
  create_certificate = λ template cert priv key. some (15 ∷ []);
  marshal = λ priv. some (16 ∷ []);
  now_before = pos 17;
  now_after = pos 18;
  add = λ t d. d;
}

decode-Shrinks : Shrinks crypto
decode-Shrinks [] type bytes rest h = cc h
decode-Shrinks (c ∷ b) type bytes rest h =
    let same : b ≡ rest = cc h in omega (arith, ap length same)

abbrev pem : Bytes
pem = 7 ∷ 1 ∷ 2 ∷ []

load_pem-first_answer_example :
    (blocks : List (Bytes × Bytes)) × Decodes crypto pem blocks
    × (load_pem_cert crypto (some pem) ≡ first_answer crypto (pick_cert crypto) blocks)
    × (load_pem_key crypto (some pem) ≡ first_answer crypto (pick_key crypto) blocks)
load_pem-first_answer_example = load_pem-first_answer crypto pem decode-Shrinks

abbrev opts : IssueClientCertOpts
opts = record {
  ca_cert_file = [];
  ca_key_file = [];
  cn = codes "consumer";
  out_dir = codes "/root/out/";
  validity = pos 0;
  orgs = [];
}

abbrev disk : Bytes → Option Bytes
disk path = some pem

-- A key that is there already and that everyone may read.
abbrev before : FileSystem
before =
    GoMap.set GoMap.empty (codes "/root/out/client.key") (record { content = []; mode = 0o644 })

abbrev fails : FileOp → Bool
fails op = false

abbrev broken : FileOp → FileSystem → FileSystem
broken op fs = fs

succeeds : (issue_client_cert fails broken crypto opts disk disk before).0 ≡ none
unfolding issue_client_cert bytes_beq block_type
succeeds = refl

issue_client_cert_files_example :
    (b : ClientCertBundle) × (issue_client_cert_pem crypto opts disk disk ≡ ok b)
    × HasBundle before
        ((issue_client_cert fails broken crypto opts disk disk before).1)
        (codes "/root/out/")
        b
issue_client_cert_files_example =
    issue_client_cert_files fails broken crypto opts disk disk before succeeds

-- The key that was there keeps the mode by which everyone may read it.
key_stays_readable :
    (issue_client_cert fails broken crypto opts disk disk before).1 (codes "/root/out/client.key")
    ≡ some (record { content = codes "PRIVATE KEY" ++ 16 ∷ []; mode = 0o644 })
unfolding issue_client_cert bytes_beq block_type join_path has_prefix
key_stays_readable = refl

abbrev flags : IssueFlags
flags = record { cn = []; out = codes "out"; ca_cert = []; ca_key = []; validity = pos 0 }

no_name : (run_issue_client_cert fails broken crypto (some flags) disk disk before).0 ≡ 2
unfolding run_issue_client_cert bytes_beq
no_name = refl
