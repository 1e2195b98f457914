-- ===== src/Version.antt =====
-- internal/version/version.go
use proxmox_eventbus.Prelude.{Bytes, codes, ◌++◌}

-- The three variables, which the linker may set.
pub record Build : Type 0 where
  pub version : Bytes
  pub commit : Bytes
  pub date : Bytes

abbrev pub development : Build
development = record { version = codes "dev"; commit = codes "none"; date = codes "unknown" }

-- `String`
unfoldable pub text : Build → Bytes
text b = b.version ++ (codes " (" ++ (b.commit ++ (codes ", " ++ (b.date ++ codes ")"))))
