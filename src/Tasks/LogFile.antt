-- ===== src/Tasks/LogFile.antt =====
-- internal/tasks/logfile.go: `FindLogFile`.
--
-- The files are given by what the calls of the standard library answer: whether `os.Stat` succeeds
-- and finds a directory, what `filepath.Glob` matches, and the tree below the root in the order of
-- `filepath.WalkDir`, without what it cannot read.
pub mod Walk
pub mod Search
use proxmox_eventbus.Prelude.{
  ℕ, zero, suc, Bool, true, false, not, ◌||◌, List, [], ◌∷◌, ◌++◌, Option, none, some, Bytes, codes,
  ◌==◌, bytes_eq, if◌then◌else◌,
}
use proxmox_eventbus.Filepath.{join_path}
use proxmox_eventbus.Strings.Affix.{trim_suffix}
use proxmox_eventbus.Strings.Space.{trim_space}

mutual
  pub data Entry : Type 0 where
    file : Bytes → Entry
    dir : Bytes → Entries → Entry

  pub data Entries : Type 0 where
    nil : Entries
    cons : Entry → Entries → Entries

pub record Files : Type 0 where
  -- none where `os.Stat` fails, and else whether it is a directory
  pub stat : Bytes → Option Bool
  pub glob : Bytes → List Bytes
  -- what lies below the root
  pub tree : Entries

unfoldable pub or_else : Option Bytes → Option Bytes → Option Bytes
or_else none o = o
or_else (some p) o = some p

-- The walk: `below` is how many directories may still be entered on the way down, which is three
-- less the depth, and `path` the directory. It ends at the first file with one of the names.
unfoldable mutual
  pub walk_entry : (Bytes → Bool) → ℕ → Bytes → Entry → Option Bytes
  walk_entry named below path (file base) = if named base then some (join_path path base) else none
  walk_entry named zero path (dir base es) = none
  walk_entry named (suc below) path (dir base es) =
      walk_entries named below (join_path path base) es

  pub walk_entries : (Bytes → Bool) → ℕ → Bytes → Entries → Option Bytes
  walk_entries named below path nil = none
  walk_entries named below path (cons e es) =
      or_else (walk_entry named below path e) (walk_entries named below path es)

abbrev pub max_depth : ℕ
max_depth = 3

-- the first candidate that exists
unfoldable pub first_existing : (Bytes → Option Bool) → List Bytes → Option Bytes
first_existing stat [] = none
first_existing stat (c ∷ cs) = elim (stat c) [ none ↦ first_existing stat cs | some _ ↦ some c ]

-- the first match that exists and is no directory
unfoldable pub first_plain : (Bytes → Option Bool) → List Bytes → Option Bytes
first_plain stat [] = none
first_plain stat (m ∷ ms) =
    let later = first_plain stat ms in
    elim (stat m) [ none ↦ later | some is_dir ↦ if is_dir then later else some m ]

unfoldable pub or_empty : Option Bytes → Bytes
or_empty none = []
or_empty (some p) = p

-- The search for a name that is not empty, and the same without its last colon.
unfoldable pub find_named : Files → Bytes → Bytes → Bytes → Option Bytes
unfolding or_else walk_entry first_existing first_plain
find_named fs root name trimmed =
    or_else (first_existing fs.stat (join_path root name ∷ join_path root trimmed ∷ [])) (
      or_else (first_plain fs.stat (fs.glob (join_path (join_path root (codes "*")) name))) (
        or_else (first_plain fs.stat (fs.glob (join_path (join_path root (codes "*")) trimmed)))
          (walk_entries (λ base. base == name || base == trimmed) max_depth root fs.tree)))

-- `FindLogFile`, whose error is always nil
unfoldable pub find_log_file : Files → Bytes → Bytes → Bytes
unfolding find_named or_empty
find_log_file fs root upid_raw =
    let name = trim_space upid_raw in
    if root == [] || upid_raw == []
    then []
    else if name == []
    then []
    else or_empty (find_named fs root name (trim_suffix name (codes ":")))
