-- ===== src/Examples/LogFile.antt =====
-- The search for the log file of a task.
use proxmox_eventbus.Prelude.{arith, Option, ◌≡◌, refl, [], none, Bytes, codes, bytes_eq, bytes_beq}
use proxmox_eventbus.Filepath.{join_path}
use proxmox_eventbus.Strings.Affix.{has_prefix, trim_suffix}
use proxmox_eventbus.Strings.Space.{trim_space}
use proxmox_eventbus.Tasks.LogFile.{Entry, Entries, cons, nil, Files, or_empty, find_log_file}
use proxmox_eventbus.Tasks.LogFile.Walk.{AnswersTo}
use proxmox_eventbus.Tasks.LogFile.Search.{IsPlainName, GlobMatches, Lies, find_log_file-AnswersTo}

abbrev name : Bytes
name = codes "UPID:pve1:1:2:3:qmigrate:101:root@pam"

abbrev root : Bytes
root = codes "/var/log/pve/tasks"

-- The file lies in `3/0/a`, and a second one below a directory too deep.
abbrev tree : Entries
tree = cons (Entry.file (codes "active")) (
    cons
      (Entry.dir (codes "3") (
        cons (Entry.dir (codes "0") (cons (Entry.dir (codes "a") (cons (Entry.file name) nil)) nil))
          nil))
      nil)

abbrev files : Files
files = record { stat = λ p. none; glob = λ p. []; tree = tree }

abbrev raw : Bytes
raw = codes "UPID:pve1:1:2:3:qmigrate:101:root@pam:"

raw-IsPlainName : IsPlainName raw
unfolding bytes_beq
raw-IsPlainName =
    ((omega arith, refl, refl, refl), omega arith, omega arith, omega arith, omega arith)

name-IsPlainName : IsPlainName name
unfolding bytes_beq
name-IsPlainName =
    ((omega arith, refl, refl, refl), omega arith, omega arith, omega arith, omega arith)

-- No entry of the root has the name, nor has one of its directories.
files-GlobMatches : GlobMatches files root
files-GlobMatches = record { sound = λ n p h m. absurd m; complete = λ n d h hd s. s refl }

find_log_file-AnswersTo_example :
    (o : Option Bytes) × (find_log_file files root raw ≡ or_empty o)
    × AnswersTo (Lies files root (trim_space raw)) o
unfolding bytes_beq trim_space trim_suffix
find_log_file-AnswersTo_example =
    find_log_file-AnswersTo files root raw refl refl raw-IsPlainName name-IsPlainName
      files-GlobMatches

found :
    find_log_file files root (codes "UPID:pve1:1:2:3:qmigrate:101:root@pam:")
    ≡ codes "/var/log/pve/tasks/3/0/a/UPID:pve1:1:2:3:qmigrate:101:root@pam"
unfolding find_log_file join_path trim_space trim_suffix has_prefix bytes_beq
found = refl
