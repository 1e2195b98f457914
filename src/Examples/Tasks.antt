-- ===== src/Examples/Tasks.antt =====
-- UPIDs, lines of the task log and worker types.
use proxmox_eventbus.Prelude.{◌≡◌, refl, [], ◌++◌, some, Bytes, codes, bytes_beq, pos, arith}
use proxmox_eventbus.Prelude.Result.{ok, err}
use proxmox_eventbus.Strings.Affix.{has_prefix, trim_suffix}
use proxmox_eventbus.Strings.Split.{split, join}
use proxmox_eventbus.Strings.Space.{trim_space, fields}
use proxmox_eventbus.Strconv.{parse_int}
use proxmox_eventbus.Events.{kind_qemu, action_migrate}
use proxmox_eventbus.Tasks.Status.{parse_status_tail, is_hex}
use proxmox_eventbus.Tasks.Status.Forms.{saved}
use proxmox_eventbus.Tasks.Upid.{
  Upid, parse_upid, parse_active_line, missing_prefix, too_few_fields, bad_pid,
}
use proxmox_eventbus.Tasks.Upid.Format.{Fields, format, Denotes, parse_upid-format}
use proxmox_eventbus.Tasks.Upid.Lines.{parse_active_line-Form}
use proxmox_eventbus.Tasks.Workers.{worker_type_map}

status_tests :
    (parse_status_tail (codes "") ≡ [])
    × (parse_status_tail (codes " 0 ") ≡ [])
    × (parse_status_tail (codes "1 6645A1FF OK") ≡ codes "OK")
    × (parse_status_tail (codes "6645A1FF job  errors") ≡ codes "job errors")
    × (parse_status_tail (codes "1 zz") ≡ codes "zz")
unfolding parse_status_tail trim_space fields join bytes_beq
status_tests = (refl, refl, refl, refl, refl)

migrates : worker_type_map (codes "qmigrate") ≡ some (kind_qemu, action_migrate)
unfolding worker_type_map bytes_beq
migrates = refl

abbrev migrate_fields : Fields
migrate_fields = record {
  node = codes "pve1";
  pid = codes "00001234";
  pstart = codes "0ABCDEF0";
  start = codes "6645A1B2";
  type = codes "qmigrate";
  id = codes "101";
  user = codes "root@pam";
}

abbrev migrate_text : Bytes
migrate_text = codes "UPID:pve1:00001234:0ABCDEF0:6645A1B2:qmigrate:101:root@pam:"

abbrev migrate_upid : Upid
migrate_upid = record {
  node = codes "pve1";
  pid = pos 0x1234;
  pstart = 0x0ABCDEF0;
  start_time = pos 0x6645A1B2;
  type = codes "qmigrate";
  id = codes "101";
  user = codes "root@pam";
  raw = migrate_text;
}

migrate_denoted : Denotes migrate_fields migrate_upid
unfolding parse_int
migrate_denoted = record {
  node = refl;
  pid = refl;
  pstart = refl;
  start_time = refl;
  type = refl;
  id = refl;
  user = refl;
}

parse_migrate : parse_upid migrate_text ≡ ok migrate_upid
unfolding parse_upid split parse_int bytes_beq has_prefix trim_suffix
parse_migrate = refl

parse_upid-format_example : parse_upid (format migrate_fields) ≡ ok migrate_upid
unfolding format join
parse_upid-format_example =
    parse_upid-format migrate_fields migrate_upid (omega arith) migrate_denoted refl

parse_active_line-Form_example :
    (parse_active_line (migrate_text ++ codes " 1 6645A1FF OK") ≡ ok (migrate_upid, codes "OK"))
    × (parse_active_line migrate_text ≡ ok (migrate_upid, []))
unfolding join is_hex
parse_active_line-Form_example =
    parse_active_line-Form migrate_text migrate_upid ((λ e. cc), omega arith) parse_migrate
      (saved (codes "6645A1FF") (codes "OK") [] refl (((λ e. cc), omega arith), tt))

refused :
    (parse_upid (codes "pve1:1:2:3") ≡ err missing_prefix)
    × (parse_upid (codes "UPID:pve1:00001234:") ≡ err too_few_fields)
    × (parse_upid (codes "UPID:pve1:zz:0ABCDEF0:6645A1B2:qmigrate:101:root@pam:") ≡ err bad_pid)
unfolding parse_upid split parse_int bytes_beq has_prefix trim_suffix
refused = (refl, refl, refl)
