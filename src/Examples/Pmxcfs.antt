-- ===== src/Examples/Pmxcfs.antt =====
-- A configuration of a guest.
use proxmox_eventbus.Prelude.{
  ◌≡◌, refl, true, [], ◌∷◌, ◌++◌, Option, none, some, Bytes, codes, bytes_beq, List, map, pos,
  arith,
}
use proxmox_eventbus.Strings.Affix.{has_prefix, trim_right}
use proxmox_eventbus.Strings.Split.{cut}
use proxmox_eventbus.Strings.Space.{trim_space}
use proxmox_eventbus.Events.{kind_qemu, Time}
use proxmox_eventbus.Pmxcfs.Members.{Members, Reader}
use proxmox_eventbus.Pmxcfs.Members.Recent.{Call, AllRecent, run_members, run_members-AllRecent}
use proxmox_eventbus.Pmxcfs.VmConf.{config_lines, new_config}
use proxmox_eventbus.Pmxcfs.VmConf.Laws.{IsPair, pair_line, set_keys, config_lines-section}

abbrev pairs : List (Bytes × Bytes)
pairs = (codes "name", codes "web1") ∷ (codes "tags", codes "a;b") ∷ []

name-IsPair : IsPair (codes "name", codes "web1")
unfolding has_prefix trim_right trim_space
name-IsPair = record {
  key_ne = λ e. cc;
  key_plain = (
    (omega arith, omega arith),
    ((omega arith, omega arith), ((omega arith, omega arith), ((omega arith, omega arith), tt))),
  );
  key_lacks = omega arith;
  no_comment = refl;
  no_section = refl;
  whole_line = refl;
  value_trimmed = refl;
}

tags-IsPair : IsPair (codes "tags", codes "a;b")
unfolding has_prefix trim_right trim_space
tags-IsPair = record {
  key_ne = λ e. cc;
  key_plain = (
    (omega arith, omega arith),
    ((omega arith, omega arith), ((omega arith, omega arith), ((omega arith, omega arith), tt))),
  );
  key_lacks = omega arith;
  no_comment = refl;
  no_section = refl;
  whole_line = refl;
  value_trimmed = refl;
}

config_lines-section_example :
    config_lines
      (map pair_line pairs ++ codes "[snap]" ∷ codes "name: old" ∷ [])
      (new_config kind_qemu (pos 101))
    ≡ (set_keys pairs (new_config kind_qemu (pos 101)), true)
unfolding trim_right
config_lines-section_example =
    config_lines-section pairs (codes "snap]") (codes "name: old" ∷ [])
      (new_config kind_qemu (pos 101)) (name-IsPair, (tags-IsPair, tt)) refl

reads_name :
    (config_lines
      (codes "# c" ∷ codes "name: web1\r" ∷ codes "[x]" ∷ codes "name: y" ∷ [])
      (new_config kind_qemu (pos 101))).0.name
    ≡ codes "web1"
unfolding config_lines bytes_beq has_prefix trim_right cut trim_space
reads_name = refl

abbrev seen_at : Time → Option Members
seen_at t = some (record {
  node_name = codes "pve1";
  cluster = record { name = codes "lab"; nodes = pos 1; quorate = pos 1; version = pos t };
  node_list = [];
})

abbrev empty_reader : Reader
empty_reader = record { members = none; loaded = 0 }

-- The second call is answered from the cache, and the third is not, which reads slowly.
abbrev times : List Call
times =
    record { check = 5; read = 6; stamp = 8 }
    ∷ record { check = 2000000007; read = 2000000007; stamp = 2000000007 }
    ∷ record { check = 3000000000; read = 3000000010; stamp = 3000000030 }
    ∷ []

run_members-AllRecent_example : AllRecent seen_at 20 (run_members seen_at 20 empty_reader times)
run_members-AllRecent_example =
    run_members-AllRecent seen_at 20 empty_reader times (λ m e. cc e) (omega arith)

-- The second value is two seconds old and more: the file was read at 6, and `loaded` is 8.
returned :
    map (λ p. p.1) (run_members seen_at 20 empty_reader times)
    ≡ seen_at 6 ∷ seen_at 6 ∷ seen_at 3000000010 ∷ []
unfolding run_members
returned = refl
