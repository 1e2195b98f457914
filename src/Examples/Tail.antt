-- ===== src/Examples/Tail.antt =====
-- A line of `tail`.
use proxmox_eventbus.Prelude.{
  ◌≡◌, refl, subst, true, false, [], ◌∷◌, ◌++◌, none, some, Bytes, codes, pos, arith, bytes_beq,
}
use proxmox_eventbus.Strings.Affix.{has_prefix}
use proxmox_eventbus.Strconv.Decimal.{format_int}
use proxmox_eventbus.Tail.{Message, Envelope, Detail, Decoders, print_summary}
use proxmox_eventbus.Tail.Lines.{IsPlain, IsLine, HasPlainTexts, print_summary-IsLine}
use proxmox_eventbus.Tail.Setup.{run_tail}

abbrev detail : Detail
detail = record {
  action = codes "migrate";
  phase = codes "failed";
  state = [];
  state_detail = [];
  vmid = pos 101;
  name = codes "web";
  tags = codes "prod" ∷ codes "eu" ∷ [];
  source_node = codes "pve1";
  target_node = codes "pve2";
  duration_ms = some (pos 1500);
  exit_status = codes "no route\nto host";
  snapshot_count = pos 0;
}

abbrev event : Envelope
event = record {
  type = codes "dev.proxmox.eventbus.qemu.migrate.failed";
  clock = codes "12:34:56";
  raw = codes "{\n}";
}

-- A `%q` that leaves out what it would escape.
abbrev quoted : Bytes → Bytes
quoted s = codes "\"..\""

abbrev decoders : Decoders
decoders = record {
  envelope = λ text. some event;
  detail = λ raw. detail;
  quote = quoted;
  compact = λ raw. some (codes "{}");
}

abbrev message : Message
message = record { subject = codes "pve.lab.pve1.qemu.101.migrate.failed"; text = codes "{}" }

plain : (s : Bytes) → IsPlain (quoted s)
plain s = record { lacks_newline = omega arith }

plain_braces : IsPlain (codes "{}")
plain_braces = record { lacks_newline = omega arith }

compacted : (s t : Bytes) → decoders.compact s ≡ some t → IsPlain t
compacted s t e = subst IsPlain (cc e) (plain_braces)

detail-HasPlainTexts : HasPlainTexts detail
detail-HasPlainTexts = record {
  action = record { lacks_newline = omega arith };
  phase = record { lacks_newline = omega arith };
  state = record { lacks_newline = omega arith };
  state_detail = record { lacks_newline = omega arith };
  name = record { lacks_newline = omega arith };
  tags = (record { lacks_newline = omega arith }, (record { lacks_newline = omega arith }, tt));
  source_node = record { lacks_newline = omega arith };
  target_node = record { lacks_newline = omega arith };
}

print_summary-IsLine_example : IsLine (print_summary decoders [] true message)
print_summary-IsLine_example =
    print_summary-IsLine decoders [] true message event plain compacted refl
      (record { lacks_newline = omega arith }) (record { lacks_newline = omega arith })
      detail-HasPlainTexts

the_line :
    print_summary decoders [] false message
    ≡ codes "12:34:56  pve.lab.pve1.qemu.101.migrate.failed  vm=101(web)  migrate/failed"
      ++ codes "  pve1->pve2  took=1500ms  exit=\"..\"  tags=prod,eu\n"
unfolding print_summary has_prefix bytes_beq format_int
the_line = refl

statuses :
    (run_tail none (record {
      config_loads = true;
      tls_builds = true;
      connects = true;
      subscribes = λ s. true;
      flushes = true;
    })
      ≡ 2)
    × (run_tail (some (codes "pve.>" ∷ [])) (record {
      config_loads = true;
      tls_builds = true;
      connects = true;
      subscribes = λ s. false;
      flushes = true;
    })
        ≡ 1)
unfolding run_tail
statuses = (refl, refl)
