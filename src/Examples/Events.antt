-- ===== src/Examples/Events.antt =====
-- Subjects of concrete events.
use proxmox_eventbus.Prelude.{◌≡◌, refl, codes, pos, arith}
use proxmox_eventbus.Events.{kind_qemu, action_migrate, phase_started, subject_lifecycle}
use proxmox_eventbus.Events.Subject.{AreTokens, SameSubject, subject_lifecycle-injective}

migrate_subject :
    subject_lifecycle
      (codes "hz.ero")
      (codes "pve1")
      kind_qemu
      (pos 101)
      action_migrate
      phase_started
    ≡ codes "pve.hz_ero.pve1.qemu.101.migrate.started"
unfolding subject_lifecycle
migrate_subject = refl

migrate_tokens : AreTokens kind_qemu action_migrate phase_started
migrate_tokens = record {
  kind_token = omega arith;
  action_token = omega arith;
  phase_token = omega arith;
}

subject_lifecycle-injective_example :
    SameSubject
      (codes "a.b")
      (codes "a b")
      (codes "pve1")
      (codes "pve1")
      kind_qemu
      kind_qemu
      (pos 101)
      (pos 101)
      action_migrate
      action_migrate
      phase_started
      phase_started
unfolding subject_lifecycle
subject_lifecycle-injective_example =
    subject_lifecycle-injective (codes "a.b") (codes "a b") (codes "pve1") (codes "pve1") kind_qemu
      kind_qemu (pos 101) (pos 101) action_migrate action_migrate phase_started phase_started
      migrate_tokens migrate_tokens (omega arith) (omega arith) refl
