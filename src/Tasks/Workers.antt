-- ===== src/Tasks/Workers.antt =====
-- internal/tasks/workers.go
pub mod Table
use proxmox_eventbus.Prelude.{
  ℕ, ◌≡◌, refl, Bool, true, false, List, [], ◌∷◌, Option, none, some, Bytes, codes, ◌==◌, bytes_eq,
  bytes_beq, if◌then◌else◌,
}
use proxmox_eventbus.Tasks.Upid.{Upid}
use proxmox_eventbus.Events.{
  Kind, kind_qemu, kind_lxc, Action, action_start, action_stop, action_shutdown, action_reboot,
  action_reset, action_suspend, action_resume, action_migrate, action_clone, action_create,
  action_destroy, action_template,
}

pub record Worker : Type 0 where
  pub type : Bytes
  pub kind : Kind
  pub action : Action

abbrev worker : Bytes → Kind → Action → Worker
worker type kind action = record { type = type; kind = kind; action = action }

-- `workerTypes`
unfoldable pub worker_types : List Worker
worker_types =
    worker (codes "qmstart") kind_qemu action_start
    ∷ worker (codes "qmstop") kind_qemu action_stop
    ∷ worker (codes "qmshutdown") kind_qemu action_shutdown
    ∷ worker (codes "qmreboot") kind_qemu action_reboot
    ∷ worker (codes "qmreset") kind_qemu action_reset
    ∷ worker (codes "qmsuspend") kind_qemu action_suspend
    ∷ worker (codes "qmresume") kind_qemu action_resume
    ∷ worker (codes "qmigrate") kind_qemu action_migrate
    ∷ worker (codes "qmclone") kind_qemu action_clone
    ∷ worker (codes "qmcreate") kind_qemu action_create
    ∷ worker (codes "qmdestroy") kind_qemu action_destroy
    ∷ worker (codes "qmtemplate") kind_qemu action_template
    ∷ worker (codes "vzstart") kind_lxc action_start
    ∷ worker (codes "vzstop") kind_lxc action_stop
    ∷ worker (codes "vzshutdown") kind_lxc action_shutdown
    ∷ worker (codes "vzreboot") kind_lxc action_reboot
    ∷ worker (codes "vzsuspend") kind_lxc action_suspend
    ∷ worker (codes "vzresume") kind_lxc action_resume
    ∷ worker (codes "vzmigrate") kind_lxc action_migrate
    ∷ worker (codes "vzclone") kind_lxc action_clone
    ∷ worker (codes "vzcreate") kind_lxc action_create
    ∷ worker (codes "vzdestroy") kind_lxc action_destroy
    ∷ []

find : Bytes → List Worker → Option (Kind × Action)
find t [] = none
find t (w ∷ ws) = if t == w.type then some (w.kind, w.action) else find t ws

-- `WorkerTypeMap`
unfoldable pub worker_type_map : Bytes → Option (Kind × Action)
unfolding worker_types find
worker_type_map t = find t worker_types

-- `UPID.IsLifecycle`
unfoldable pub is_lifecycle : Upid → Bool
is_lifecycle u = elim (worker_type_map u.type) [ none ↦ false | some _ ↦ true ]
