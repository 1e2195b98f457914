-- ===== src/Prelude/GoMap.antt =====
-- Go's `map[string]V`, as the function from a key to what the map holds under it. The program
-- ranges over such a map only to delete from it, so the order of the entries is not modelled.
use mathlib.Core.Path.{◌≡◌}
use mathlib.Core.Logic.{◌≢◌}
use mathlib.Core.Option.{Option, none, some}
use proxmox_eventbus.Prelude.Tests.{if◌then◌else◌}
use proxmox_eventbus.Prelude.Equality.{Bytes, bytes_beq, bytes_beq_refl, bytes_beq_ne}

abbrev pub GoMap {ℓ} : Type ℓ → Type ℓ
GoMap V = Bytes → Option V

module _ {ℓ} {V : Type ℓ} where
  abbrev pub empty : GoMap V
  empty k = none

  -- `m[k] = v`
  abbrev pub set : GoMap V → Bytes → V → GoMap V
  set m k v j = if bytes_beq j k then some v else m j

  -- `delete(m, k)`
  abbrev pub delete : GoMap V → Bytes → GoMap V
  delete m k j = if bytes_beq j k then none else m j

  -- `m[k]`, the zero value `d` where the key is missing
  abbrev pub get_or : Option V → V → V
  get_or none d = d
  get_or (some v) d = v

  pub set_self : (m : GoMap V) (k : Bytes) (v : V) → set m k v k ≡ some v
  set_self m k v = rw (bytes_beq_refl k)

  pub set_ne : (m : GoMap V) (k j : Bytes) (v : V) → j ≢ k → set m k v j ≡ m j
  set_ne m k j v h = rw (bytes_beq_ne j k h)

  pub delete_self : (m : GoMap V) (k : Bytes) → delete m k k ≡ none
  delete_self m k = rw (bytes_beq_refl k)

  pub delete_ne : (m : GoMap V) (k j : Bytes) → j ≢ k → delete m k j ≡ m j
  delete_ne m k j h = rw (bytes_beq_ne j k h)
