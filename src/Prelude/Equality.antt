-- ===== src/Prelude/Equality.antt =====
-- Byte strings, and one equality test for every type that has an instance.
use Prim.Native.Char.{code}
use Prim.Native.String.{String}
use Prim.Native.Nat.{ℕ}
use mathlib.Core.Path.{◌≡◌, refl}
use mathlib.Core.Logic.{◌↔◌, ◌≢◌}
use mathlib.Core.Bool.{Bool, true, false, ◌&&◌}
use mathlib.Core.List.{List, [], ◌∷◌}
use native.Mathlib.Omega.{arith}
use proxmox_eventbus.Prelude.Tests.{nat_beq, nat_beq_iff}
use proxmox_eventbus.Prelude.Lists.{All}

-- A Go string: its bytes.
abbrev pub Bytes : Type 0
Bytes = List ℕ

-- The code points of a literal; these are its bytes when the text is ASCII.
abbrev pub codes : String → Bytes
codes String.[] = []
codes (String.◌∷◌ c s) = code c ∷ codes s

-- Equality of two strings.
unfoldable pub bytes_beq : Bytes → Bytes → Bool
bytes_beq [] [] = true
bytes_beq [] (d ∷ t) = false
bytes_beq (c ∷ s) [] = false
bytes_beq (c ∷ s) (d ∷ t) = nat_beq c d && bytes_beq s t

pub bytes_beq_iff : (s t : Bytes) → (bytes_beq s t ≡ true) ↔ (s ≡ t)
unfolding bytes_beq
bytes_beq_iff [] [] = ground arith
bytes_beq_iff [] (d ∷ t) = ground arith
bytes_beq_iff (c ∷ s) [] = ground arith
bytes_beq_iff (c ∷ s) (d ∷ t) = ground (arith, bytes_beq_iff s t)

pub bytes_beq_refl : (s : Bytes) → bytes_beq s s ≡ true
bytes_beq_refl s = (bytes_beq_iff s s).1 refl

-- The types whose values Go compares with `==` here: a test that finds a value equal to itself, and
-- equal values only.
pub record Comparable {ℓ} (V : Type ℓ) : Type ℓ where
  pub same : V → V → Bool
  pub same_self : (v : V) → same v v ≡ true
  pub same_sound : (v w : V) → same v w ≡ true → v ≡ w

infix 50 ◌==◌
abbrev pub ◌==◌ {ℓ} : {V : Type ℓ} ⦃c : Comparable V⦄ (v w : V) → Bool
◌==◌ ⦃c⦄ v w = c.same v w

instance abbrev pub bytes_eq : Comparable (List ℕ)
bytes_eq = record {
  same = bytes_beq;
  same_self = bytes_beq_refl;
  same_sound = λ s t. (bytes_beq_iff s t).0;
}

instance abbrev pub nat_eq : Comparable ℕ
nat_eq = record {
  same = nat_beq;
  same_self = λ n. (nat_beq_iff n n).1 refl;
  same_sound = λ m n. (nat_beq_iff m n).0;
}

pub bytes_beq_ne : (s t : Bytes) → s ≢ t → bytes_beq s t ≡ false
bytes_beq_ne s t h = ground (arith, bytes_beq_iff s t)

-- No byte of the text is `b`.
abbrev pub Lacks : ℕ → Bytes → Type 0
Lacks b = All (λ c. c ≢ b)
