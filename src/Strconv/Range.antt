-- ===== src/Strconv/Range.antt =====
-- What is parsed is in range.
use native.Mathlib.Nat.{one-le-pow}
use proxmox_eventbus.Prelude.{
  ℕ, ◌<◌, ◌^◌, ◌-◌, ◌≡◌, Bool, true, false, [], ◌∷◌, arith, Bytes, nat_eq, Option, none, some, ℤ,
  pos, negsuc,
}
use proxmox_eventbus.Strconv.{parse_int, parse_uint, signed_value}

-- The range of a signed integer of `bits` bits.
abbrev pub InBits : ℕ → ℤ → Type 0
InBits bits (pos n) = n < 2 ^ (bits - 1)
InBits bits (negsuc n) = n < 2 ^ (bits - 1)

signed_value-InBits :
    (negative : Bool) (v : Option ℕ) (bits : ℕ) (z : ℤ)
    → signed_value negative v bits ≡ some z
    → InBits bits z
unfolding signed_value
signed_value-InBits negative none bits z h = cc
signed_value-InBits true (some n) bits (pos m) h =
    ground (arith, one-le-pow (bits - 1) 2 (omega arith))
signed_value-InBits true (some n) bits (negsuc m) h = ground arith
signed_value-InBits false (some n) bits (pos m) h = ground arith
signed_value-InBits false (some n) bits (negsuc m) h = ground arith

pub parse_int-InBits :
    (s : Bytes) (base bits : ℕ) (z : ℤ) → parse_int s base bits ≡ some z → InBits bits z
unfolding parse_int
parse_int-InBits [] base bits z h = cc
parse_int-InBits (c ∷ s) base bits z h = ground (
  arith,
  signed_value-InBits true (parse_uint s base bits) bits z,
  signed_value-InBits false (parse_uint s base bits) bits z,
  signed_value-InBits false (parse_uint (c ∷ s) base bits) bits z,
)

pub parse_uint-lt : (s : Bytes) (base bits n : ℕ) → parse_uint s base bits ≡ some n → n < 2 ^ bits
unfolding parse_uint
parse_uint-lt [] base bits n h = cc
parse_uint-lt (c ∷ s) base bits n h = ground arith
