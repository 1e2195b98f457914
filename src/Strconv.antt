-- ===== src/Strconv.antt =====
-- What the program uses of Go's `strconv` and of `fmt`'s `%d`: numbers read from and written to
-- text. A refusal is `none`: the program only tests whether there is an error.
pub mod Decimal
pub mod RoundTrip
pub mod Range
use proxmox_eventbus.Prelude.{
  ℕ, ◌+◌, ◌-◌, ◌*◌, ◌^◌, ◌≡◌, refl, Bool, true, false, ◌&&◌, [], ◌∷◌, Option, none, some, Bytes,
  codes, ◌==◌, nat_eq, leb, ltb, if◌then◌else◌, ℤ, pos, neg_ℕ,
}

-- The value of a digit, of either case of the letters.
unfoldable pub digit : ℕ → Option ℕ
digit c =
    if leb b'0' c && leb c b'9'
    then some (c - b'0')
    else if leb b'a' c && leb c b'z'
    then some (c - b'a' + 10)
    else if leb b'A' c && leb c b'Z'
    then some (c - b'A' + 10)
    else none

-- The digit's value, if it is below the base.
unfoldable pub digit_in : ℕ → ℕ → Option ℕ
unfolding digit
digit_in base c = elim (digit c) [ none ↦ none | some d ↦ if ltb d base then some d else none ]

-- The value of the digits behind those that make `n`.
unfoldable pub digits_value : ℕ → ℕ → Bytes → Option ℕ
unfolding digit_in
digits_value base n [] = some n
digits_value base n (c ∷ s) = elim (digit_in base c) [
  | none ↦ none
  | some d ↦ digits_value base (n * base + d) s
]

-- `strconv.ParseUint(s, base, bits)`
unfoldable pub parse_uint : Bytes → ℕ → ℕ → Option ℕ
unfolding digits_value
parse_uint [] base bits = none
parse_uint (c ∷ s) base bits = elim (digits_value base 0 (c ∷ s)) [
  | none ↦ none
  | some n ↦ if ltb n (2 ^ bits) then some n else none
]

-- The digits behind a sign, in the range of a signed integer of `bits` bits.
signed_value : Bool → Option ℕ → ℕ → Option ℤ
signed_value negative none bits = none
signed_value negative (some n) bits =
    if negative
    then (if leb n (2 ^ (bits - 1)) then some (neg_ℕ n) else none)
    else (if ltb n (2 ^ (bits - 1)) then some (pos n) else none)

-- `strconv.ParseInt(s, base, bits)`
unfoldable pub parse_int : Bytes → ℕ → ℕ → Option ℤ
unfolding parse_uint signed_value
parse_int [] base bits = none
parse_int (c ∷ s) base bits =
    if c == b'-'
    then signed_value true (parse_uint s base bits) bits
    else if c == b'+'
    then signed_value false (parse_uint s base bits) bits
    else signed_value false (parse_uint (c ∷ s) base bits) bits

-- `strconv.Atoi`, where `int` has 64 bits.
unfoldable pub atoi : Bytes → Option ℤ
unfolding parse_int
atoi s = parse_int s 10 64
