-- ===== src/Strconv/RoundTrip.antt =====
-- A number that is written in decimal is read back.
use proxmox_eventbus.Prelude.{
  true, ℕ, zero, suc, Bool-cases, nat_beq, nat_beq_iff, inl, inr, ◌∙◌, subst, ◌+◌, ◌*◌, ◌/◌, ◌%◌,
  ◌^◌, ◌≤◌, ◌<◌, ◌≡◌, ◌≢◌, refl, ap, sym, [], ◌∷◌, some, Bytes, nat_eq, ℤ, pos, negsuc, false,
  arith, All, Lacks, All-map, lt→ltb,
}
use proxmox_eventbus.Strconv.{digit_in, digits_value, parse_uint, parse_int, signed_value, atoi}
use proxmox_eventbus.Strconv.Decimal.{digits, format_nat, format_int}

abbrev pub IsDigit : ℕ → Type 0
IsDigit c = (b'0' ≤ c) × (c ≤ b'9')

digit-IsDigit : (d : ℕ) → d < 10 → digit_in 10 (b'0' + d) ≡ some d
unfolding digit_in
digit-IsDigit d h = ground arith

-- reading the last digit of `n` behind the digits before it gives `n`
value_last :
    (n : ℕ) (out : Bytes) → digits_value 10 (n / 10) ((b'0' + n % 10) ∷ out) ≡ digits_value 10 n out
unfolding digits_value
value_last n out =
    rw (digit-IsDigit (n % 10) (omega arith), digits_value)
      (let e : n / 10 * 10 + n % 10 ≡ n = omega arith in rw e)

-- The two cases of a round.
digits_done :
    (rounds n : ℕ) (written : Bytes) → nat_beq n 0 ≡ true → digits (suc rounds) n written ≡ written
unfolding digits
digits_done rounds n written e = rw (e, digits)

digits_more :
    (rounds n : ℕ) (written : Bytes)
    → nat_beq n 0 ≡ false
    → digits (suc rounds) n written ≡ digits rounds (n / 10) ((b'0' + n % 10) ∷ written)
unfolding digits
digits_more rounds n written e = rw (e, digits)

value-digits :
    (rounds n : ℕ) (written : Bytes)
    → n ≤ rounds
    → digits_value 10 0 (digits rounds n written) ≡ digits_value 10 n written
value-digits zero n written h = let e : n ≡ 0 = omega arith in rw e (unfold digits in refl)
value-digits (suc rounds) n written h = elim (Bool-cases (nat_beq n 0)) [
  | inl e ↦
      ap (digits_value 10 0) (digits_done rounds n written e)
      ∙ ap (λ m. digits_value 10 m written) (sym ((nat_beq_iff n 0).0 e))
  | inr e ↦
      ap (digits_value 10 0) (digits_more rounds n written e)
      ∙ value-digits rounds (n / 10) ((b'0' + n % 10) ∷ written)
          (below rounds n h (ground (arith, nat_beq_iff n 0)))
      ∙ value_last n written
]
  where
    below : (r n : ℕ) → n ≤ suc r → n ≢ 0 → n / 10 ≤ r
    below r n h k = omega arith

-- The loop adds digits, and takes nothing away.
digits-IsDigit :
    (rounds n : ℕ) (written : Bytes) → All IsDigit written → All IsDigit (digits rounds n written)
digits-IsDigit zero n written h = unfold digits in h
digits-IsDigit (suc rounds) n written h = elim (Bool-cases (nat_beq n 0)) [
  | inl e ↦ subst (All IsDigit) (sym (digits_done rounds n written e)) h
  | inr e ↦
      subst (All IsDigit) (sym (digits_more rounds n written e))
        (digits-IsDigit rounds (n / 10) ((b'0' + n % 10) ∷ written) ((omega arith, omega arith), h))
]

digits-ne-nil : (rounds n : ℕ) (written : Bytes) → written ≢ [] → digits rounds n written ≢ []
digits-ne-nil zero n written h = unfold digits in h
digits-ne-nil (suc rounds) n written h = elim (Bool-cases (nat_beq n 0)) [
  | inl e ↦ subst (λ s. s ≢ []) (sym (digits_done rounds n written e)) h
  | inr e ↦
      subst (λ s. s ≢ []) (sym (digits_more rounds n written e))
        (digits-ne-nil rounds (n / 10) ((b'0' + n % 10) ∷ written) (λ i. cc))
]

format_nat-ne-nil : (n : ℕ) → format_nat n ≢ []
unfolding format_nat
format_nat-ne-nil zero = λ i. cc
format_nat-ne-nil (suc n) =
    subst (λ s. s ≢ []) (sym (digits_more n (suc n) [] (ground arith)))
      (digits-ne-nil n (suc n / 10) ((b'0' + suc n % 10) ∷ []) (λ i. cc))

pub format_nat-IsDigit : (n : ℕ) → All IsDigit (format_nat n)
unfolding format_nat
format_nat-IsDigit zero = ((omega arith, omega arith), tt)
format_nat-IsDigit (suc n) = digits-IsDigit (suc n) (suc n) [] tt

-- The digits of a number have its value.
value-format_nat : (n : ℕ) → digits_value 10 0 (format_nat n) ≡ some n
unfolding format_nat digits_value
value-format_nat zero = ground (arith, digit-IsDigit 0)
value-format_nat (suc n) = value-digits (suc n) (suc n) [] (omega arith)

parse_uint-value :
    (s : Bytes) (base bits n : ℕ)
    → s ≢ []
    → digits_value base 0 s ≡ some n
    → n < 2 ^ bits
    → parse_uint s base bits ≡ some n
unfolding parse_uint
parse_uint-value [] base bits n h _ _ = absurd (h refl)
parse_uint-value (c ∷ s) base bits n _ e h = rw (e, parse_uint) (rw (lt→ltb n (2 ^ bits) h))

-- A number is read back from its decimal digits.
pub parse_uint-format_nat : (n bits : ℕ) → n < 2 ^ bits → parse_uint (format_nat n) 10 bits ≡ some n
parse_uint-format_nat n bits h =
    parse_uint-value (format_nat n) 10 bits n (format_nat-ne-nil n) (value-format_nat n) h

-- The range of Go's `int`.
abbrev pub InInt : ℤ → Type 0
InInt (pos n) = n < 2 ^ 63
InInt (negsuc n) = n < 2 ^ 63

parse_int-digit :
    (s : Bytes) (base bits : ℕ)
    → s ≢ []
    → All IsDigit s
    → parse_int s base bits ≡ signed_value false (parse_uint s base bits) bits
unfolding parse_int
parse_int-digit [] base bits n h = absurd (n refl)
parse_int-digit (c ∷ s) base bits n (hc, h) = ground arith

-- `Atoi` reads back every `int` that `%d` writes.
pub atoi-format_int : (z : ℤ) → InInt z → atoi (format_int z) ≡ some z
unfolding atoi format_int
atoi-format_int (pos n) h =
    rw
      (
        parse_int-digit (format_nat n) 10 64 (format_nat-ne-nil n) (format_nat-IsDigit n),
        parse_uint-format_nat n 64 (omega arith),
        signed_value,
      )
      (ground arith)
atoi-format_int (negsuc n) h =
    unfold parse_int in
    rw (parse_uint-format_nat (suc n) 64 (omega arith), signed_value) (ground arith)

-- Distinct numbers are written differently.
pub format_int-injective : (y z : ℤ) → InInt y → InInt z → format_int y ≡ format_int z → y ≡ z
format_int-injective y z hy hz e = cc (atoi-format_int y hy, atoi-format_int z hz, ap atoi e)

digit-ne : (b : ℕ) → b < b'0' → (c : ℕ) → IsDigit c → c ≢ b
digit-ne b h c d = omega arith

-- A written number holds no byte below the digits but a leading minus.
pub format_int-Lacks : (b : ℕ) (z : ℤ) → b < b'0' → b ≢ b'-' → Lacks b (format_int z)
unfolding format_int
format_int-Lacks b (pos n) h k = All-map _ _ (format_nat n) (digit-ne b h) (format_nat-IsDigit n)
format_int-Lacks b (negsuc n) h k =
    ((λ e. k (sym e)), All-map _ _ (format_nat (suc n)) (digit-ne b h) (format_nat-IsDigit (suc n)))

pub format_int-ne-nil : (z : ℤ) → format_int z ≢ []
unfolding format_int
format_int-ne-nil (pos n) = format_nat-ne-nil n
format_int-ne-nil (negsuc n) = λ e. cc
