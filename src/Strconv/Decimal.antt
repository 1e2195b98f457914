-- ===== src/Strconv/Decimal.antt =====
-- `fmt.Sprintf("%d", n)` and `strconv.Itoa`.
use proxmox_eventbus.Prelude.{
  ℕ, zero, suc, ◌+◌, ◌/◌, ◌%◌, true, false, [], ◌∷◌, Bytes, ◌==◌, nat_eq, ℤ, pos, negsuc,
}

-- The loop that divides by ten, for at most so many rounds: the digits of the number in front of
-- those that are written.
unfoldable pub digits : ℕ → ℕ → Bytes → Bytes
digits zero n written = written
digits (suc rounds) n written = elim (n == 0) [
  | true ↦ written
  | false ↦ digits rounds (n / 10) ((b'0' + n % 10) ∷ written)
]

-- A number is a tenth of itself or less in each next round, so as many rounds as its value are
-- enough.
unfoldable pub format_nat : ℕ → Bytes
unfolding digits
format_nat zero = b'0' ∷ []
format_nat (suc n) = digits (suc n) (suc n) []

-- `%d`
unfoldable pub format_int : ℤ → Bytes
unfolding format_nat
format_int (pos n) = format_nat n
format_int (negsuc n) = b'-' ∷ format_nat (suc n)
