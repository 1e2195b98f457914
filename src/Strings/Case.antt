-- ===== src/Strings/Case.antt =====
-- `ToLower` and `EqualFold` of Go's `strings`, as far as a comparison with ASCII text can tell.
--
-- Of the runes above ASCII two have an ASCII lower case, U+0130 (i) and U+212A (k); all others, and
-- the bytes of invalid UTF-8, stay above ASCII, and are left as they are here. The program only
-- compares the results with ASCII literals. `EqualFold` is called with "migrate" alone, to whose
-- letters no rune above ASCII folds.
use proxmox_eventbus.Prelude.{
  ℕ, zero, suc, ◌+◌, Bool, ◌&&◌, [], ◌∷◌, map, Bytes, ◌==◌, nat_eq, bytes_eq, leb, if◌then◌else◌,
  bytes_beq,
}

unfoldable pub lower : ℕ → ℕ
lower c = if leb b'A' c && leb c b'Z' then c + 32 else c

-- the byte that stands for the lower case of the rune that begins with `c`, and how many more
-- bytes the rune has
lower_rune : ℕ → Bytes → ℕ × ℕ
unfolding lower
lower_rune c [] = (lower c, 0)
lower_rune c (d ∷ []) = if c == 0xC4 && d == 0xB0 then (b'i', 1) else (lower c, 0)
lower_rune c (d ∷ e ∷ _) =
    if c == 0xC4 && d == 0xB0
    then (b'i', 1)
    else if c == 0xE2 && d == 0x84 && e == 0xAA
    then (b'k', 2)
    else (lower c, 0)

-- the first `n` bytes belong to a rune that is done
lower_from : ℕ → Bytes → Bytes
unfolding lower_rune
lower_from n [] = []
lower_from zero (c ∷ s) = let (d, more) = lower_rune c s in d ∷ lower_from more s
lower_from (suc n) (c ∷ s) = lower_from n s

-- `strings.ToLower`
unfoldable pub to_lower : Bytes → Bytes
unfolding lower_from
to_lower = lower_from 0

-- `strings.EqualFold`
unfoldable pub equal_fold : Bytes → Bytes → Bool
unfolding lower bytes_beq
equal_fold s t = map lower s == map lower t
