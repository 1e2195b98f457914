-- ===== src/Strings/Space.antt =====
-- `TrimSpace` and `Fields` of Go's `strings`, with the Unicode white space that Go cuts at.
--
-- A white space rune of several bytes can only begin at its own lead byte, so marking the bytes
-- that belong to one, from left to right, finds the runes that Go decodes, in invalid UTF-8 too.
pub mod Words
use proxmox_eventbus.Prelude.{
  ℕ, zero, suc, ◌≡◌, refl, Bool, true, false, ◌&&◌, ◌||◌, List, [], ◌∷◌, map, Bytes, codes, ◌==◌,
  nat_eq, leb, if◌then◌else◌,
}
use proxmox_eventbus.Strings.Affix.{trim_left, trim_right}
use proxmox_eventbus.Strings.Split.{fields_func, fields_from}

-- `\t \n \v \f \r` and the blank
unfoldable pub ascii_space : ℕ → Bool
ascii_space c = c == 32 || (leb 9 c && leb c 13)

-- U+0085 and U+00A0, behind the lead byte 0xC2.
c2_space : Bytes → ℕ
c2_space (d ∷ _) = if d == 0x85 || d == 0xA0 then 2 else 0
c2_space [] = 0

-- U+1680, behind the lead byte 0xE1.
e1_space : Bytes → ℕ
e1_space (d ∷ e ∷ _) = if d == 0x9A && e == 0x80 then 3 else 0
e1_space _ = 0

-- U+2000 to U+200A, U+2028, U+2029, U+202F and U+205F, behind the lead byte 0xE2.
e2_space : Bytes → ℕ
e2_space (d ∷ e ∷ _) =
    if d == 0x80 && (leb 0x80 e && leb e 0x8A || e == 0xA8 || e == 0xA9 || e == 0xAF)
    then 3
    else if d == 0x81 && e == 0x9F
    then 3
    else 0
e2_space _ = 0

-- U+3000, behind the lead byte 0xE3.
e3_space : Bytes → ℕ
e3_space (d ∷ e ∷ _) = if d == 0x80 && e == 0x80 then 3 else 0
e3_space _ = 0

-- The bytes of the white space rune that begins with `c`, 0 if none does (`unicode.IsSpace`).
unfoldable pub space_len : ℕ → Bytes → ℕ
unfolding ascii_space c2_space e1_space e2_space e3_space
space_len c s =
    if ascii_space c
    then 1
    else if c == 0xC2
    then c2_space s
    else if c == 0xE1
    then e1_space s
    else if c == 0xE2
    then e2_space s
    else if c == 0xE3
    then e3_space s
    else 0

-- Each byte, with the mark of those that belong to white space; the first `n` belong to a rune that
-- has begun.
unfoldable pub mark : ℕ → Bytes → List (ℕ × Bool)
unfolding space_len
mark n [] = []
mark zero (c ∷ s) = elim (space_len c s) [
  | zero ↦ (c, false) ∷ mark 0 s
  | suc k ↦ (c, true) ∷ mark k s
]
mark (suc n) (c ∷ s) = (c, true) ∷ mark n s

abbrev pub marked : ℕ × Bool → Bool
marked (c, space) = space

abbrev pub unmark : List (ℕ × Bool) → Bytes
unmark = map (λ m. m.0)

-- `strings.TrimSpace`
unfoldable pub trim_space : Bytes → Bytes
unfolding mark trim_left trim_right
trim_space s = unmark (trim_right marked (trim_left marked (mark 0 s)))

-- `strings.Fields`
unfoldable pub fields : Bytes → List Bytes
unfolding mark fields_from
fields s = map unmark (fields_func marked (mark 0 s))
