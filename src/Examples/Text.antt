-- ===== src/Examples/Text.antt =====
-- Tests of the text functions that the model takes from Go's standard library.
use proxmox_eventbus.Prelude.{
  ◌≡◌, refl, true, false, [], ◌∷◌, ◌++◌, none, some, codes, bytes_beq, pos, negsuc, neg_ℕ,
}
use proxmox_eventbus.Strings.Affix.{trim_suffix}
use proxmox_eventbus.Strings.Split.{split}
use proxmox_eventbus.Strings.Space.{trim_space, fields}
use proxmox_eventbus.Strings.Case.{to_lower}
use proxmox_eventbus.Strconv.{parse_int, atoi}
use proxmox_eventbus.Strconv.Decimal.{format_int}
use proxmox_eventbus.Bufio.{scan_lines}

trims : trim_space (codes " \t a b\r\n") ≡ codes "a b"
unfolding trim_space
trims = refl

splits : fields (0xC2 ∷ 0xA0 ∷ codes "ab  c ") ≡ codes "ab" ∷ codes "c" ∷ []
unfolding fields
splits = refl

lowers : to_lower (codes "-Target" ++ 0xC4 ∷ 0xB0 ∷ codes "D") ≡ codes "-targetid"
unfolding to_lower
lowers = refl

atoi_tests :
    (atoi (codes "101") ≡ some (pos 101))
    × (atoi (codes "-7") ≡ some (neg_ℕ 7))
    × (atoi (codes "") ≡ none)
    × (atoi (codes "+") ≡ none)
    × (atoi (codes "1a") ≡ none)
    × (atoi (codes "9223372036854775808") ≡ none)
    × (parse_int (codes "7fffFFFF") 16 32 ≡ some (pos 2147483647))
    × (parse_int (codes "80000000") 16 32 ≡ none)
unfolding atoi
atoi_tests = (refl, refl, refl, refl, refl, refl, refl, refl)

prints : format_int (negsuc 1233) ≡ codes "-1234"
unfolding format_int
prints = refl

scans :
    scan_lines 8 (record { content = codes "ab\r\n\ncd"; fault = false })
    ≡ (codes "ab" ∷ [] ∷ codes "cd" ∷ [], true)
unfolding scan_lines split trim_suffix bytes_beq
scans = refl

stops_early :
    scan_lines 3 (record { content = codes "ab\nabc\na"; fault = false }) ≡ (codes "ab" ∷ [], false)
unfolding scan_lines split trim_suffix bytes_beq
stops_early = refl
