-- ===== src/Enrich/TaskLog.antt =====
-- internal/enrich/enrich.go: `migrateTargetLogRe` and `parseMigrateTargetFromLog`.
--
-- The expression is written out as the search it stands for: at each position from the left its
-- three alternatives in order, each loop as long as it can be. No shorter loop could go on, since
-- no byte that a loop takes can begin what follows it, but for the optional `[_ ]node` and `node`,
-- whose absence is tried as well. Case is ignored, and two runes above ASCII fold into `[a-z]`:
-- U+017F (s) and U+212A (k).
pub mod Lines
use proxmox_eventbus.Prelude.{
  ℕ, zero, suc, Bool, true, false, ◌&&◌, ◌||◌, [], ◌∷◌, Option, none, some, Bytes, codes, ◌==◌,
  nat_eq, bytes_eq, leb, if◌then◌else◌,
}
use proxmox_eventbus.Strings.Affix.{trim_left}
use proxmox_eventbus.Strings.Case.{lower}
use proxmox_eventbus.Enrich.Target.{guarded}

-- `\s`
unfoldable pub re_space : ℕ → Bool
re_space c = c == 32 || c == 9 || c == 10 || c == 12 || c == 13

-- what is behind the literal, whose letters are small
unfoldable pub after_literal : Bytes → Bytes → Option Bytes
unfolding lower
after_literal [] s = some s
after_literal (p ∷ ps) [] = none
after_literal (p ∷ ps) (c ∷ s) = if lower c == p then after_literal ps s else none

-- behind `\s+`
unfoldable pub after_spaces : Bytes → Option Bytes
unfolding re_space trim_left
after_spaces [] = none
after_spaces (c ∷ s) = if re_space c then some (trim_left re_space s) else none

-- behind `\s*[=:]\s*`
unfoldable pub after_sign : Bytes → Option Bytes
unfolding re_space trim_left
after_sign s = elim (trim_left re_space s) [
  | [] ↦ none
  | c ∷ r ↦ if c == b'=' || c == b':' then some (trim_left re_space r) else none
]

-- How many bytes the rune at the front has, if it is in `[a-z0-9]`, or in the class with `._-` too.
unfoldable pub class_len : Bool → ℕ → Bytes → ℕ
unfolding lower
class_len more c s =
    if leb b'a' (lower c) && leb (lower c) b'z' || leb b'0' c && leb c b'9'
    then 1
    else if more && (c == b'.' || c == b'_' || c == b'-')
    then 1
    else elim s [
      | [] ↦ 0
      | d ∷ [] ↦ if c == 0xC5 && d == 0xBF then 2 else 0
      | d ∷ e ∷ _ ↦
          if c == 0xC5 && d == 0xBF then 2 else if c == 0xE2 && d == 0x84 && e == 0xAA then 3 else 0
    ]

-- the longest run of the class; the first `n` bytes belong to a rune that has begun
unfoldable pub class_run : ℕ → Bytes → Bytes
unfolding class_len
class_run n [] = []
class_run zero (c ∷ s) = elim (class_len true c s) [ zero ↦ [] | suc k ↦ c ∷ class_run k s ]
class_run (suc n) (c ∷ s) = c ∷ class_run n s

-- the group, at the front of a text
unfoldable pub name_at : Bytes → Option Bytes
unfolding class_run
name_at [] = none
name_at (c ∷ s) = elim (class_len false c s) [ zero ↦ none | suc k ↦ some (c ∷ class_run k s) ]

-- the group behind an optional quote; a quote is in no class
unfoldable pub quoted_name : Bytes → Option Bytes
unfolding name_at
quoted_name [] = none
quoted_name (c ∷ s) = if c == 34 || c == 39 then name_at s else name_at (c ∷ s)

unfoldable pub then_try : Option Bytes → (Bytes → Option Bytes) → Option Bytes
then_try none f = none
then_try (some s) f = f s

unfoldable pub or_try : Option Bytes → Option Bytes → Option Bytes
or_try (some s) o = some s
or_try none o = o

-- `target(?:[_ ]node)?\s*[=:]\s*` and the group
unfoldable pub signed_target : Bytes → Option Bytes
unfolding after_literal after_sign quoted_name then_try or_try
signed_target s = then_try (after_literal (codes "target") s) (λ r.
    or_try
      (then_try (or_try (after_literal (codes "_node") r) (after_literal (codes " node") r))
        (λ q. then_try (after_sign q) quoted_name))
      (then_try (after_sign r) quoted_name))

-- `to\s+node\s+` or `to\s+`, and the group
unfoldable pub to_target : Bytes → Option Bytes
unfolding after_literal after_spaces quoted_name then_try or_try
to_target s = then_try (after_literal (codes "to") s) (λ r. then_try (after_spaces r) (λ q.
    or_try (then_try (after_literal (codes "node") q) (λ p. then_try (after_spaces p) quoted_name))
      (quoted_name q)))

-- `FindStringSubmatch(s)[1]`
unfoldable pub find_target : Bytes → Option Bytes
unfolding signed_target to_target
find_target [] = none
find_target (c ∷ s) = or_try (signed_target (c ∷ s)) (or_try (to_target (c ∷ s)) (find_target s))

-- `parseMigrateTargetFromLog`
unfoldable pub parse_migrate_target_from_log : Bytes → Bytes
unfolding find_target guarded
parse_migrate_target_from_log s = elim (find_target s) [ none ↦ [] | some t ↦ guarded t ]
