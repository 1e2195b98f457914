-- ===== src/Journal.antt =====
-- internal/journal/journal.go: the choice of the handler, and the levels and the lines of the
-- journald handler.
--
-- The values of attributes are given as the text that `%q` or `%v` makes of them.
pub mod Priorities
use proxmox_eventbus.Prelude.{
  Bool, true, false, not, ◌||◌, List, [], ◌∷◌, ◌++◌, Bytes, codes, ◌==◌, bytes_eq, bytes_beq, leb,
  ltb, if◌then◌else◌, ℕ, ℤ, pos, negsuc, neg_ℕ,
}
use proxmox_eventbus.Strings.Case.{to_lower}
use proxmox_eventbus.Strconv.Decimal.{format_nat}

-- `slog.Level`: debug is -4, info 0, warn 4, error 8.
abbrev pub Level : Type 0
Level = ℤ

abbrev pub level_debug : Level
level_debug = neg_ℕ 4

abbrev pub level_info : Level
level_info = pos 0

abbrev pub level_warn : Level
level_warn = pos 4

abbrev pub level_error : Level
level_error = pos 8

unfoldable pub level_leb : Level → Level → Bool
level_leb (pos a) (pos b) = leb a b
level_leb (pos a) (negsuc b) = false
level_leb (negsuc a) (pos b) = true
level_leb (negsuc a) (negsuc b) = leb b a

-- `parseLevel`
unfoldable pub parse_level : Bytes → Level
unfolding to_lower bytes_beq
parse_level s =
    let l = to_lower s in
    if l == codes "debug"
    then level_debug
    else if l == codes "warn" || l == codes "warning"
    then level_warn
    else if l == codes "error"
    then level_error
    else level_info

-- `sdPriority`
unfoldable pub sd_priority : Level → ℕ
unfolding level_leb
sd_priority l =
    if level_leb l level_debug
    then 7
    else if level_leb l level_info
    then 6
    else if level_leb l level_warn
    then 4
    else 3

-- `slog.Attr`, with its value printed
pub record Attr : Type 0 where
  pub key : Bytes
  pub value : Bytes

pub record Handler : Type 0 where
  pub lvl : Level
  pub attrs : List Attr
  pub group : Bytes

-- What `NewHandler` returns: a handler of log/slog with its level, or the one of this package.
pub data LogHandler : Type 0 where
  json_handler text_handler : Level → LogHandler
  journald_handler : Handler → LogHandler

-- `NewHandler`
unfoldable pub new_handler : Bytes → Bytes → LogHandler
unfolding parse_level bytes_beq
new_handler format level =
    let lvl = parse_level level in
    if format == codes "json"
    then json_handler lvl
    else if format == codes "text"
    then text_handler lvl
    else journald_handler (record { lvl = lvl; attrs = []; group = [] })

-- `Enabled`
unfoldable pub enabled : Handler → Level → Bool
unfolding level_leb
enabled h l = level_leb h.lvl l

-- `writeAttr`
unfoldable pub write_attr : Bytes → Attr → Bytes
unfolding bytes_beq
write_attr group a =
    codes " "
    ++ ((if not (group == []) then group ++ codes "." ++ a.key else a.key) ++ codes "=" ++ a.value)

unfoldable pub write_attrs : Bytes → List Attr → Bytes
unfolding write_attr
write_attrs group [] = []
write_attrs group (a ∷ rest) = write_attr group a ++ write_attrs group rest

-- `Handle`: the line that is written, of a record's level, message and attributes.
unfoldable pub handle : Handler → Level → Bytes → List Attr → Bytes
unfolding sd_priority write_attrs format_nat
handle h level message attrs =
    codes "<"
    ++ (format_nat (sd_priority level)
        ++ codes ">"
        ++ (message ++ (write_attrs h.group h.attrs ++ (write_attrs h.group attrs ++ codes "\n"))))

-- `WithAttrs`
unfoldable pub with_attrs : List Attr → Handler → Handler
with_attrs new h = record h { attrs = h.attrs ++ new }

-- `WithGroup`
unfoldable pub with_group : Bytes → Handler → Handler
with_group name h = record h { group = name }
