-- ===== src/Main/Logging.antt =====
-- cmd/proxmox-eventbus/main.go: `slogLoggerAdapter`, between the log of the embedded server and the
-- handler of internal/journal.
use proxmox_eventbus.Prelude.{
  ◌≡◌, refl, true, ◌||◌, Bytes, codes, ◌==◌, bytes_eq, Bool-cases, inl, inr, some, ◌++◌, List,
}
use proxmox_eventbus.Strings.Case.{to_lower}
use proxmox_eventbus.Bus.LogAdapter.{LogLevel, Call, fatalf, errorf, forward}
use proxmox_eventbus.Journal.{
  Level, Attr, Handler, level_debug, level_info, level_warn, level_error, level_leb, parse_level,
  sd_priority, enabled, handle,
}

-- The level at which a method of the adapter logs.
unfoldable pub slog_level : LogLevel → Level
slog_level LogLevel.debug = level_debug
slog_level LogLevel.info = level_info
slog_level LogLevel.warn = level_warn
slog_level LogLevel.error = level_error

parse_level-below_error : (s : Bytes) → level_leb (parse_level s) level_error ≡ true
unfolding parse_level level_leb
parse_level-below_error s = elim (Bool-cases (to_lower s == codes "debug")) [
  | inl d ↦ rw d refl
  | inr d ↦ elim (Bool-cases (to_lower s == codes "warn" || to_lower s == codes "warning")) [
    | inl w ↦ rw (d, w) refl
    | inr w ↦ elim (Bool-cases (to_lower s == codes "error")) [
      | inl e ↦ rw (d, w, e) refl
      | inr e ↦ rw (d, w, e) refl
    ]
  ]
]

-- A call that reports an error of the server.
pub data ReportsError : Call → Type 0 where
  of_fatalf : ReportsError fatalf
  of_errorf : ReportsError errorf

-- Whatever level is configured, also one that is misspelt, an error of the server passes the
-- journald handler, and its line begins with the priority 3 and the text, under any group and
-- behind any attributes.
pub server_error-enabled :
    {call : Call} (msg level : Bytes) (h : Handler) (attrs : List Attr)
    → ReportsError call
    → h.lvl ≡ parse_level level
    → (forward call msg ≡ some (LogLevel.error, msg))
      × (enabled h (slog_level LogLevel.error) ≡ true)
      × ((rest : Bytes) × (handle h (slog_level LogLevel.error) msg attrs
            ≡ codes "<3>" ++ (msg ++ rest)))
unfolding forward enabled slog_level handle sd_priority level_leb
server_error-enabled msg level h attrs of_fatalf e =
    (refl, rw e (parse_level-below_error level), (_, refl))
server_error-enabled msg level h attrs of_errorf e =
    (refl, rw e (parse_level-below_error level), (_, refl))
