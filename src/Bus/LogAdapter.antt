-- ===== src/Bus/LogAdapter.antt =====
-- internal/bus/log_adapter.go: the messages of the embedded server that reach the log.
--
-- The text that `fmt.Sprintf` makes of a call is an argument.
use proxmox_eventbus.Prelude.{Option, none, some, Bytes, codes, if◌then◌else◌}
use proxmox_eventbus.Strings.Affix.{contains}

-- The method of the adapter that is called.
pub data Call : Type 0 where
  noticef warnf fatalf errorf debugf tracef : Call

-- The method of the logger that the adapter calls.
pub data LogLevel : Type 0 where
  debug info warn error : LogLevel

abbrev pub suppressed_cluster_tls_warning : Bytes
suppressed_cluster_tls_warning =
    codes "TLS certificate chain and hostname of solicited routes will not be verified."

-- The six methods of `natsLogAdapter`: the level and the text, or none where nothing is logged.
unfoldable pub forward : Call → Bytes → Option (LogLevel × Bytes)
unfolding contains
forward noticef msg = some (LogLevel.info, msg)
forward warnf msg =
    if contains msg suppressed_cluster_tls_warning then none else some (LogLevel.warn, msg)
forward fatalf msg = some (LogLevel.error, msg)
forward errorf msg = some (LogLevel.error, msg)
forward debugf msg = some (LogLevel.debug, msg)
forward tracef msg = some (LogLevel.debug, msg)
