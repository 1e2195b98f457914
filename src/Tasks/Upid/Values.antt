-- ===== src/Tasks/Upid/Values.antt =====
-- The numbers of a parsed UPID.
use proxmox_eventbus.Prelude.{
  ◌<◌, ◌^◌, ◌≡◌, sym, ap, ◌∙◌, false, [], Bytes, nat_eq, bytes_eq, bytes_beq, bytes_beq_ne, some, ℤ,
}
use proxmox_eventbus.Prelude.Result.{ok}
use proxmox_eventbus.Strconv.{atoi}
use proxmox_eventbus.Strconv.Range.{InBits, parse_int-InBits, parse_uint-lt}
use proxmox_eventbus.Strconv.Decimal.{format_int}
use proxmox_eventbus.Strconv.RoundTrip.{InInt, atoi-format_int, format_int-ne-nil}
use proxmox_eventbus.Tasks.Upid.{Upid, parse_upid, vmid}
use proxmox_eventbus.Tasks.Upid.Format.{parse_upid-Accepted}

-- The numbers of an accepted UPID fit the Go types of the fields that hold them: the process
-- number an `int32`, the start tick a `uint64` and the start time an `int64`.
parse_upid_bounds :
    (s : Bytes) (u : Upid)
    → parse_upid s ≡ ok u
    → InBits 32 u.pid × (u.pstart < 2 ^ 64) × InBits 64 u.start_time
parse_upid_bounds s u h =
    let a = parse_upid-Accepted s u h in
    (
      parse_int-InBits a.fields.pid 16 32 u.pid a.denotes.pid,
      parse_uint-lt a.fields.pstart 16 64 u.pstart a.denotes.pstart,
      parse_int-InBits a.fields.start 16 64 u.start_time a.denotes.start_time,
    )

-- The VM number of a UPID whose identifier is the decimal text of an `int` is that number.
vmid-format_int : (u : Upid) (z : ℤ) → InInt z → u.id ≡ format_int z → vmid u ≡ z
unfolding vmid
vmid-format_int u z h e =
    let parsed : atoi u.id ≡ some z = ap atoi e ∙ atoi-format_int z h in
    let filled : bytes_beq u.id [] ≡ false =
      bytes_beq_ne u.id [] (λ d. format_int-ne-nil z (sym e ∙ d)) in
    rw (filled, parsed)
