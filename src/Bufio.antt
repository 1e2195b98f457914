-- ===== src/Bufio.antt =====
-- The lines that a `bufio.Scanner` delivers of a file, with a limit on their length.
use proxmox_eventbus.Prelude.{
  ℕ, Bool, true, false, ◌&&◌, not, List, [], ◌∷◌, Bytes, ◌==◌, nat_eq, bytes_eq, leb, if◌then◌else◌,
  length,
}
use proxmox_eventbus.Strings.Affix.{trim_suffix}
use proxmox_eventbus.Strings.Split.{split}

-- What a read of a file gives: its bytes up to the end, or up to a fault of the device.
pub record FileRead : Type 0 where
  pub content : Bytes
  pub fault : Bool

-- Nothing behind the last newline is no line.
drop_last_empty : List Bytes → List Bytes
drop_last_empty [] = []
drop_last_empty (p ∷ []) = if p == [] then [] else p ∷ []
drop_last_empty (p ∷ q ∷ ps) = p ∷ drop_last_empty (q ∷ ps)

-- The lines up to the first that does not fit the buffer, and whether all fit.
fitting : ℕ → List Bytes → List Bytes × Bool
fitting max [] = ([], true)
fitting max (l ∷ ls) =
    let (rest, all_fit) = fitting max ls in
    if leb max (length l) then ([], false) else (trim_suffix l (13 ∷ []) ∷ rest, all_fit)

-- The lines of the file, without their ends, and whether `Err` returns nil behind them.
unfoldable pub scan_lines : ℕ → FileRead → List Bytes × Bool
unfolding drop_last_empty fitting
scan_lines max r =
    let (lines, all_fit) = fitting max (drop_last_empty (split r.content 10)) in
    (lines, all_fit && not r.fault)
