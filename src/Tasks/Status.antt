-- ===== src/Tasks/Status.antt =====
-- `parseStatusTail` and `isHex` of internal/tasks/upid.go.
pub mod Forms
use proxmox_eventbus.Prelude.{
  ℕ, ◌≡◌, refl, Bool, true, false, ◌&&◌, ◌||◌, List, [], ◌∷◌, Bytes, codes, ◌==◌, nat_eq, bytes_eq,
  bytes_beq, leb, if◌then◌else◌, every,
}
use proxmox_eventbus.Strings.Split.{join}
use proxmox_eventbus.Strings.Space.{trim_space, fields}

unfoldable pub is_hex_byte : ℕ → Bool
is_hex_byte c = leb b'0' c && leb c b'9' || leb b'a' c && leb c b'f' || leb b'A' c && leb c b'F'

-- `isHex`
unfoldable pub is_hex : Bytes → Bool
unfolding is_hex_byte
is_hex [] = false
is_hex (c ∷ s) = every is_hex_byte (c ∷ s)

-- The form of the index file, and what fits neither form.
index_status : Bytes → List Bytes → Bytes
unfolding is_hex
index_status rest (end ∷ word ∷ words) =
    if is_hex end then join (word ∷ words) (codes " ") else rest
index_status rest _ = rest

-- The form of the active file, where its first field is 1 and a third field follows.
tail_status : Bytes → List Bytes → Bytes
unfolding index_status
tail_status rest (saved ∷ end ∷ word ∷ words) =
    if saved == codes "1" && is_hex end
    then join (word ∷ words) (codes " ")
    else index_status rest (saved ∷ end ∷ word ∷ words)
tail_status rest words = index_status rest words

-- `parseStatusTail`
unfoldable pub parse_status_tail : Bytes → Bytes
unfolding tail_status
parse_status_tail tail =
    let rest = trim_space tail in
    if rest == [] || rest == codes "0" then [] else tail_status rest (fields rest)
