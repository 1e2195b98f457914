-- ===== src/Tasks/Status/Forms.antt =====
-- The documented forms of what follows a UPID on a line of the task log.
use proxmox_eventbus.Prelude.{
  ℕ, ◌≡◌, ◌≢◌, refl, ap, ◌∙◌, true, false, List, [], ◌∷◌, arith, Bytes, codes, nat_eq, bytes_eq,
  bytes_beq, bytes_beq_ne, every, All,
}
use proxmox_eventbus.Strings.Split.{join}
use proxmox_eventbus.Strings.Space.{trim_space}
use proxmox_eventbus.Strings.Space.Words.{IsPlain, IsWord, fields-join, trim_space-join}
use proxmox_eventbus.Tasks.Status.{is_hex_byte, is_hex, tail_status, parse_status_tail}

abbrev pub words_of : List Bytes → Bytes
words_of ws = join ws (codes " ")

is_hex_byte-IsPlain : (c : ℕ) → is_hex_byte c ≡ true → IsPlain c
unfolding is_hex_byte
is_hex_byte-IsPlain c h = ground arith

every-IsPlain : (s : Bytes) → every is_hex_byte s ≡ true → All IsPlain s
every-IsPlain [] h = tt
every-IsPlain (c ∷ s) h = ground (arith, is_hex_byte-IsPlain c, every-IsPlain s)

-- A hexadecimal text is a word.
pub is_hex-IsWord : (s : Bytes) → is_hex s ≡ true → IsWord s
unfolding is_hex
is_hex-IsWord [] h = cc
is_hex-IsWord (c ∷ s) h = ((λ e. cc), every-IsPlain (c ∷ s) h)

-- A tail of a line and the status that it stands for: the task runs (`0`), has ended and is saved
-- (`1 <endtime> <status>`), or the line is of the index file (`<endtime> <status>`).
pub data Form : Bytes → Bytes → Type 0 where
  running : Form (codes "0") []
  saved :
      (end word : Bytes) (words : List Bytes)
      → is_hex end ≡ true
      → All IsWord (word ∷ words)
      → Form (words_of (codes "1" ∷ end ∷ word ∷ words)) (words_of (word ∷ words))
  indexed :
      (end word : Bytes) (words : List Bytes)
      → is_hex end ≡ true
      → end ≢ codes "1"
      → All IsWord (word ∷ words)
      → Form (words_of (end ∷ word ∷ words)) (words_of (word ∷ words))

one-IsWord : IsWord (codes "1")
one-IsWord = ((λ e. cc), omega arith)

-- A text of two words or more is neither empty nor `0`.
two_words :
    (v w : Bytes) (ws : List Bytes)
    → IsWord v
    → (bytes_beq (words_of (v ∷ w ∷ ws)) [] ≡ false)
      × (bytes_beq (words_of (v ∷ w ∷ ws)) (codes "0") ≡ false)
unfolding join bytes_beq
two_words [] w ws (n, _) = absurd (n refl)
two_words (c ∷ []) w ws h = ground arith
two_words (c ∷ d ∷ v) w ws h = ground arith

parse_words :
    (v w : Bytes) (ws : List Bytes)
    → All IsWord (v ∷ w ∷ ws)
    → parse_status_tail (words_of (v ∷ w ∷ ws)) ≡ tail_status (words_of (v ∷ w ∷ ws)) (v ∷ w ∷ ws)
unfolding parse_status_tail
parse_words v w ws h =
    let (a, b) = two_words v w ws h.0 in
    rw (trim_space-join v (w ∷ ws) h)
      (rw (a, b) (ap (tail_status (words_of (v ∷ w ∷ ws))) (fields-join v (w ∷ ws) h)))

index_form :
    (rest end word : Bytes) (ws : List Bytes)
    → is_hex end ≡ true
    → end ≢ codes "1"
    → tail_status rest (end ∷ word ∷ ws) ≡ words_of (word ∷ ws)
unfolding tail_status
index_form rest end word [] h n = rw h
index_form rest end word (v ∷ ws) h n = rw (bytes_beq_ne end (codes "1") n, h)

-- The status of each documented form is read off its line: nothing while the task runs, and the
-- words behind the end time once it has ended.
pub parse_status_tail-Form :
    {tail status : Bytes} → Form tail status → parse_status_tail tail ≡ status
parse_status_tail-Form running = unfold parse_status_tail trim_space bytes_beq in refl
parse_status_tail-Form (saved end word words h hs) =
    parse_words (codes "1") end (word ∷ words) (one-IsWord, (is_hex-IsWord end h, hs))
    ∙ unfold tail_status bytes_beq in rw h
parse_status_tail-Form (indexed end word words h n hs) =
    parse_words end word words (is_hex-IsWord end h, hs) ∙ index_form _ end word words h n

-- Nothing behind the UPID stands for a running task.
pub parse_status_tail-nil : parse_status_tail [] ≡ []
unfolding parse_status_tail trim_space bytes_beq
parse_status_tail-nil = refl
