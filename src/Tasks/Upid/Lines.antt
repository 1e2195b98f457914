-- ===== src/Tasks/Upid/Lines.antt =====
-- Lines of the task log.
use proxmox_eventbus.Prelude.{
  ℕ, ◌≡◌, ◌≢◌, refl, false, List, [], ◌∷◌, ◌++◌, arith, Bytes, codes, nat_eq, bytes_eq,
  bytes_beq_ne, All, All-map, All-append,
}
use proxmox_eventbus.Prelude.Result.{ok}
use proxmox_eventbus.Strings.Affix.{trim_right_none}
use proxmox_eventbus.Strings.Split.{join, glue}
use proxmox_eventbus.Strings.Split.Laws.{cut-append, cut_none}
use proxmox_eventbus.Strings.Space.Words.{IsPlain, IsWord}
use proxmox_eventbus.Tasks.Status.Forms.{
  Form, running, saved, indexed, words_of, is_hex-IsWord, parse_status_tail-Form,
  parse_status_tail-nil,
}
use proxmox_eventbus.Tasks.Upid.{Upid, parse_upid, line_end, parse_active_line}

abbrev NoEnd : Bytes → Type 0
NoEnd s = All (λ c. line_end c ≡ false) s

plain-NoEnd : (c : ℕ) → IsPlain c → line_end c ≡ false
plain-NoEnd c h = ground arith

word-NoEnd : (s : Bytes) → All IsPlain s → NoEnd s
word-NoEnd s h = All-map _ _ s plain-NoEnd h

glue-NoEnd : (ws : List Bytes) → All IsWord ws → NoEnd (glue ws (codes " "))
unfolding join
glue-NoEnd [] h = tt
glue-NoEnd (w ∷ ws) ((n, h), hs) = (refl, All-append _ w _ (word-NoEnd w h) (glue-NoEnd ws hs))

words-NoEnd : (w : Bytes) (ws : List Bytes) → All IsWord (w ∷ ws) → NoEnd (words_of (w ∷ ws))
unfolding join
words-NoEnd w ws ((n, h), hs) = All-append _ w _ (word-NoEnd w h) (glue-NoEnd ws hs)

Form-NoEnd : {tail status : Bytes} → Form tail status → NoEnd tail
Form-NoEnd running = (refl, tt)
Form-NoEnd (saved end word words h hs) =
    words-NoEnd (codes "1") (end ∷ word ∷ words)
      (((λ e. cc), omega arith), (is_hex-IsWord end h, hs))
Form-NoEnd (indexed end word words h n hs) =
    words-NoEnd end (word ∷ words) (is_hex-IsWord end h, hs)

plain-ne_blank : (c : ℕ) → IsPlain c → c ≢ b' '
plain-ne_blank c h = omega arith

-- A line whose first field is a UPID of printable characters gives that UPID, and the status of
-- the documented form behind it; with nothing behind it, the status is empty.
pub parse_active_line-Form :
    (t : Bytes) (u : Upid) {tail status : Bytes}
    → IsWord t
    → parse_upid t ≡ ok u
    → Form tail status
    → (parse_active_line (t ++ 32 ∷ tail) ≡ ok (u, status)) × (parse_active_line t ≡ ok (u, []))
unfolding parse_active_line
parse_active_line-Form [] u (n, h) e f = absurd (n refl)
parse_active_line-Form (c ∷ t) u {tail} {status} (n, h) e f = (
  rw
      (trim_right_none line_end (c ∷ (t ++ 32 ∷ tail))
        (All-append _ (c ∷ t) (32 ∷ tail) (word-NoEnd (c ∷ t) h) (refl, Form-NoEnd f)))
      (rw (cut-append (c ∷ t) tail b' ' (All-map _ _ (c ∷ t) plain-ne_blank h))
        (rw (bytes_beq_ne (c ∷ (t ++ 32 ∷ tail)) [] (λ d. cc), e, parse_status_tail-Form f))),
  rw (trim_right_none line_end (c ∷ t) (word-NoEnd (c ∷ t) h)) (
      rw (cut_none (c ∷ t) b' ' (All-map _ _ (c ∷ t) plain-ne_blank h))
        (rw (bytes_beq_ne (c ∷ t) [] n, e, parse_status_tail-nil))),
)
