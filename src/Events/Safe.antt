-- ===== src/Events/Safe.antt =====
-- `safe` of internal/events/events.go: a cluster or node name as one token of a NATS subject.
use proxmox_eventbus.Prelude.{
  ℕ, ◌≡◌, ◌≢◌, refl, sym, ap, ap₂, ◌∙◌, Bool, true, false, ◌&&◌, ◌||◌, [], ◌∷◌, map, arith, Bytes,
  codes, ◌==◌, nat_eq, leb, if◌then◌else◌, All, Lacks, All-map,
}

-- a letter, a digit, `-` or `_`
unfoldable pub is_token : ℕ → Bool
is_token c =
    leb b'a' c && leb c b'z'
    || leb b'A' c && leb c b'Z'
    || leb b'0' c && leb c b'9'
    || c == b'-'
    || c == b'_'

-- one round of the loop
safe_byte : ℕ → ℕ
unfolding is_token
safe_byte c = if is_token c then c else b'_'

unfoldable pub safe : Bytes → Bytes
unfolding safe_byte
safe [] = codes "default"
safe (c ∷ s) = map safe_byte (c ∷ s)

safe_byte-is_token : (c : ℕ) → is_token (safe_byte c) ≡ true
unfolding safe_byte
safe_byte-is_token c = ground arith

safe_byte_fixed : (c : ℕ) → is_token c ≡ true → safe_byte c ≡ c
unfolding safe_byte
safe_byte_fixed c h = ground arith

abbrev pub IsToken : Bytes → Type 0
IsToken s = All (λ c. is_token c ≡ true) s

map-IsToken : (s : Bytes) → IsToken (map safe_byte s)
map-IsToken [] = tt
map-IsToken (c ∷ s) = (safe_byte-is_token c, map-IsToken s)

-- Every byte of a sanitised name may stand in a token.
pub safe-IsToken : (s : Bytes) → IsToken (safe s)
unfolding safe is_token
safe-IsToken [] = (refl, (refl, (refl, (refl, (refl, (refl, (refl, tt)))))))
safe-IsToken (c ∷ s) = map-IsToken (c ∷ s)

pub safe-ne-nil : (s : Bytes) → safe s ≢ []
unfolding safe
safe-ne-nil [] = λ e. cc
safe-ne-nil (c ∷ s) = λ e. cc

map_fixed : (s : Bytes) → IsToken s → map safe_byte s ≡ s
map_fixed [] h = refl
map_fixed (c ∷ s) (hc, h) = ap₂ ◌∷◌ (safe_byte_fixed c hc) (map_fixed s h)

-- A name that is a token already is left as it is.
pub safe_fixed : (s : Bytes) → s ≢ [] → IsToken s → safe s ≡ s
unfolding safe
safe_fixed [] n h = absurd (n refl)
safe_fixed (c ∷ s) n h = map_fixed (c ∷ s) h

token-ne : (b c : ℕ) → is_token b ≡ false → is_token c ≡ true → c ≢ b
token-ne b c hb hc e = cc (sym hc ∙ ap is_token e ∙ hb)

-- A sanitised name lacks every byte that may not stand in a token.
pub safe-Lacks_of : (b : ℕ) (s : Bytes) → is_token b ≡ false → Lacks b (safe s)
safe-Lacks_of b s h = All-map _ _ (safe s) (λ c. token-ne b c h) (safe-IsToken s)

token-ne-dot : (c : ℕ) → is_token c ≡ true → c ≢ b'.'
unfolding is_token
token-ne-dot c h = ground arith

-- No token holds a dot.
pub IsToken-Lacks : (s : Bytes) → IsToken s → Lacks b'.' s
IsToken-Lacks s h = All-map _ _ s token-ne-dot h

-- Every name becomes one token: some bytes, each a letter, a digit, `-` or `_`; and what has been
-- sanitised is not changed by doing it again.
IsToken-safe : (s : Bytes) → (safe s ≢ []) × IsToken (safe s) × (safe (safe s) ≡ safe s)
IsToken-safe s =
    (safe-ne-nil s, safe-IsToken s, safe_fixed (safe s) (safe-ne-nil s) (safe-IsToken s))
