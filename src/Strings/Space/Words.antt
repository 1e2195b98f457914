-- ===== src/Strings/Space/Words.antt =====
-- Words of printable ASCII with single blanks between them: what `TrimSpace` and `Fields` do to
-- them.
use proxmox_eventbus.Prelude.{
  ℕ, zero, suc, ◌≤◌, ◌≡◌, ◌≢◌, refl, sym, subst, ap, ◌∙◌, Bool, true, false, List, [], ◌∷◌, ◌++◌,
  map, append-nil, arith, Bytes, codes, All,
}
use proxmox_eventbus.Strings.Affix.{trim_left, trim_right, trim_right_none, trim_right-cons}
use proxmox_eventbus.Strings.Split.{join, glue, fields_func}
use proxmox_eventbus.Strings.Split.Laws.{fields_func-word, fields_func_one}
use proxmox_eventbus.Strings.Space.{space_len, mark, marked, unmark, trim_space, fields}

-- A printable ASCII byte other than the blank.
abbrev pub IsPlain : ℕ → Type 0
IsPlain c = (33 ≤ c) × (c ≤ 126)

abbrev pub IsWord : Bytes → Type 0
IsWord w = (w ≢ []) × All IsPlain w

abbrev plain : ℕ → ℕ × Bool
plain c = (c, false)

pub space_len-IsPlain : (c : ℕ) (s : Bytes) → IsPlain c → space_len c s ≡ 0
unfolding space_len
space_len-IsPlain c s h = ground arith

unmark-mark : (n : ℕ) (s : Bytes) → unmark (mark n s) ≡ s
unfolding mark
unmark-mark n [] = refl
unmark-mark zero (c ∷ s) = step (λ k. unmark-mark k s) (space_len c s)
  where
    step :
        ((k : ℕ) → unmark (mark k s) ≡ s)
        → (k : ℕ)
        → unmark (elim k [ zero ↦ (c, false) ∷ mark 0 s | suc k ↦ (c, true) ∷ mark k s ]) ≡ c ∷ s
    step rest zero = ap (◌∷◌ c) (rest 0)
    step rest (suc k) = ap (◌∷◌ c) (rest k)
unmark-mark (suc n) (c ∷ s) = ap (◌∷◌ c) (unmark-mark n s)

mark-word : (w s : Bytes) → All IsPlain w → mark 0 (w ++ s) ≡ map plain w ++ mark 0 s
unfolding mark
mark-word [] s h = refl
mark-word (c ∷ w) s (hc, h) =
    rw (space_len-IsPlain c (w ++ s) hc, mark) (ap (◌∷◌ (plain c)) (mark-word w s h))

mark_blank : (s : Bytes) → mark 0 (32 ∷ s) ≡ (32, true) ∷ mark 0 s
unfolding mark space_len
mark_blank s = refl

mark_nil : mark 0 [] ≡ []
unfolding mark
mark_nil = refl

mark_one : (w : Bytes) → All IsPlain w → mark 0 w ≡ map plain w
mark_one w h =
    ap (mark 0) (sym (append-nil w))
    ∙ mark-word w [] h
    ∙ ap (◌++◌ (map plain w)) mark_nil
    ∙ append-nil (map plain w)

unmark-plain : (w : Bytes) → unmark (map plain w) ≡ w
unmark-plain [] = refl
unmark-plain (c ∷ w) = ap (◌∷◌ c) (unmark-plain w)

plain-unmarked : (w : Bytes) → All (λ m. marked m ≡ false) (map plain w)
plain-unmarked [] = tt
plain-unmarked (c ∷ w) = (refl, plain-unmarked w)

map-plain-ne-nil : (w : Bytes) → w ≢ [] → map plain w ≢ []
map-plain-ne-nil [] h = absurd (h refl)
map-plain-ne-nil (c ∷ w) h = λ e. cc

-- `Fields` takes the first word off.
pub fields-word : (w s : Bytes) → IsWord w → fields (w ++ 32 ∷ s) ≡ w ∷ fields s
unfolding fields
fields-word w s (n, h) =
    ap (λ m. map unmark (fields_func marked m))
      (mark-word w (32 ∷ s) h ∙ ap (◌++◌ (map plain w)) (mark_blank s))
    ∙ ap (map unmark) (
        fields_func-word marked (map plain w) (mark 0 s) (32, true) (map-plain-ne-nil w n)
          (plain-unmarked w) refl)
    ∙ ap (λ v. v ∷ map unmark (fields_func marked (mark 0 s))) (unmark-plain w)

pub fields_one : (w : Bytes) → IsWord w → fields w ≡ w ∷ []
unfolding fields
fields_one w (n, h) =
    ap (λ m. map unmark (fields_func marked m)) (mark_one w h)
    ∙ ap (map unmark)
        (fields_func_one marked (map plain w) (map-plain-ne-nil w n) (plain-unmarked w))
    ∙ ap (λ v. v ∷ []) (unmark-plain w)

-- `Fields` finds the words that were joined by single blanks.
pub fields-join :
    (w : Bytes) (ws : List Bytes)
    → All IsWord (w ∷ ws)
    → fields (join (w ∷ ws) (codes " ")) ≡ w ∷ ws
unfolding join
fields-join w [] (h, _) = rw append-nil (fields_one w h)
fields-join w (v ∷ ws) (h, hs) =
    fields-word w (join (v ∷ ws) (codes " ")) h ∙ ap (◌∷◌ w) (fields-join v ws hs)

-- Trimming on the right changes nothing of such marks.
abbrev IsFixed : List (ℕ × Bool) → Type 0
IsFixed m = (m ≢ []) × (trim_right marked m ≡ m)

IsFixed-append : (xs ys : List (ℕ × Bool)) → IsFixed ys → IsFixed (xs ++ ys)
IsFixed-append [] ys h = h
IsFixed-append (x ∷ xs) ys h =
    let (n, e) = IsFixed-append xs ys h in ((λ e. cc), trim_right-cons marked x (xs ++ ys) n e)

IsFixed-plain : (w : Bytes) → w ≢ [] → IsFixed (map plain w)
IsFixed-plain w n = (map-plain-ne-nil w n, trim_right_none marked (map plain w) (plain-unmarked w))

mark-join-IsFixed :
    (w : Bytes) (ws : List Bytes)
    → All IsWord (w ∷ ws)
    → IsFixed (mark 0 (join (w ∷ ws) (codes " ")))
unfolding join
mark-join-IsFixed w [] ((n, h), _) = rw (append-nil w, mark_one w h) (IsFixed-plain w n)
mark-join-IsFixed w (v ∷ ws) ((n, h), hs) =
    subst IsFixed
      (sym
        (mark-word w (32 ∷ join (v ∷ ws) (codes " ")) h ∙ ap (◌++◌ (map plain w)) (mark_blank _)))
      (IsFixed-append (map plain w) _
        (IsFixed-append ((32, true) ∷ []) _ (mark-join-IsFixed v ws hs)))

trim_left-mark :
    (c : ℕ) (s : Bytes) → IsPlain c → trim_left marked (mark 0 (c ∷ s)) ≡ mark 0 (c ∷ s)
unfolding trim_left mark
trim_left-mark c s h = rw (space_len-IsPlain c s h, mark)

trim_left-join :
    (c : ℕ) (w : Bytes) (ws : List Bytes)
    → IsPlain c
    → trim_left marked (mark 0 (join ((c ∷ w) ∷ ws) (codes " ")))
      ≡ mark 0 (join ((c ∷ w) ∷ ws) (codes " "))
unfolding join
trim_left-join c w ws h = trim_left-mark c (w ++ glue ws (codes " ")) h

-- `TrimSpace` leaves words as they are.
pub trim_space-join :
    (w : Bytes) (ws : List Bytes)
    → All IsWord (w ∷ ws)
    → trim_space (join (w ∷ ws) (codes " ")) ≡ join (w ∷ ws) (codes " ")
unfolding trim_space
trim_space-join [] ws ((n, _), _) = absurd (n refl)
trim_space-join (c ∷ w) ws h =
    ap (λ m. unmark (trim_right marked m)) (trim_left-join c w ws h.0.1.0)
    ∙ ap unmark (mark-join-IsFixed (c ∷ w) ws h).1
    ∙ unmark-mark 0 _
