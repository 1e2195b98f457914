-- ===== src/Strings/Split/Laws.antt =====
-- What splitting, joining and cutting do to a text whose parts hold no separator.
use proxmox_eventbus.Prelude.{
  ℕ, ◌≡◌, ◌≢◌, refl, sym, ap, ◌∙◌, Bool, true, false, List, [], ◌∷◌, ◌++◌, append_assoc, append-nil,
  arith, Bytes, ◌==◌, nat_eq, All, Lacks, Bool-cases, inl, inr,
}
use proxmox_eventbus.Strings.Split.{onto_first, split, join, cut, flush, fields_from, fields_func}

-- Splitting off a part that holds no separator.
pub split-append :
    (p s : Bytes) (sep : ℕ) → Lacks sep p → split (p ++ sep ∷ s) sep ≡ p ∷ split s sep
unfolding split
split-append [] s sep h = ground arith
split-append (c ∷ p) s sep (hc, h) = ground (arith, split-append p s sep h)

-- A text with no separator is its only part.
pub split_one : (p : Bytes) (sep : ℕ) → Lacks sep p → split p sep ≡ p ∷ []
unfolding split
split_one [] sep h = refl
split_one (c ∷ p) sep (hc, h) = ground (arith, split_one p sep h)

pub split-ne-nil : (s : Bytes) (sep : ℕ) → split s sep ≢ []
unfolding split
split-ne-nil [] sep = λ e. cc
split-ne-nil (c ∷ s) sep = λ e. ground (arith, split-ne-nil s sep)

join-onto_first :
    (c : ℕ) (ps : List Bytes) (sep : Bytes) → join (onto_first c ps) sep ≡ c ∷ join ps sep
unfolding join onto_first
join-onto_first c [] sep = refl
join-onto_first c (p ∷ ps) sep = refl

join-cons_nil : (ps : List Bytes) (sep : Bytes) → ps ≢ [] → join ([] ∷ ps) sep ≡ sep ++ join ps sep
unfolding join
join-cons_nil [] sep h = absurd (h refl)
join-cons_nil (p ∷ ps) sep h = refl

-- Joining the parts of a split gives the text back, for every text.
pub join-split : (s : Bytes) (sep : ℕ) → join (split s sep) (sep ∷ []) ≡ s
unfolding split
join-split [] sep = unfold join in refl
join-split (c ∷ s) sep = elim (Bool-cases (c == sep)) [
  | inl e ↦ rw e (
      join-cons_nil (split s sep) (sep ∷ []) (split-ne-nil s sep)
      ∙ ground (arith, join-split s sep))
  | inr e ↦ rw e (join-onto_first c (split s sep) (sep ∷ []) ∙ ap (◌∷◌ c) (join-split s sep))
]

-- No part of a split holds the separator.
onto_first-Lacks :
    (c sep : ℕ) (ps : List Bytes) → c ≢ sep → All (Lacks sep) ps → All (Lacks sep) (onto_first c ps)
unfolding onto_first
onto_first-Lacks c sep [] h hp = ((h, tt), tt)
onto_first-Lacks c sep (p ∷ ps) h (hp, hps) = ((h, hp), hps)

pub split-Lacks : (s : Bytes) (sep : ℕ) → All (Lacks sep) (split s sep)
unfolding split
split-Lacks [] sep = (tt, tt)
split-Lacks (c ∷ s) sep = elim (Bool-cases (c == sep)) [
  | inl e ↦ rw e (tt, split-Lacks s sep)
  | inr e ↦ rw e (onto_first-Lacks c sep (split s sep) (ground arith) (split-Lacks s sep))
]

-- The cut at the first separator.
pub cut-append : (p s : Bytes) (sep : ℕ) → Lacks sep p → cut (p ++ sep ∷ s) sep ≡ (p, s, true)
unfolding cut
cut-append [] s sep h = ground arith
cut-append (c ∷ p) s sep (hc, h) = ground (arith, cut-append p s sep h)

pub cut_none : (p : Bytes) (sep : ℕ) → Lacks sep p → cut p sep ≡ (p, [], false)
unfolding cut
cut_none [] sep h = refl
cut_none (c ∷ p) sep (hc, h) = ground (arith, cut_none p sep h)

module _ {ℓ} {A : Type ℓ} (sep : A → Bool) where
  -- A run of elements that are no separators extends the current word.
  pub fields_from-append :
      (w word s : List A)
      → All (λ c. sep c ≡ false) w
      → fields_from sep word (w ++ s) ≡ fields_from sep (word ++ w) s
  unfolding fields_from
  fields_from-append [] word s h = rw append-nil
  fields_from-append (c ∷ w) word s (hc, h) = rw hc (
      fields_from-append w (word ++ c ∷ []) s h
      ∙ ap (λ v. fields_from sep v s) (append_assoc word (c ∷ []) w))

  -- A word, a separator, and the words of the rest.
  pub fields_func-word :
      (w s : List A) (c : A)
      → w ≢ []
      → All (λ c. sep c ≡ false) w
      → sep c ≡ true
      → fields_func sep (w ++ c ∷ s) ≡ w ∷ fields_func sep s
  unfolding fields_from flush
  fields_func-word [] s c h _ _ = absurd (h refl)
  fields_func-word (d ∷ w) s c _ h hc =
      rw (fields_from-append (d ∷ w) [] (c ∷ s) h) (rw (hc, fields_from))

  pub fields_func_one :
      (w : List A) → w ≢ [] → All (λ c. sep c ≡ false) w → fields_func sep w ≡ w ∷ []
  unfolding fields_from flush
  fields_func_one [] h _ = absurd (h refl)
  fields_func_one (d ∷ w) _ h =
      ap (fields_func sep) (sym (append-nil (d ∷ w))) ∙ fields_from-append (d ∷ w) [] [] h
