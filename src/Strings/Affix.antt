-- ===== src/Strings/Affix.antt =====
-- `HasPrefix`, `HasSuffix`, `TrimSuffix`, `Contains`, `TrimLeft` and `TrimRight` of Go's `strings`.
use proxmox_eventbus.Prelude.{
  ◌⊎◌, inl, inr, ◌≢◌, subst, sym, ◌∙◌, ap, Bool-cases, ◌-◌, ◌≡◌, refl, Bool, true, false, ◌&&◌,
  ◌||◌, List, [], ◌∷◌, ◌++◌, reverse, arith, Bytes, ◌==◌, nat_eq, if◌then◌else◌, length, take, drop,
  length-append, take-append, All,
}
use mathlib.Core.List.{reverse-append, reverse-reverse}

unfoldable pub has_prefix : Bytes → Bytes → Bool
has_prefix s [] = true
has_prefix [] (p ∷ ps) = false
has_prefix (c ∷ s) (p ∷ ps) = c == p && has_prefix s ps

unfoldable pub has_suffix : Bytes → Bytes → Bool
unfolding has_prefix
has_suffix s p = has_prefix (reverse s) (reverse p)

unfoldable pub trim_suffix : Bytes → Bytes → Bytes
unfolding has_suffix
trim_suffix s p = if has_suffix s p then take (length s - length p) s else s

-- `strings.Contains`, by trying every position.
unfoldable pub contains : Bytes → Bytes → Bool
unfolding has_prefix
contains [] sub = has_prefix [] sub
contains (c ∷ s) sub = has_prefix (c ∷ s) sub || contains s sub

module _ {ℓ} {A : Type ℓ} where
  unfoldable pub trim_left : (A → Bool) → List A → List A
  trim_left cut [] = []
  trim_left cut (c ∷ s) = if cut c then trim_left cut s else c ∷ s

  -- `c` in front of what is left of the text behind it
  keep_right : (A → Bool) → A → List A → List A
  keep_right cut c [] = if cut c then [] else c ∷ []
  keep_right cut c (d ∷ s) = c ∷ d ∷ s

  unfoldable pub trim_right : (A → Bool) → List A → List A
  unfolding keep_right
  trim_right cut [] = []
  trim_right cut (c ∷ s) = keep_right cut c (trim_right cut s)

  -- Nothing is trimmed from a text none of whose elements may be cut.
  pub trim_left_none :
      (cut : A → Bool) (s : List A) → All (λ c. cut c ≡ false) s → trim_left cut s ≡ s
  unfolding trim_left
  trim_left_none cut [] h = refl
  trim_left_none cut (c ∷ s) (hc, h) = rw hc

  pub trim_right_none :
      (cut : A → Bool) (s : List A) → All (λ c. cut c ≡ false) s → trim_right cut s ≡ s
  unfolding trim_right
  trim_right_none cut [] h = refl
  trim_right_none cut (c ∷ []) (hc, h) = rw hc
  trim_right_none cut (c ∷ d ∷ s) (hc, h) = rw (trim_right_none cut (d ∷ s) h)

  -- A last element that stays keeps all that stands in front of it.
  pub trim_right-cons :
      (cut : A → Bool) (c : A) (s : List A)
      → s ≢ []
      → trim_right cut s ≡ s
      → trim_right cut (c ∷ s) ≡ c ∷ s
  unfolding trim_right
  trim_right-cons cut c [] n e = absurd (n refl)
  trim_right-cons cut c (d ∷ s) n e = rw e

pub has_prefix_append : (p s : Bytes) → has_prefix (p ++ s) p ≡ true
unfolding has_prefix
has_prefix_append [] s = refl
has_prefix_append (c ∷ p) s = ground (arith, has_prefix_append p s)

-- A text with the prefix is the prefix and a rest.
pub has_prefix_sound : (s p : Bytes) → has_prefix s p ≡ true → s ≡ p ++ drop (length p) s
unfolding has_prefix
has_prefix_sound s [] h = refl
has_prefix_sound [] (c ∷ p) h = ground arith
has_prefix_sound (d ∷ s) (c ∷ p) h = ground (arith, has_prefix_sound s p)

pub has_suffix_append : (s p : Bytes) → has_suffix (s ++ p) p ≡ true
unfolding has_suffix
has_suffix_append s p = rw reverse-append (has_prefix_append (reverse p) (reverse s))

pub trim_suffix-append : (s p : Bytes) → trim_suffix (s ++ p) p ≡ s
unfolding trim_suffix
trim_suffix-append s p = rw (has_suffix_append s p) (
    let e : length (s ++ p) - length p ≡ length s = omega (arith, length-append s p) in
    rw e (take-append s p))

-- `TrimSuffix` removes the suffix once, or nothing.
pub trim_suffix_sound : (s p : Bytes) → (s ≡ trim_suffix s p) ⊎ (s ≡ trim_suffix s p ++ p)
trim_suffix_sound s p = elim (Bool-cases (has_suffix s p)) [
  | inl h ↦
      let r = drop (length (reverse p)) (reverse s) in
      let e : s ≡ reverse r ++ p =
        sym (reverse-reverse s)
        ∙ ap reverse (has_prefix_sound (reverse s) (reverse p) (unfold has_suffix in h))
        ∙ reverse-append (reverse p) r
        ∙ ap (◌++◌ (reverse r)) (reverse-reverse p) in
      inr (
        subst (λ t. t ≡ trim_suffix t p ++ p) (sym e)
          (ap (λ t. t ++ p) (sym (trim_suffix-append (reverse r) p))))
  | inr h ↦ inl (unfold trim_suffix in rw h)
]
