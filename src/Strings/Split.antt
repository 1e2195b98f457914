-- ===== src/Strings/Split.antt =====
-- `Split`, `Join`, `Cut` at one byte, and `FieldsFunc`, of Go's `strings`.
pub mod Laws
use proxmox_eventbus.Prelude.{
  ℕ, Bool, true, false, List, [], ◌∷◌, ◌++◌, Bytes, ◌==◌, nat_eq, if◌then◌else◌,
}

-- `c` in front of the first part
unfoldable pub onto_first {ℓ} : {A : Type ℓ} → A → List (List A) → List (List A)
onto_first c [] = (c ∷ []) ∷ []
onto_first c (p ∷ ps) = (c ∷ p) ∷ ps

-- `strings.Split` with a separator of one byte.
unfoldable pub split : Bytes → ℕ → List Bytes
unfolding onto_first
split [] sep = [] ∷ []
split (c ∷ s) sep = let rest = split s sep in if c == sep then [] ∷ rest else onto_first c rest

-- every part behind a separator
unfoldable pub glue : List Bytes → Bytes → Bytes
glue [] sep = []
glue (p ∷ ps) sep = sep ++ (p ++ glue ps sep)

-- `strings.Join`
unfoldable pub join : List Bytes → Bytes → Bytes
unfolding glue
join [] sep = []
join (p ∷ ps) sep = p ++ glue ps sep

-- `strings.Cut` at one byte: the text before the first one, the text behind it, and whether
-- there is one.
unfoldable pub cut : Bytes → ℕ → Bytes × Bytes × Bool
cut [] sep = ([], [], false)
cut (c ∷ s) sep =
    let (before, after, found) = cut s sep in
    if c == sep then ([], s, true) else (c ∷ before, after, found)

-- the word that is being read, if it has begun
flush {ℓ} : {A : Type ℓ} → List A → List (List A)
flush [] = []
flush (c ∷ w) = (c ∷ w) ∷ []

-- `strings.FieldsFunc`: the maximal runs of elements that are no separators; `word` is the part of
-- the current run that has been read.
unfoldable pub fields_from {ℓ} : {A : Type ℓ} → (A → Bool) → List A → List A → List (List A)
unfolding flush
fields_from sep word [] = flush word
fields_from sep word (c ∷ s) = elim (sep c) [
  | true ↦ flush word ++ fields_from sep [] s
  | false ↦ fields_from sep (word ++ c ∷ []) s
]

abbrev pub fields_func {ℓ} : {A : Type ℓ} → (A → Bool) → List A → List (List A)
fields_func sep = fields_from sep []
