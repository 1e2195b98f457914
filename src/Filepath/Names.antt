-- ===== src/Filepath/Names.antt =====
-- The paths of the files of one directory.
use proxmox_eventbus.Prelude.{
  ℕ, ◌≡◌, ◌≢◌, refl, sym, ap, ◌∙◌, Bool, true, false, ◌&&◌, List, [], ◌∷◌, ◌++◌, Bytes, codes, ◌==◌,
  bytes_eq, nat_eq, bytes_beq, if◌then◌else◌, if_false, Bool-cases, inl, inr, reverse, append_assoc,
  append-nil, arith, Lacks,
}
use mathlib.Core.List.{reverse-cons}
use proxmox_eventbus.Strings.Affix.{has_prefix}
use proxmox_eventbus.Strings.Split.{onto_first, split, glue, join}
use proxmox_eventbus.Strings.Split.Laws.{split_one, split-ne-nil}
use proxmox_eventbus.Filepath.{elements, keep, clean_as, clean, join_path}

-- A name of a file: not empty, no dots only, no slash.
abbrev pub IsFileName : Bytes → Type 0
IsFileName name =
    Lacks b'/' name
    × (name == [] ≡ false)
    × (name == codes "." ≡ false)
    × (name == codes ".." ≡ false)

onto_first-append :
    (c : ℕ) (ps qs : List Bytes) → ps ≢ [] → onto_first c (ps ++ qs) ≡ onto_first c ps ++ qs
unfolding onto_first
onto_first-append c [] qs h = absurd (h refl)
onto_first-append c (p ∷ ps) qs h = refl

split-append_name :
    (dir name : Bytes) (sep : ℕ)
    → Lacks sep name
    → split (dir ++ sep ∷ name) sep ≡ split dir sep ++ name ∷ []
unfolding split
split-append_name [] name sep h = ground (arith, split_one name sep h)
split-append_name (c ∷ dir) name sep h = elim (Bool-cases (c == sep)) [
  | inl e ↦ rw e (ap (◌∷◌ []) (split-append_name dir name sep h))
  | inr e ↦ rw e (
      ap (onto_first c) (split-append_name dir name sep h)
      ∙ onto_first-append c (split dir sep) (name ∷ []) (split-ne-nil dir sep))
]

keep_name :
    (rooted : Bool) (kept : List Bytes) (name : Bytes)
    → IsFileName name
    → keep rooted kept name ≡ name ∷ kept
unfolding keep
keep_name rooted kept name (_, e, dot, dots) = rw (e, dot, dots)

elements_name :
    (rooted : Bool) (kept es : List Bytes) (name : Bytes)
    → IsFileName name
    → elements rooted kept (es ++ name ∷ []) ≡ name ∷ elements rooted kept es
unfolding elements
elements_name rooted kept [] name h = keep_name rooted kept name h
elements_name rooted kept (e ∷ es) name h = elements_name rooted (keep rooted kept e) es name h

glue_last :
    (es : List Bytes) (name sep : Bytes) → glue (es ++ name ∷ []) sep ≡ (glue es sep ++ sep) ++ name
unfolding glue
glue_last [] name sep = ap (◌++◌ sep) (append-nil name)
glue_last (e ∷ es) name sep = simp (glue_last es name sep, append_assoc)

-- the text in front of a last element
before_last : List Bytes → Bytes → Bytes
before_last [] sep = []
before_last (e ∷ es) sep = (e ++ glue es sep) ++ sep

join_last :
    (es : List Bytes) (name sep : Bytes) → join (es ++ name ∷ []) sep ≡ before_last es sep ++ name
unfolding join before_last
join_last [] name sep = append-nil name
join_last (e ∷ es) name sep = simp (glue_last es name sep, append_assoc)

append-ne_nil : (pre name : Bytes) → (name == [] ≡ false) → (pre ++ name) == [] ≡ false
unfolding bytes_beq
append-ne_nil [] name h = h
append-ne_nil (c ∷ pre) name h = refl

above_as : Bool → Bytes → Bytes
above_as rooted dir =
    let rest = before_last (reverse (elements rooted [] (split dir b'/'))) (codes "/") in
    if rooted then codes "/" ++ rest else rest

-- What the path of a file in the directory has in front of the file's name.
pub above : Bytes → Bytes
above dir = above_as (has_prefix dir (codes "/")) dir

joined_name :
    (rooted : Bool) (dir name : Bytes)
    → IsFileName name
    → join (reverse (elements rooted [] (split (dir ++ b'/' ∷ name) b'/'))) (codes "/")
      ≡ before_last (reverse (elements rooted [] (split dir b'/'))) (codes "/") ++ name
joined_name rooted dir name h =
    let es = elements rooted [] (split dir b'/') in
    ap (λ ps. join (reverse (elements rooted [] ps)) (codes "/"))
      (split-append_name dir name b'/' (h.0))
    ∙ ap (λ ps. join (reverse ps) (codes "/")) (elements_name rooted [] (split dir b'/') name h)
    ∙ ap (λ ps. join ps (codes "/")) (reverse-cons name es)
    ∙ join_last (reverse es) name (codes "/")

clean_as_name :
    (rooted : Bool) (dir name : Bytes)
    → IsFileName name
    → clean_as rooted (dir ++ b'/' ∷ name) ≡ above_as rooted dir ++ name
unfolding clean_as above_as
clean_as_name true dir name h = ap (◌++◌ (codes "/")) (joined_name true dir name h)
clean_as_name false dir name h =
    ap (λ rest. if rest == [] then codes "." else rest) (joined_name false dir name h)
    ∙ if_false _ _ (append-ne_nil _ name ((h.1)))

-- The path of a file in a directory, which is not the empty text.
pub join_path_name :
    (dir name : Bytes) → dir ≢ [] → IsFileName name → join_path dir name ≡ above dir ++ name
unfolding join_path clean above has_prefix
join_path_name [] name h _ = absurd (h refl)
join_path_name (c ∷ dir) name h hn =
    ap clean (append_assoc (c ∷ dir) (codes "/") name)
    ∙ clean_as_name (c == b'/' && true) (c ∷ dir) name hn

append-cancel_left : (pre : Bytes) {x y : Bytes} → pre ++ x ≡ pre ++ y → x ≡ y
append-cancel_left [] h = h
append-cancel_left (c ∷ pre) h = append-cancel_left pre (cc h)

-- Two names give two paths.
pub join_path-ne :
    (dir x y : Bytes)
    → dir ≢ []
    → IsFileName x
    → IsFileName y
    → x ≢ y
    → join_path dir x ≢ join_path dir y
join_path-ne dir x y hd hx hy ne e = ne (
    append-cancel_left (above dir)
      (sym (join_path_name dir x hd hx) ∙ e ∙ join_path_name dir y hd hy))
