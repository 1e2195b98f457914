-- ===== src/Tasks/LogFile/Walk.antt =====
-- The walk finds a file with one of the names exactly if there is one that lies deep enough.
use proxmox_eventbus.Prelude.{
  ℕ, zero, suc, ◌≡◌, ◌≢◌, ◌⊎◌, inl, inr, refl, sym, subst, Bool, true, Option, none, some, Bytes,
  if◌then◌else◌, if_true, Option-cases, arith,
}
use proxmox_eventbus.Filepath.{join_path}
use proxmox_eventbus.Tasks.LogFile.{
  Entry, file, dir, Entries, nil, cons, or_else, walk_entry, walk_entries,
}

-- The answer of a search: a path that has the property, or none where no path has it.
abbrev pub AnswersTo : (Bytes → Type 0) → Option Bytes → Type 0
AnswersTo P (some p) = P p
AnswersTo P none = (p : Bytes) → ¬ P p

-- A file with one of the names lies at the path, at most so many directories down.
mutual
  pub data IsAt (named : Bytes → Bool) : ℕ → Bytes → Entry → Bytes → Type 0 where
    this :
        {below : ℕ} {path base : Bytes}
        → named base ≡ true
        → IsAt named below path (file base) (join_path path base)
    inside :
        {below : ℕ} {path base found : Bytes} {es : Entries}
        → IsAmong named below (join_path path base) es found
        → IsAt named (suc below) path (dir base es) found

  pub data IsAmong (named : Bytes → Bool) : ℕ → Bytes → Entries → Bytes → Type 0 where
    first :
        {below : ℕ} {path found : Bytes} {e : Entry} {es : Entries}
        → IsAt named below path e found
        → IsAmong named below path (cons e es) found
    later :
        {below : ℕ} {path found : Bytes} {e : Entry} {es : Entries}
        → IsAmong named below path es found
        → IsAmong named below path (cons e es) found

or_else-some : (a b : Option Bytes) (p : Bytes) → or_else a b ≡ some p → (a ≡ some p) ⊎ (b ≡ some p)
unfolding or_else
or_else-some none b p h = inr h
or_else-some (some q) b p h = inl h

or_else-none : (a b : Option Bytes) → or_else a b ≡ none → (a ≡ none) × (b ≡ none)
unfolding or_else
or_else-none none b h = (refl, h)
or_else-none (some q) b h = cc

if-some : (b : Bool) (q p : Bytes) → (if b then some q else none) ≡ some p → (b ≡ true) × (q ≡ p)
if-some b q p h = ground arith

module _ (named : Bytes → Bool) where
  mutual
    unfolding walk_entry

    walk_entry_sound :
        (below : ℕ) (path : Bytes) (e : Entry) (p : Bytes)
        → walk_entry named below path e ≡ some p
        → IsAt named below path e p
    walk_entry_sound below path (file base) p h =
        let (b, e) = if-some (named base) (join_path path base) p h in
        subst (IsAt named below path (file base)) e (this b)
    walk_entry_sound zero path (dir base es) p h = cc
    walk_entry_sound (suc below) path (dir base es) p h =
        inside (walk_entries_sound below (join_path path base) es p h)

    walk_entries_sound :
        (below : ℕ) (path : Bytes) (es : Entries) (p : Bytes)
        → walk_entries named below path es ≡ some p
        → IsAmong named below path es p
    walk_entries_sound below path nil p h = cc
    walk_entries_sound below path (cons e es) p h =
        elim (or_else-some (walk_entry named below path e) (walk_entries named below path es) p h) [
          | inl f ↦ first (walk_entry_sound below path e p f)
          | inr f ↦ later (walk_entries_sound below path es p f)
        ]

  mutual
    unfolding walk_entry

    walk_entry_complete :
        {below : ℕ} {path : Bytes} {e : Entry} {p : Bytes}
        → IsAt named below path e p
        → walk_entry named below path e ≢ none
    walk_entry_complete (this {path = path} {base = base} b) none_found =
        cc (sym (if_true (some (join_path path base)) none b), none_found)
    walk_entry_complete (inside h) none_found = walk_entries_complete h none_found

    walk_entries_complete :
        {below : ℕ} {path : Bytes} {es : Entries} {p : Bytes}
        → IsAmong named below path es p
        → walk_entries named below path es ≢ none
    walk_entries_complete (first h) none_found =
        walk_entry_complete h ((or_else-none _ _ none_found).0)
    walk_entries_complete (later h) none_found =
        walk_entries_complete h ((or_else-none _ _ none_found).1)

  -- For every tree, every set of names and every limit, the answer of the walk is right: where it
  -- returns a path, a file with one of the names lies there and no more directories than the limit
  -- are entered on the way down, and where it returns none there is no such file.
  pub walk_entries-AnswersTo :
      (below : ℕ) (path : Bytes) (es : Entries)
      → AnswersTo (λ p. IsAmong named below path es p) (walk_entries named below path es)
  walk_entries-AnswersTo below path es = elim (Option-cases (walk_entries named below path es)) [
    | inl e ↦
        subst (AnswersTo (λ p. IsAmong named below path es p)) (sym e)
          (λ p h. walk_entries_complete h e)
    | inr (p, e) ↦
        subst (AnswersTo (λ p. IsAmong named below path es p)) (sym e)
          (walk_entries_sound below path es p e)
  ]
