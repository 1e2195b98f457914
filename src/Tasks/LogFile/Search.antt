-- ===== src/Tasks/LogFile/Search.antt =====
-- `FindLogFile` finds a log file of the task exactly if there is one where it may lie.
use proxmox_eventbus.Prelude.{
  ◌≡◌, ◌≢◌, ◌⊎◌, inl, inr, refl, sym, ap, ◌∙◌, subst, Lacks, Bool, true, false, ◌||◌, List, [], ◌∷◌,
  Option, none, some, Bytes, codes, ◌==◌, bytes_eq, Option-cases,
}
use proxmox_eventbus.Filepath.{join_path}
use proxmox_eventbus.Filepath.Names.{IsFileName}
use proxmox_eventbus.Strings.Affix.{trim_suffix}
use proxmox_eventbus.Strings.Space.{trim_space}
use proxmox_eventbus.Tasks.LogFile.{
  Files, or_else, walk_entries, max_depth, first_existing, first_plain, or_empty, find_named,
  find_log_file,
}
use proxmox_eventbus.Tasks.LogFile.Walk.{AnswersTo, IsAmong, walk_entries-AnswersTo}

abbrev pub In : Bytes → List Bytes → Type 0
In p [] = ⊥
In p (q ∷ qs) = (p ≡ q) ⊎ In p qs

or_else-AnswersTo :
    (P Q : Bytes → Type 0) (a b : Option Bytes)
    → AnswersTo P a
    → AnswersTo Q b
    → AnswersTo (λ p. P p ⊎ Q p) (or_else a b)
unfolding or_else
or_else-AnswersTo P Q (some p) b h k = inl h
or_else-AnswersTo P Q none (some q) h k = inr k
or_else-AnswersTo P Q none none h k = λ p. neither p
  where
    neither : (p : Bytes) → ¬ (P p ⊎ Q p)
    neither p (inl x) = h p x
    neither p (inr y) = k p y

-- A search behind an entry that does not have the property.
behind-AnswersTo :
    (Has : Bytes → Type 0) (q : Bytes) (qs : List Bytes) (o : Option Bytes)
    → ¬ Has q
    → AnswersTo (λ p. In p qs × Has p) o
    → AnswersTo (λ p. In p (q ∷ qs) × Has p) o
behind-AnswersTo Has q qs (some p) lacks (m, h) = (inr m, h)
behind-AnswersTo Has q qs none lacks h = λ p. neither p
  where
    neither : (p : Bytes) → ¬ (In p (q ∷ qs) × Has p)
    neither p (inl e, k) = lacks (subst Has e k)
    neither p (inr m, k) = h p (m, k)

stat_cases : (o : Option Bool) → (o ≡ none) ⊎ ((o ≡ some true) ⊎ (o ≡ some false))
stat_cases none = inl refl
stat_cases (some true) = inr (inl refl)
stat_cases (some false) = inr (inr refl)

module _ (stat : Bytes → Option Bool) where
  abbrev pub Existing : List Bytes → Bytes → Type 0
  Existing ps p = In p ps × (stat p ≢ none)

  abbrev pub Plain : List Bytes → Bytes → Type 0
  Plain ps p = In p ps × (stat p ≡ some false)

  first_existing-AnswersTo : (ps : List Bytes) → AnswersTo (Existing ps) (first_existing stat ps)
  unfolding first_existing
  first_existing-AnswersTo [] = λ p h. absurd h.0
  first_existing-AnswersTo (q ∷ qs) = elim (Option-cases (stat q)) [
    | inl e ↦
        rw (e, first_existing)
          (behind-AnswersTo (λ p. stat p ≢ none) q qs (first_existing stat qs) (λ h. h e)
            (first_existing-AnswersTo qs))
    | inr (is_dir, e) ↦ rw (e, first_existing) (inl refl, λ gone. cc (e, gone))
  ]

  first_plain-AnswersTo : (ps : List Bytes) → AnswersTo (Plain ps) (first_plain stat ps)
  unfolding first_plain
  first_plain-AnswersTo [] = λ p h. absurd h.0
  first_plain-AnswersTo (q ∷ qs) =
      let later = first_plain-AnswersTo qs in
      let skipped = behind-AnswersTo (λ p. stat p ≡ some false) q qs (first_plain stat qs) in
      elim (stat_cases (stat q)) [
        | inl gone ↦ rw (gone, first_plain) (skipped (λ h. cc (gone, h)) later)
        | inr (inl is_dir) ↦ rw (is_dir, first_plain) (skipped (λ h. cc (is_dir, h)) later)
        | inr (inr plain) ↦ rw (plain, first_plain) (inl refl, plain)
      ]

-- The names that the file of a task may have.
abbrev pub names : Bytes → Bytes → Bool
names name base = base == name || base == trim_suffix name (codes ":")

-- What `Glob` matches of a name in one of the directories of the root.
abbrev pub matches : Files → Bytes → Bytes → List Bytes
matches fs root name = fs.glob (join_path (join_path root (codes "*")) name)

abbrev pub candidates : Bytes → Bytes → List Bytes
candidates root name = join_path root name ∷ join_path root (trim_suffix name (codes ":")) ∷ []

-- Where a log file may lie: directly in the root, in one of its directories, or below it, no deeper
-- than the limit, as a file.
abbrev pub IsLogFile : Files → Bytes → Bytes → Bytes → Type 0
IsLogFile fs root name p =
    Existing fs.stat (candidates root name) p
    ⊎ (Plain fs.stat (matches fs root name) p
        ⊎ (Plain fs.stat (matches fs root (trim_suffix name (codes ":"))) p
            ⊎ IsAmong (names name) max_depth root fs.tree p))

find_named-AnswersTo :
    (fs : Files) (root name : Bytes)
    → AnswersTo (IsLogFile fs root name) (find_named fs root name (trim_suffix name (codes ":")))
unfolding find_named
find_named-AnswersTo fs root name =
    let trimmed = trim_suffix name (codes ":") in
    let ms = matches fs root name in
    let ns = matches fs root trimmed in
    let below = IsAmong (names name) max_depth root fs.tree in
    let walked = walk_entries (names name) max_depth root fs.tree in
    or_else-AnswersTo (Existing fs.stat (candidates root name))
      (λ p. Plain fs.stat ms p ⊎ (Plain fs.stat ns p ⊎ below p))
      (first_existing fs.stat (candidates root name))
      (or_else (first_plain fs.stat ms) (or_else (first_plain fs.stat ns) walked))
      (first_existing-AnswersTo fs.stat (candidates root name))
      (or_else-AnswersTo (Plain fs.stat ms) (λ p. Plain fs.stat ns p ⊎ below p)
        (first_plain fs.stat ms) (or_else (first_plain fs.stat ns) walked)
        (first_plain-AnswersTo fs.stat ms)
        (or_else-AnswersTo (Plain fs.stat ns) below (first_plain fs.stat ns) walked
          (first_plain-AnswersTo fs.stat ns)
          (walk_entries-AnswersTo (names name) max_depth root fs.tree)))

-- A name of a file in which `Glob` and `Join` see no more than a name.
abbrev pub IsPlainName : Bytes → Type 0
IsPlainName n = IsFileName n × Lacks b'*' n × Lacks b'?' n × Lacks b'[' n × Lacks b'\\' n

-- What the documentation of `Glob` says of the pattern `<root>/*/<name>`, where the root can be
-- listed and holds nothing special: it matches the paths `<root>/<directory>/<name>`, and all that
-- exist.
pub record GlobMatches (fs : Files) (root : Bytes) : Type 0 where
  pub sound :
      (n p : Bytes)
      → IsPlainName n
      → In p (matches fs root n)
      → (d : Bytes) × IsFileName d × (p ≡ join_path (join_path root d) n)
  pub complete :
      (n d : Bytes)
      → IsPlainName n
      → IsFileName d
      → fs.stat (join_path (join_path root d) n) ≢ none
      → In (join_path (join_path root d) n) (matches fs root n)

-- The name with its last colon or without.
abbrev pub IsOneOf : Bytes → Bytes → Type 0
IsOneOf name n = (n ≡ name) ⊎ (n ≡ trim_suffix name (codes ":"))

-- The log file of a task lies at the path: as an entry of the root, as an entry of one of its
-- directories that is no directory, or as a file below the root.
abbrev pub Lies : Files → Bytes → Bytes → Bytes → Type 0
Lies fs root name p =
    ((n : Bytes) × IsOneOf name n × (p ≡ join_path root n) × (fs.stat p ≢ none))
    ⊎ (((n : Bytes) × (d : Bytes) × IsOneOf name n
          × IsFileName d
          × (p ≡ join_path (join_path root d) n)
          × (fs.stat p ≡ some false))
        ⊎ IsAmong (names name) max_depth root fs.tree p)

AnswersTo-same :
    (P Q : Bytes → Type 0) (o : Option Bytes)
    → ((p : Bytes) → P p → Q p)
    → ((p : Bytes) → Q p → P p)
    → AnswersTo P o
    → AnswersTo Q o
AnswersTo-same P Q (some p) f g h = f p h
AnswersTo-same P Q none f g h = λ p q. h p (g p q)

module _ (fs : Files) (root name : Bytes) (plain : IsPlainName name)
    (plain' : IsPlainName (trim_suffix name (codes ":"))) (globs : GlobMatches fs root) where
  in_directory :
      (n p : Bytes)
      → IsPlainName n
      → IsOneOf name n
      → Plain fs.stat (matches fs root n) p
      → Lies fs root name p
  in_directory n p h one (m, s) =
      let (d, hd, e) = globs.sound n p h m in inr (inl (n, d, one, hd, e, s))

  IsLogFile-Lies : (p : Bytes) → IsLogFile fs root name p → Lies fs root name p
  IsLogFile-Lies p (inl (inl e, s)) = inl (name, inl refl, e, s)
  IsLogFile-Lies p (inl (inr (inl e), s)) = inl (trim_suffix name (codes ":"), inr refl, e, s)
  IsLogFile-Lies p (inl (inr (inr empty), s)) = absurd empty
  IsLogFile-Lies p (inr (inl h)) = in_directory name p plain (inl refl) h
  IsLogFile-Lies p (inr (inr (inl h))) = in_directory _ p plain' (inr refl) h
  IsLogFile-Lies p (inr (inr (inr h))) = inr (inr h)

  matched :
      (n d p : Bytes)
      → IsPlainName n
      → IsFileName d
      → p ≡ join_path (join_path root d) n
      → fs.stat p ≡ some false
      → Plain fs.stat (matches fs root n) p
  matched n d p h hd e s = (
    subst (λ q. In q (matches fs root n)) (sym e)
        (globs.complete n d h hd (λ gone. cc (gone, s, e))),
    s,
  )

  Lies-IsLogFile : (p : Bytes) → Lies fs root name p → IsLogFile fs root name p
  Lies-IsLogFile p (inl (n, inl same, e, s)) = inl (inl (e ∙ ap (join_path root) same), s)
  Lies-IsLogFile p (inl (n, inr same, e, s)) = inl (inr (inl (e ∙ ap (join_path root) same)), s)
  Lies-IsLogFile p (inr (inl (n, d, inl same, hd, e, s))) =
      inr (inl (matched name d p plain hd (e ∙ ap (join_path (join_path root d)) same) s))
  Lies-IsLogFile p (inr (inl (n, d, inr same, hd, e, s))) =
      inr (inr (inl (matched _ d p plain' hd (e ∙ ap (join_path (join_path root d)) same) s)))
  Lies-IsLogFile p (inr (inr h)) = inr (inr (inr h))

-- For every root that is not empty and every UPID that, without blanks around it, is the name of a
-- file with no slash and none of `*?[\`, also without its last colon, and whatever the files are,
-- where `Glob` matches as documented: `FindLogFile` returns the path of an entry with that name,
-- with the colon or without, that lies directly in the root, or is no directory and lies in one of
-- its directories, or is a file in the tree no more than three directories down; and it returns the
-- empty path only if there is none.
pub find_log_file-AnswersTo :
    (fs : Files) (root raw : Bytes)
    → (root == [] ≡ false)
    → (raw == [] ≡ false)
    → IsPlainName (trim_space raw)
    → IsPlainName (trim_suffix (trim_space raw) (codes ":"))
    → GlobMatches fs root
    → (o : Option Bytes) × (find_log_file fs root raw ≡ or_empty o)
      × AnswersTo (Lies fs root (trim_space raw)) o
unfolding find_log_file
find_log_file-AnswersTo fs root raw hr hn plain plain' globs =
    let name = trim_space raw in
    let o = find_named fs root name (trim_suffix name (codes ":")) in
    (
      o,
      rw (hr, hn, plain.0.1),
      AnswersTo-same (IsLogFile fs root name) (Lies fs root name) o
          (IsLogFile-Lies fs root name plain plain' globs)
          (Lies-IsLogFile fs root name plain plain' globs) (find_named-AnswersTo fs root name),
    )
