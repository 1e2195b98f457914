-- ===== src/Pmxcfs/Members/Recent.antt =====
-- The cache of `.members` over any calls of `Members`, one behind the other.
use proxmox_eventbus.Prelude.{
  ℕ, ◌+◌, ◌-◌, ◌<◌, ◌≤◌, ◌≡◌, refl, ◌∙◌, List, [], ◌∷◌, Option, none, some, inl, inr, ltb, ltb→lt,
  Bool-cases, arith,
}
use proxmox_eventbus.Events.{Time}
use proxmox_eventbus.Pmxcfs.Members.{
  Members, Reader, max_age, cached, or_reload, reload_members, members,
}

-- The clock in a call: when the cache is looked at, and, if that is too old, when the file is read
-- and when `loaded` is taken.
pub record Call : Type 0 where
  pub check : Time
  pub read : Time
  pub stamp : Time

-- The clock does not fall, from this time on, and it takes no longer than `slow` from a read to the
-- stamp.
abbrev pub Ascending : ℕ → Time → List Call → Type 0
Ascending slow t [] = Unit
Ascending slow t (c ∷ later) =
    (t ≤ c.check)
    × (c.check ≤ c.read)
    × (c.read ≤ c.stamp)
    × (c.stamp ≤ c.read + slow)
    × Ascending slow c.stamp later

Ascending-from :
    (slow : ℕ) (s t : Time) (calls : List Call)
    → s ≤ t
    → Ascending slow t calls
    → Ascending slow s calls
Ascending-from slow s t [] le up = tt
Ascending-from slow s t (c ∷ later) le (l, order, first, quick, up) =
    (omega arith, order, first, quick, up)

module _ (file_at : Time → Option Members) (slow : ℕ) where
  -- The cached value is what the file held not long before `loaded`.
  abbrev pub HoldsFile : Reader → Type 0
  HoldsFile r =
      (m : Members)
      → r.members ≡ some m
      → (read : Time) × (file_at read ≡ some m) × (read ≤ r.loaded) × (r.loaded ≤ read + slow)

  -- What the calls return, and the cache behind them.
  unfoldable pub run_members : Reader → List Call → List (Call × Option Members)
  unfolding members
  run_members r [] = []
  run_members r (c ∷ later) =
      let (m, next) = members (file_at c.read) c.check c.stamp r in (c, m) ∷ run_members next later

  -- A value that is returned is what the file held, less than two seconds and the time of a read
  -- before the call, or in it.
  abbrev pub IsRecent : Call → Option Members → Type 0
  IsRecent c none = Unit
  IsRecent c (some m) =
      (read : Time) × (file_at read ≡ some m) × (read ≤ c.stamp) × (c.check < read + max_age + slow)

  abbrev pub AllRecent : List (Call × Option Members) → Type 0
  AllRecent [] = Unit
  AllRecent ((c, m) ∷ rest) = IsRecent c m × AllRecent rest

  abbrev StepHolds : Call → Option Members × Reader → Type 0
  StepHolds c (m, r) = IsRecent c m × HoldsFile r × (r.loaded ≤ c.stamp)

  module _ (c : Call) (r : Reader) (in_order : c.check ≤ c.read) (read_first : c.read ≤ c.stamp)
      (quick : c.stamp ≤ c.read + slow) (holds : HoldsFile r) (le : r.loaded ≤ c.check) where
    reload-holds :
        (file : Option Members)
        → file_at c.read ≡ file
        → StepHolds c (reload_members file c.stamp r)
    unfolding reload_members
    reload-holds none e = (tt, holds, omega arith)
    reload-holds (some m) e = (
      (c.read, e, read_first, omega arith),
      λ n same. (c.read, e ∙ same, read_first, quick),
      omega arith,
    )

    cached-IsRecent :
        (o : Option Members) (m : Members)
        → r.members ≡ o
        → cached o r.loaded c.check ≡ some m
        → IsRecent c (some m)
    unfolding cached
    cached-IsRecent none m same e = cc e
    cached-IsRecent (some n) m same e = elim (Bool-cases (ltb (c.check - r.loaded) max_age)) [
      | inl young ↦
          let kept : ◌≡◌ {A = Option Members} (some n) (some m) = rw young at e in
          let below : c.check - r.loaded < max_age = ltb→lt _ _ young in
          let (read, held, before, soon) = holds m (same ∙ kept) in
          (read, held, omega arith, omega arith)
      | inr old ↦ cc (rw old at e)
    ]

    or_reload-holds :
        (o : Option Members)
        → ((m : Members) → o ≡ some m → IsRecent c (some m))
        → StepHolds c (or_reload o (file_at c.read) c.stamp r)
    unfolding or_reload
    or_reload-holds none recent = reload-holds (file_at c.read) refl
    or_reload-holds (some m) recent = (recent m refl, holds, omega arith)

    members-holds : StepHolds c (members (file_at c.read) c.check c.stamp r)
    unfolding members
    members-holds =
        or_reload-holds (cached r.members r.loaded c.check)
          (λ m e. cached-IsRecent r.members m refl e)

  -- Let the clock of the calls of `Members`, one behind the other, not fall, and let it take no
  -- longer than some time from a read of the file to the moment that `loaded` is taken. From a
  -- cache that holds what the file held at most that long before it was loaded, such as an empty
  -- one: every value that a call returns is what the file held at some time before the end of the
  -- call, and less than two seconds and that time before the call looked at the cache. The second
  -- summand is there since the file is read before the clock is.
  pub run_members-AllRecent :
      (r : Reader) (calls : List Call)
      → HoldsFile r
      → Ascending slow r.loaded calls
      → AllRecent (run_members r calls)
  unfolding run_members
  run_members-AllRecent r [] holds up = tt
  run_members-AllRecent r (c ∷ later) holds (le, in_order, read_first, quick, up) =
      let (recent, next, loaded) = members-holds c r in_order read_first quick holds le in
      (
        recent,
        run_members-AllRecent ((members (file_at c.read) c.check c.stamp r).1) later next
            (Ascending-from slow _ c.stamp later loaded up),
      )
