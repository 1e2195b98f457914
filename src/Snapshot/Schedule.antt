-- ===== src/Snapshot/Schedule.antt =====
-- internal/snapshot/snapshot.go: when `Run` emits its batches.
--
-- Durations are nanoseconds in an int64. The random number that `rand.Int64N` gives below a bound
-- is a parameter.
use native.Mathlib.Nat.{mul-le-mul_left}
use proxmox_eventbus.Prelude.{
  ℕ, zero, suc, ◌-◌, ◌*◌, ◌/◌, ◌%◌, ◌^◌, ◌<◌, ◌≤◌, ◌≡◌, refl, List, [], ◌∷◌, if◌then◌else◌,
  Bool-cases, inl, inr, ltb, arith, ℤ, pos, negsuc,
}

-- -n, as an integer.
unfoldable pub minus : ℕ → ℤ
minus zero = pos 0
minus (suc n) = negsuc n

-- The int64 that holds the low 64 bits of a number.
unfoldable pub wrap_int64 : ℕ → ℤ
unfolding minus
wrap_int64 n = let low = n % 2 ^ 64 in if ltb low (2 ^ 63) then pos low else minus (2 ^ 64 - low)

-- Division by 100, which cuts towards zero.
unfoldable pub percent : ℤ → ℤ
unfolding minus
percent (pos n) = pos (n / 100)
percent (negsuc n) = minus (suc n / 100)

-- `jitter`, of the bound, where that is positive
unfoldable pub below_bound : (ℕ → ℕ) → ℤ → ℕ
below_bound rand (pos zero) = 0
below_bound rand (pos (suc n)) = rand (suc n)
below_bound rand (negsuc n) = 0

-- `jitter`, of an interval and of `JitterPC`
unfoldable pub jitter : (ℕ → ℕ) → ℕ → ℤ → ℕ
unfolding below_bound percent wrap_int64
jitter rand interval (pos zero) = 0
jitter rand interval (pos (suc pc)) = below_bound rand (percent (wrap_int64 (interval * suc pc)))
jitter rand interval (negsuc n) = 0

-- When `Run` emits: once and at once, or behind a first wait and then by a ticker.
pub data Schedule : Type 0 where
  once : Schedule
  ticking : ℕ → ℕ → Schedule

unfoldable pub schedule : (ℕ → ℕ) → ℤ → ℤ → Schedule
unfolding jitter
schedule rand (pos zero) pc = once
schedule rand (pos (suc i)) pc = ticking (jitter rand (suc i) pc) (suc i)
schedule rand (negsuc n) pc = once

-- What a `select` of `Run` receives.
pub data Wake : Type 0 where
  cancelled fires : Wake

-- The number of batches of a ticking `Run`, of what its `select`s receive one behind the other.
unfoldable pub batches : List Wake → ℕ
batches [] = 0
batches (cancelled ∷ ws) = 0
batches (fires ∷ ws) = suc (batches ws)

unfoldable pub run_batches : Schedule → List Wake → ℕ
unfolding batches
run_batches once ws = 1
run_batches (ticking first period) ws = batches ws

module _ (rand : ℕ → ℕ) (random : (m : ℕ) → rand (suc m) < suc m) where
  below_bound-lt :
      (bound interval : ℕ)
      → 0 < interval
      → bound ≤ interval
      → below_bound rand (pos bound) < interval
  unfolding below_bound
  below_bound-lt zero interval positive h = positive
  below_bound-lt (suc n) interval positive h = omega (arith, random n)

  below_neg : (n : ℕ) → below_bound rand (minus n) ≡ 0
  unfolding below_bound minus
  below_neg zero = refl
  below_neg (suc n) = refl

  below_negative : (n : ℕ) → below_bound rand (percent (minus n)) ≡ 0
  unfolding below_bound percent
  below_negative zero = refl
  below_negative (suc n) = below_neg (suc n / 100)

  below_wrapped :
      (n interval : ℕ)
      → 0 < interval
      → n ≤ interval * 100
      → below_bound rand (percent (wrap_int64 n)) < interval
  unfolding wrap_int64 percent
  below_wrapped n interval positive h = elim (Bool-cases (ltb (n % 2 ^ 64) (2 ^ 63))) [
    | inl e ↦ rw e (below_percent (n % 2 ^ 64) (omega arith))
    | inr e ↦ rw (e, below_negative (2 ^ 64 - n % 2 ^ 64)) positive
  ]
    where
      below_percent :
          (low : ℕ) → low ≤ interval * 100 → below_bound rand (percent (pos low)) < interval
      below_percent low le = below_bound-lt (low / 100) interval positive (omega arith)

  -- For every positive interval and every jitter up to 100 percent, where `rand.Int64N` gives a
  -- number below its bound, `Run` waits once for less than the interval, also where the product of
  -- the two overflows an int64, and from then on ticks at the interval, without a jitter.
  pub schedule-bounds :
      (interval pc : ℕ)
      → 0 < interval
      → pc ≤ 100
      → (first : ℕ) × (schedule rand (pos interval) (pos pc) ≡ ticking first interval)
        × (first < interval)
  unfolding schedule jitter
  schedule-bounds zero pc positive h = absurd (omega arith)
  schedule-bounds (suc i) zero positive h = (0, refl, omega arith)
  schedule-bounds (suc i) (suc pc) positive h = (
    jitter rand (suc i) (pos (suc pc)),
    refl,
    below_wrapped (suc i * suc pc) (suc i) positive (mul-le-mul_left (suc i) h),
  )
