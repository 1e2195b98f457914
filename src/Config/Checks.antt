-- ===== src/Config/Checks.antt =====
-- What the checks of `Validate` leave.
use proxmox_eventbus.Prelude.{
  ◌≤◌, ◌≡◌, refl, subst, ◌⊎◌, inl, inr, ◌↔◌, Bool, true, false, not, ◌&&◌, ◌||◌, List, [], ◌∷◌,
  Option, none, some, Bytes, codes, ◌==◌, bytes_eq, bytes_beq_iff, if◌then◌else◌, Bool-cases, arith,
  All, ℕ, ℤ, pos, negsuc, is_neg,
}
use proxmox_eventbus.Config.{
  Config, ConfigError, ConfigFile, defaults, over_100, known_format, check_include, validate,
  load_decoded, load,
}

-- A format that the program knows, or none.
abbrev pub IsFormat : Bytes → Type 0
IsFormat f = (f ≡ []) ⊎ (f ≡ codes "journald") ⊎ (f ≡ codes "json") ⊎ (f ≡ codes "text")

abbrev pub IsInclude : Bytes → Type 0
IsInclude k = (k ≡ codes "qemu") ⊎ (k ≡ codes "lxc")

abbrev pub IsPercent : ℤ → Type 0
IsPercent z = (n : ℕ) × (z ≡ pos n) × (n ≤ 100)

pub record IsValid (c : Config) : Type 0 where
  pub interval : is_neg c.snapshot.interval ≡ false
  pub jitter : IsPercent c.snapshot.jitter_pc
  pub format : IsFormat c.logging.format
  pub include : All IsInclude c.watch.include

IsPercent-of : (z : ℤ) → (is_neg z || over_100 z) ≡ false → IsPercent z
unfolding over_100
IsPercent-of (pos n) h = (n, refl, ground arith)
IsPercent-of (negsuc n) h = ground arith

of_percent : (z : ℤ) → IsPercent z → (is_neg z || over_100 z) ≡ false
unfolding over_100
of_percent z (n, e, h) = rw e (ground arith)

format_of : (f : Bytes) → (not (f == []) && not (known_format f)) ≡ false → IsFormat f
unfolding known_format
format_of f h = ground (
  arith,
  bytes_beq_iff f [],
  bytes_beq_iff f (codes "journald"),
  bytes_beq_iff f (codes "json"),
  bytes_beq_iff f (codes "text"),
)

of_format : (f : Bytes) → IsFormat f → (not (f == []) && not (known_format f)) ≡ false
unfolding known_format
of_format f h = ground (
  arith,
  bytes_beq_iff f [],
  bytes_beq_iff f (codes "journald"),
  bytes_beq_iff f (codes "json"),
  bytes_beq_iff f (codes "text"),
)

check_include_iff : (ks : List Bytes) → (check_include ks ≡ none) ↔ All IsInclude ks
unfolding check_include
check_include_iff [] = ((λ h. tt), (λ h. refl))
check_include_iff (k ∷ ks) =
    ground
      (arith, check_include_iff ks, bytes_beq_iff k (codes "qemu"), bytes_beq_iff k (codes "lxc"))

refused :
    (b : Bool) (x : ConfigError) (o : Option ConfigError)
    → (if b then some x else o) ≡ none
    → (b ≡ false) × (o ≡ none)
refused b x o h = ground arith

validate-IsValid : (c : Config) → validate c ≡ none → IsValid c
unfolding validate
validate-IsValid c h =
    let (h1, r1) = refused (is_neg c.snapshot.interval) _ _ h in
    let (h2, r2) = refused (is_neg c.snapshot.jitter_pc || over_100 c.snapshot.jitter_pc) _ _ r1 in
    let (h3, r3) =
      refused (not (c.logging.format == []) && not (known_format c.logging.format)) _ _ r2 in
    record {
      interval = h1;
      jitter = IsPercent-of c.snapshot.jitter_pc h2;
      format = format_of c.logging.format h3;
      include = (check_include_iff c.watch.include).0 r3;
    }

IsValid-validate : (c : Config) → IsValid c → validate c ≡ none
unfolding validate
IsValid-validate c h =
    rw (h.interval, of_percent c.snapshot.jitter_pc h.jitter, of_format c.logging.format h.format)
      ((check_include_iff c.watch.include).1 h.include)

-- `Validate` returns nil exactly for the configurations whose interval is not negative, whose
-- jitter is from 0 to 100, whose log format is empty or one of the three, and whose kinds are
-- `qemu` and `lxc`.
validate_iff : (c : Config) → (validate c ≡ none) ↔ IsValid c
validate_iff c = (validate-IsValid c, IsValid-validate c)

defaults-validate : validate defaults ≡ none
unfolding validate defaults
defaults-validate = refl

load_decoded-IsValid :
    (r : Config × Bool) → (load_decoded r).1 ≡ none → IsValid ((load_decoded r).0)
unfolding load_decoded
load_decoded-IsValid (cfg, true) h = validate-IsValid cfg h
load_decoded-IsValid (cfg, false) h = cc

-- Whatever the YAML decoder does with the file, and with no path or no file, a configuration that
-- `Load` returns without an error is one that `Validate` accepts.
pub load-IsValid :
    (decode : Bytes → Config → Config × Bool) (path : Bytes) (file : ConfigFile)
    → (load decode path file).1 ≡ none
    → IsValid ((load decode path file).0)
unfolding load
load-IsValid decode path (ConfigFile.text b) h = elim (Bool-cases (path == [])) [
  | inl e ↦ rw e (validate-IsValid defaults defaults-validate)
  | inr e ↦ rw e (
      load_decoded-IsValid (decode b defaults) (
        subst (λ t. (if t then (defaults, none) else load_decoded (decode b defaults)).1 ≡ none) e
          h))
]
load-IsValid decode path ConfigFile.missing h = validate-IsValid defaults defaults-validate
load-IsValid decode path ConfigFile.failed h = elim (Bool-cases (path == [])) [
  | inl e ↦ rw e (validate-IsValid defaults defaults-validate)
  | inr e ↦ rw e (validate-IsValid defaults defaults-validate)
]
