-- ===== src/Enrich/Target/Nodes.antt =====
-- Whatever `parse_migrate_target` returns is a node name.
use proxmox_eventbus.Prelude.{
  ◌≡◌, refl, ◌⊎◌, inl, inr, Bool, true, false, List, [], ◌∷◌, Option, none, some, not, ◌||◌, Bytes,
  codes, ◌==◌, bytes_eq, if◌then◌else◌, Bool-cases,
}
use proxmox_eventbus.Enrich.Target.{
  first_of, looks_like_node, guarded, kv_option, flag_option, parse_target_option, inspect_kv,
  inspect_arg, split_kv, inspect, after_loop, parse_target_after_migrate, subcommand,
  command_target, command_loop, word_loop, parse_migrate_target, one_of, option_keys, option_flags,
  after_keys,
}
use proxmox_eventbus.Strings.Affix.{has_prefix}
use proxmox_eventbus.Strings.Space.{trim_space}
use proxmox_eventbus.Strings.Case.{to_lower, equal_fold}

-- No target, or a node name.
abbrev pub IsTarget : Bytes → Type 0
IsTarget t = (t ≡ []) ⊎ (looks_like_node t ≡ true)

none-IsTarget : IsTarget []
none-IsTarget = inl refl

if-IsTarget : (b : Bool) (s t : Bytes) → IsTarget s → IsTarget t → IsTarget (if b then s else t)
if-IsTarget true s t hs ht = hs
if-IsTarget false s t hs ht = ht

first_of-IsTarget : (s t : Bytes) → IsTarget s → IsTarget t → IsTarget (first_of s t)
unfolding first_of
first_of-IsTarget s t hs ht = if-IsTarget (s == []) t s ht hs

guarded-IsTarget : (v : Bytes) → IsTarget (guarded v)
unfolding guarded
guarded-IsTarget v = elim (Bool-cases (looks_like_node v)) [
  | inl h ↦ rw h (inr h)
  | inr h ↦ rw h (inl refl)
]

kv_option-IsTarget : (o : Option (Bytes × Bytes)) → IsTarget (kv_option o)
unfolding kv_option
kv_option-IsTarget none = none-IsTarget
kv_option-IsTarget (some (k, v)) =
    if-IsTarget (one_of option_keys (to_lower k)) _ [] (guarded-IsTarget v) none-IsTarget

flag_option-IsTarget : (norm : Bytes) (rest : List Bytes) → IsTarget (flag_option norm rest)
unfolding flag_option
flag_option-IsTarget norm [] = none-IsTarget
flag_option-IsTarget norm (next ∷ rest) =
    if-IsTarget (one_of option_flags norm) _ [] (guarded-IsTarget next) none-IsTarget

parse_target_option-IsTarget : (args : List Bytes) → IsTarget (parse_target_option args)
unfolding parse_target_option
parse_target_option-IsTarget [] = none-IsTarget
parse_target_option-IsTarget (a ∷ rest) =
    let later = parse_target_option-IsTarget rest in
    if-IsTarget (trim_space a == []) _ _ later (
      first_of-IsTarget _ _ (kv_option-IsTarget _)
        (first_of-IsTarget _ _ (flag_option-IsTarget (to_lower (trim_space a)) rest) later))

if-IsTarget_fst :
    (b : Bool) (x y : Bytes × Bool)
    → IsTarget (x.0)
    → IsTarget (y.0)
    → IsTarget ((if b then x else y).0)
if-IsTarget_fst true x y hx hy = hx
if-IsTarget_fst false x y hx hy = hy

inspect_arg-IsTarget :
    (seen : Bool) (arg : Bytes) (o : Option (Bytes × Bytes)) → IsTarget ((inspect_arg seen arg o).0)
unfolding inspect_arg inspect_kv
inspect_arg-IsTarget seen arg none =
    if-IsTarget_fst (not seen) _ _ none-IsTarget (guarded-IsTarget arg)
inspect_arg-IsTarget seen arg (some (k, v)) =
    if-IsTarget_fst (one_of after_keys (to_lower k)) _ _ (guarded-IsTarget v) (
      if-IsTarget_fst (one_of (codes "vmid" ∷ codes "id" ∷ []) (to_lower k)) _ _ none-IsTarget
        none-IsTarget)

inspect-IsTarget : (seen : Bool) (arg : Bytes) → IsTarget ((inspect seen arg).0)
unfolding inspect
inspect-IsTarget seen arg =
    if-IsTarget_fst (arg == [] || has_prefix arg (codes "-")) _ _ none-IsTarget
      (inspect_arg-IsTarget seen arg (split_kv arg))

after_loop-IsTarget : (seen : Bool) (args : List Bytes) → IsTarget (after_loop seen args)
unfolding after_loop
after_loop-IsTarget seen [] = none-IsTarget
after_loop-IsTarget seen (arg ∷ rest) =
    first_of-IsTarget _ _ (inspect-IsTarget seen arg)
      (after_loop-IsTarget ((inspect seen arg).1) rest)

parse_target_after_migrate-IsTarget :
    (args : List Bytes) → IsTarget (parse_target_after_migrate args)
unfolding parse_target_after_migrate
parse_target_after_migrate-IsTarget args =
    first_of-IsTarget _ _ (parse_target_option-IsTarget args) (after_loop-IsTarget false args)

migrate-IsTarget :
    (b : Bool) (rest : List Bytes) → IsTarget (if b then parse_target_after_migrate rest else [])
migrate-IsTarget b rest =
    if-IsTarget b _ [] (parse_target_after_migrate-IsTarget rest) none-IsTarget

subcommand-IsTarget : (args : List Bytes) → IsTarget (subcommand args)
unfolding subcommand
subcommand-IsTarget [] = none-IsTarget
subcommand-IsTarget (a ∷ rest) = migrate-IsTarget (equal_fold a (codes "migrate")) rest

command_loop-IsTarget : (args : List Bytes) → IsTarget (command_loop args)
unfolding command_loop command_target
command_loop-IsTarget [] = none-IsTarget
command_loop-IsTarget (a ∷ rest) =
    first_of-IsTarget _ _ (if-IsTarget _ _ _ (subcommand-IsTarget rest) (migrate-IsTarget _ rest))
      (command_loop-IsTarget rest)

word_loop-IsTarget : (args : List Bytes) → IsTarget (word_loop args)
unfolding word_loop
word_loop-IsTarget [] = none-IsTarget
word_loop-IsTarget (a ∷ rest) =
    first_of-IsTarget _ _ (migrate-IsTarget (equal_fold a (codes "migrate")) rest)
      (word_loop-IsTarget rest)

-- For all arguments of a process, `parseMigrateTarget` returns the empty text or a text that
-- `looksLikeNode` accepts: never an option, a number, or a text with other bytes.
parse_migrate_target-IsTarget : (args : List Bytes) → IsTarget (parse_migrate_target args)
unfolding parse_migrate_target
parse_migrate_target-IsTarget args =
    first_of-IsTarget _ _ (parse_target_option-IsTarget args)
      (first_of-IsTarget _ _ (command_loop-IsTarget args) (word_loop-IsTarget args))
