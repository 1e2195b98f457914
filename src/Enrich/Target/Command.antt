-- ===== src/Enrich/Target/Command.antt =====
-- The command lines of `qm migrate` and `pct migrate`: the argument behind the VMID is the target.
use proxmox_eventbus.Prelude.{
  ◌≡◌, ◌≢◌, refl, sym, ◌∙◌, true, false, List, [], ◌∷◌, ◌++◌, none, Bytes, codes, ◌==◌, bytes_eq,
  nat_eq, bytes_beq, bytes_beq_ne, if_true, if_false, Bool-cases, inl, inr, arith, All, Lacks,
  every,
}
use proxmox_eventbus.Enrich.Target.{
  first_of, looks_like_node, guarded, is_number, node_byte, kv_option, flag_option,
  parse_target_option, inspect_arg, split_kv, kv_parts, inspect, after_loop,
  parse_target_after_migrate, subcommand, command_target, command_loop, parse_migrate_target,
  one_of, tools, workers, last_path_element,
}
use proxmox_eventbus.Strings.Affix.{has_prefix}
use proxmox_eventbus.Strings.Split.Laws.{cut_none}
use proxmox_eventbus.Strings.Space.{trim_space}
use proxmox_eventbus.Strings.Case.{to_lower, equal_fold}

-- The name of the command of an argument, as `parseMigrateTarget` compares it.
abbrev pub base : Bytes → Bytes
base a = to_lower (last_path_element a)

-- The argument names none of the four commands.
abbrev pub IsOther : Bytes → Type 0
IsOther a = (one_of tools (base a) ≡ false) × (one_of workers (base a) ≡ false)

pub first_of_nil : (b : Bytes) → first_of [] b ≡ b
unfolding first_of
first_of_nil b = refl

pub first_of_some : (a b : Bytes) → a ≢ [] → first_of a b ≡ a
unfolding first_of
first_of_some a b h = rw (bytes_beq_ne a [] h)

first_of-nil_left : (a b : Bytes) → first_of a b ≡ [] → a ≡ []
unfolding first_of bytes_beq
first_of-nil_left [] b h = refl
first_of-nil_left (c ∷ a) b h = h

first_of-nil_right : (a b : Bytes) → first_of a b ≡ [] → b ≡ []
unfolding first_of bytes_beq
first_of-nil_right [] b h = h
first_of-nil_right (c ∷ a) b h = cc

-- Where no argument is an option with a target, none of the later ones is.
option_tail :
    (a : Bytes) (rest : List Bytes)
    → parse_target_option (a ∷ rest) ≡ []
    → parse_target_option rest ≡ []
unfolding parse_target_option
option_tail a rest h = elim (Bool-cases (trim_space a == [])) [
  | inl e ↦ sym (if_true _ _ e) ∙ h
  | inr e ↦
      first_of-nil_right (flag_option (to_lower (trim_space a)) rest) (parse_target_option rest)
        (first_of-nil_right (kv_option (split_kv (trim_space a))) _ (sym (if_false _ _ e) ∙ h))
]

node_bytes-Lacks : (s : Bytes) → every node_byte s ≡ true → Lacks b'=' s
unfolding node_byte
node_bytes-Lacks [] h = tt
node_bytes-Lacks (c ∷ s) h = (ground arith, node_bytes-Lacks s (ground arith))

split_kv-none : (s : Bytes) → Lacks b'=' s → split_kv s ≡ none
unfolding split_kv kv_parts
split_kv-none s h = rw (cut_none s b'=' h)

-- An argument that stands for a VMID in `parseTargetAfterMigrate`.
pub record IsId (id : Bytes) : Type 0 where
  pub number : is_number id ≡ true
  pub nonempty : id ≢ []
  pub no_option : has_prefix id (codes "-") ≡ false
  pub no_pair : Lacks b'=' id

inspect-id : (id : Bytes) → IsId id → inspect false id ≡ ([], true)
unfolding inspect inspect_arg
inspect-id id h =
    rw (bytes_beq_ne id [] h.nonempty, h.no_option, split_kv-none id h.no_pair) (rw h.number)

node-parts :
    (t : Bytes)
    → looks_like_node t ≡ true
    → (t ≢ []) × (has_prefix t (codes "-") ≡ false) × (every node_byte t ≡ true)
unfolding looks_like_node bytes_beq
node-parts [] h = ground arith
node-parts (c ∷ t) h = ((λ e. cc), ground arith, ground arith)

inspect-node : (t : Bytes) → looks_like_node t ≡ true → inspect true t ≡ (t, true)
unfolding inspect inspect_arg guarded
inspect-node t h =
    let (n, p, b) = node-parts t h in
    rw (bytes_beq_ne t [] n, p, split_kv-none t (node_bytes-Lacks t b)) (rw h)

-- Behind `migrate`: the VMID, the target, and options that name no target.
after_migrate :
    (id t : Bytes) (opts : List Bytes)
    → IsId id
    → looks_like_node t ≡ true
    → parse_target_option (id ∷ t ∷ opts) ≡ []
    → parse_target_after_migrate (id ∷ t ∷ opts) ≡ t
unfolding parse_target_after_migrate after_loop
after_migrate id t opts hi ht h = rw h (
    first_of_nil _
    ∙ rw (inspect-id id hi)
        (first_of_nil _ ∙ rw (inspect-node t ht) (first_of_some t _ (node-parts t ht).0)))

command_loop-found :
    (pre : List Bytes) (tool m id t : Bytes) (opts : List Bytes)
    → All IsOther pre
    → one_of tools (base tool) ≡ true
    → equal_fold m (codes "migrate") ≡ true
    → IsId id
    → looks_like_node t ≡ true
    → parse_target_option (pre ++ tool ∷ m ∷ id ∷ t ∷ opts) ≡ []
    → command_loop (pre ++ tool ∷ m ∷ id ∷ t ∷ opts) ≡ t
unfolding command_loop command_target subcommand
command_loop-found [] tool m id t opts _ ht hm hi hn h =
    let tail = option_tail m _ (option_tail tool _ h) in
    rw (ht, hm, after_migrate id t opts hi hn tail) (first_of_some t _ (node-parts t hn).0)
command_loop-found (a ∷ pre) tool m id t opts ((h1, h2), hp) ht hm hi hn h =
    rw (h1, h2)
      (first_of_nil _ ∙ command_loop-found pre tool m id t opts hp ht hm hi hn (option_tail a _ h))

-- Let a process have the arguments of `qm` or `pct`, by any path and behind arguments that name
-- none of the four commands (an interpreter and its flags), then `migrate` in any case, a VMID, a
-- node name and more arguments, where no argument is an option that names a target. Then
-- `parseMigrateTarget` returns that node name.
pub parse_migrate_target-command :
    (pre : List Bytes) (tool m id t : Bytes) (opts : List Bytes)
    → All IsOther pre
    → one_of tools (base tool) ≡ true
    → equal_fold m (codes "migrate") ≡ true
    → IsId id
    → looks_like_node t ≡ true
    → parse_target_option (pre ++ tool ∷ m ∷ id ∷ t ∷ opts) ≡ []
    → parse_migrate_target (pre ++ tool ∷ m ∷ id ∷ t ∷ opts) ≡ t
unfolding parse_migrate_target
parse_migrate_target-command pre tool m id t opts hp ht hm hi hn h = rw h (
    first_of_nil _
    ∙ rw (command_loop-found pre tool m id t opts hp ht hm hi hn h)
        (first_of_some t _ (node-parts t hn).0))
