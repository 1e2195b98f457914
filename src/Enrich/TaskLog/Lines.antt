-- ===== src/Enrich/TaskLog/Lines.antt =====
-- What is found in the lines that Proxmox VE writes to the log of a migration.
use proxmox_eventbus.Prelude.{
  ℕ, ◌≡◌, refl, ap, ◌∙◌, Bool, true, false, ◌&&◌, ◌||◌, [], ◌∷◌, ◌++◌, some, Bytes, codes, ◌==◌,
  nat_eq, bytes_eq, leb, if_true, arith, All, All-map,
}
use proxmox_eventbus.Strings.Affix.{has_prefix}
use proxmox_eventbus.Strings.Case.{lower}
use proxmox_eventbus.Strconv.{atoi}
use proxmox_eventbus.Strconv.Decimal.{format_nat}
use proxmox_eventbus.Strconv.RoundTrip.{IsDigit, format_nat-IsDigit}
use proxmox_eventbus.Enrich.Target.{guarded, node_byte, looks_like_node}
use proxmox_eventbus.Enrich.TaskLog.{
  class_len, class_run, name_at, quoted_name, after_literal, signed_target, to_target, find_target,
  or_try, parse_migrate_target_from_log,
}

-- A byte at which no match begins.
abbrev pub IsQuiet : ℕ → Type 0
IsQuiet c = (lower c == b't') ≡ false

find_target_quiet : (pre s : Bytes) → All IsQuiet pre → find_target (pre ++ s) ≡ find_target s
unfolding find_target signed_target to_target after_literal
find_target_quiet [] s h = refl
find_target_quiet (c ∷ pre) s (hc, h) = rw hc (find_target_quiet pre s h)

digit-IsQuiet : (c : ℕ) → IsDigit c → IsQuiet c
unfolding lower
digit-IsQuiet c h = ground arith

class_len_node : (c : ℕ) (s : Bytes) → node_byte c ≡ true → class_len true c s ≡ 1
unfolding class_len node_byte lower
class_len_node c s h = ground arith

class_len_quote : (s : Bytes) → class_len true 39 s ≡ 0
unfolding class_len lower
class_len_quote [] = refl
class_len_quote (d ∷ []) = refl
class_len_quote (d ∷ e ∷ s) = refl

class_run-name :
    (t rest : Bytes) → All (λ c. node_byte c ≡ true) t → class_run 0 (t ++ 39 ∷ rest) ≡ t
unfolding class_run
class_run-name [] rest h = rw (class_len_quote rest, class_run) refl
class_run-name (c ∷ t) rest (hc, h) =
    rw (class_len_node c (t ++ 39 ∷ rest) hc, class_run) (ap (◌∷◌ c) (class_run-name t rest h))

-- A letter or a digit.
unfoldable pub is_alnum : ℕ → Bool
is_alnum c = leb b'a' (lower c) && leb (lower c) b'z' || leb b'0' c && leb c b'9'

-- A name that the expression takes whole, and `looksLikeNode` accepts.
pub record IsNodeName (c : ℕ) (t : Bytes) : Type 0 where
  pub first : is_alnum c ≡ true
  pub others : All (λ b. node_byte b ≡ true) t
  pub accepted : looks_like_node (c ∷ t) ≡ true

class_len_first : (c : ℕ) (s : Bytes) → is_alnum c ≡ true → class_len false c s ≡ 1
unfolding class_len is_alnum lower
class_len_first c s e = if_true _ _ e

name_at-name :
    (c : ℕ) (t rest : Bytes) → IsNodeName c t → name_at (c ∷ (t ++ 39 ∷ rest)) ≡ some (c ∷ t)
unfolding name_at
name_at-name c t rest h =
    rw (class_len_first c (t ++ 39 ∷ rest) h.first, name_at)
      (ap (λ r. some (c ∷ r)) (class_run-name t rest h.others))

-- `starting migration of VM 101 to node 'pve2' (10.0.0.2)`
abbrev pub starting_line : ℕ → Bytes → Bytes → Bytes
starting_line id name rest =
    codes "starting migration of VM "
    ++ (format_nat id ++ (codes " to node '" ++ (name ++ 39 ∷ rest)))

-- Neither the text in front of the number of the VM nor that behind it matches before the node
-- does.
find_target_head :
    (s : Bytes) → find_target (codes "starting migration of VM " ++ s) ≡ find_target s
unfolding find_target signed_target to_target
find_target_head s = refl

quoted_name-name :
    (c : ℕ) (t rest : Bytes)
    → IsNodeName c t
    → quoted_name (39 ∷ c ∷ (t ++ 39 ∷ rest)) ≡ some (c ∷ t)
unfolding quoted_name
quoted_name-name c t rest h = name_at-name c t rest h

find_target_tail :
    (c : ℕ) (t rest : Bytes)
    → IsNodeName c t
    → find_target (codes " to node '" ++ (c ∷ (t ++ 39 ∷ rest))) ≡ some (c ∷ t)
unfolding find_target signed_target to_target
find_target_tail c t rest h =
    ap (λ o. or_try (or_try o (some (codes "node"))) (find_target (c ∷ (t ++ 39 ∷ rest))))
      (quoted_name-name c t rest h)

-- The line with which Proxmox VE starts the migration of a VM, behind a time stamp or other text
-- without the letter t or T, gives the node that it names: a letter or digit, then letters, digits,
-- `.`, `_` and `-`, that `looksLikeNode` accepts.
pub parse_log-starting_line :
    (stamp : Bytes) (id c : ℕ) (t rest : Bytes)
    → All IsQuiet stamp
    → IsNodeName c t
    → parse_migrate_target_from_log (stamp ++ starting_line id (c ∷ t) rest) ≡ c ∷ t
unfolding parse_migrate_target_from_log guarded
parse_log-starting_line stamp id c t rest quiet h =
    let behind = codes " to node '" ++ (c ∷ (t ++ 39 ∷ rest)) in
    let found : find_target (stamp ++ starting_line id (c ∷ t) rest) ≡ some (c ∷ t) =
      find_target_quiet stamp _ quiet
      ∙ find_target_head (format_nat id ++ behind)
      ∙ find_target_quiet (format_nat id) behind
          (All-map _ _ (format_nat id) digit-IsQuiet (format_nat-IsDigit id))
      ∙ find_target_tail c t rest h in
    rw (found, parse_migrate_target_from_log) (if_true _ _ h.accepted)

lock_line :
    (rest : Bytes) → find_target (codes "trying to acquire lock" ++ rest) ≡ some (codes "acquire")
unfolding find_target signed_target to_target class_run
lock_line rest = refl

-- Where the log begins with the wait for a lock, `trying to acquire lock`, behind a time stamp or
-- other text without the letter t or T, the word behind its `to`, `acquire`, is taken for the node,
-- whatever follows, also where the line with the node does.
pub parse_log-lock_line :
    (stamp rest : Bytes)
    → All IsQuiet stamp
    → parse_migrate_target_from_log (stamp ++ (codes "trying to acquire lock" ++ rest))
      ≡ codes "acquire"
unfolding parse_migrate_target_from_log guarded looks_like_node has_prefix atoi
parse_log-lock_line stamp rest quiet =
    let found : find_target (stamp ++ (codes "trying to acquire lock" ++ rest))
        ≡ some (codes "acquire") =
      find_target_quiet stamp _ quiet ∙ lock_line rest in
    rw (found, parse_migrate_target_from_log) refl
