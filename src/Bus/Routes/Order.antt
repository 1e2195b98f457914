-- ===== src/Bus/Routes/Order.antt =====
-- The routes do not depend on the order in which Go ranges over the map of the nodes.
use proxmox_eventbus.Prelude.{
  ◌≡◌, refl, sym, ap, ◌∙◌, inl, inr, Bool, true, false, ◌||◌, List, [], ◌∷◌, Option, some, Bytes,
  ◌==◌, bytes_eq, if◌then◌else◌, Bool-cases, arith, is_zero,
}
use mathlib.Core.List.{Permᴰ}
use proxmox_eventbus.Pmxcfs.Members.{Node, Members, peers_of, peers}
use proxmox_eventbus.Bus.Routes.{
  bytes_leb, insert, sort, peer_ips, RouteOptions, RouteState, apply_ips, apply_routes,
}

bytes_leb_total : (s t : Bytes) → bytes_leb s t ≡ false → bytes_leb t s ≡ true
unfolding bytes_leb
bytes_leb_total [] t h = ground arith
bytes_leb_total (c ∷ s) [] h = refl
bytes_leb_total (c ∷ s) (d ∷ t) h = ground (arith, bytes_leb_total s t)

bytes_leb_antisym : (s t : Bytes) → bytes_leb s t ≡ true → bytes_leb t s ≡ true → s ≡ t
unfolding bytes_leb
bytes_leb_antisym [] [] h k = refl
bytes_leb_antisym [] (d ∷ t) h k = ground arith
bytes_leb_antisym (c ∷ s) [] h k = ground arith
bytes_leb_antisym (c ∷ s) (d ∷ t) h k = ground (arith, bytes_leb_antisym s t)

bytes_leb_trans :
    (s t u : Bytes) → bytes_leb s t ≡ true → bytes_leb t u ≡ true → bytes_leb s u ≡ true
unfolding bytes_leb
bytes_leb_trans [] t u h k = refl
bytes_leb_trans (c ∷ s) [] u h k = ground arith
bytes_leb_trans (c ∷ s) (d ∷ t) [] h k = ground arith
bytes_leb_trans (c ∷ s) (d ∷ t) (e ∷ u) h k = ground (arith, bytes_leb_trans s t u)

insert_swap_le :
    (a b : Bytes) (l : List Bytes)
    → bytes_leb a b ≡ true
    → insert a (insert b l) ≡ insert b (insert a l)
unfolding insert
insert_swap_le a b [] h = ground (arith, bytes_leb_antisym a b)
insert_swap_le a b (t ∷ ts) h = ground (
  arith,
  bytes_leb_antisym a b,
  bytes_leb_trans a b t,
  bytes_leb_trans b a t,
  insert_swap_le a b ts h,
)

insert_swap : (a b : Bytes) (l : List Bytes) → insert a (insert b l) ≡ insert b (insert a l)
insert_swap a b l = elim (Bool-cases (bytes_leb a b)) [
  | inl h ↦ insert_swap_le a b l h
  | inr h ↦ sym (insert_swap_le b a l (bytes_leb_total a b h))
]

-- The sorted addresses of the peers of a node.
sorted_ips : Bytes → List (Bytes × Node) → List Bytes
sorted_ips self l = sort (peer_ips (peers_of self l))

-- An entry of the map, put among the sorted addresses of the others.
add_entry : Bytes → Bytes × Node → List Bytes → List Bytes
add_entry self (k, n) s =
    if k == self || is_zero n.online then s else if n.ip == [] then s else insert n.ip s

sorted_ips-cons :
    (self : Bytes) (e : Bytes × Node) (l : List (Bytes × Node))
    → sorted_ips self (e ∷ l) ≡ add_entry self e (sorted_ips self l)
unfolding sorted_ips add_entry sort peer_ips peers_of
sorted_ips-cons self (k, n) l = elim (Bool-cases (k == self || is_zero n.online)) [
  | inl h ↦ rw h
  | inr h ↦ rw h (elim (Bool-cases (n.ip == [])) [ inl i ↦ rw i | inr i ↦ rw i ])
]

add_entry_swap :
    (self : Bytes) (d e : Bytes × Node) (s : List Bytes)
    → add_entry self d (add_entry self e s) ≡ add_entry self e (add_entry self d s)
unfolding add_entry
add_entry_swap self (j, m) (k, n) s = ground (arith, insert_swap m.ip n.ip s)

sorted_ips-Perm :
    (self : Bytes) {l m : List (Bytes × Node)} → Permᴰ l m → sorted_ips self l ≡ sorted_ips self m
sorted_ips-Perm self Permᴰ.nil = refl
sorted_ips-Perm self (Permᴰ.cons {a} {b} {l₁} {l₂} e p) =
    sorted_ips-cons self a l₁
    ∙ ap (add_entry self a) (sorted_ips-Perm self p)
    ∙ ap (λ x. add_entry self x (sorted_ips self l₂)) e
    ∙ sym (sorted_ips-cons self b l₂)
sorted_ips-Perm self (Permᴰ.swap {a} {b} {a'} {b'} {l} e f) =
    two a b
    ∙ add_entry_swap self a b (sorted_ips self l)
    ∙ ap (λ x. add_entry self x (add_entry self a (sorted_ips self l))) f
    ∙ ap (λ x. add_entry self a' (add_entry self x (sorted_ips self l))) e
    ∙ sym (two a' b')
  where
    two :
        (x y : Bytes × Node)
        → sorted_ips self (x ∷ y ∷ l) ≡ add_entry self x (add_entry self y (sorted_ips self l))
    two x y = sorted_ips-cons self x (y ∷ l) ∙ ap (add_entry self x) (sorted_ips-cons self y l)
sorted_ips-Perm self (Permᴰ.trans p q) = sorted_ips-Perm self p ∙ sorted_ips-Perm self q

-- The same members with the nodes in another order.
abbrev pub reordered : Members → List (Bytes × Node) → Members
reordered m nodes = record m { node_list = nodes }

module _ {ℓ} {Url : Type ℓ} (parse : Bytes → Option Url) (reload : List Url → Bool) where
  -- For all members, in whatever order Go ranges over the map of the nodes, `applyRoutes` tries the
  -- same reloads with the same routes and leaves the same state.
  pub apply_routes-Perm :
      (opts : RouteOptions) (m : Members) (nodes : List (Bytes × Node)) (st : RouteState Url)
      → Permᴰ m.node_list nodes
      → apply_routes parse reload opts (peers (some m)) st
        ≡ apply_routes parse reload opts (peers (some (reordered m nodes))) st
  unfolding apply_routes peers
  apply_routes-Perm opts m nodes st p =
      ap (λ ips. apply_ips parse reload opts ips st)
        (unfold sorted_ips in sorted_ips-Perm m.node_name p)
