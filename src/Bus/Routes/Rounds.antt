-- ===== src/Bus/Routes/Rounds.antt =====
-- The rounds of `runRouteManager` (internal/bus/routes.go).
use proxmox_eventbus.Prelude.{
  ℕ, zero, suc, ◌≡◌, refl, ap, ◌∙◌, inl, inr, Bool, true, false, List, [], ◌∷◌, ◌++◌, append-nil,
  Option, none, some, Bytes, codes, ◌==◌, bytes_eq, bytes_beq_refl, Bool-cases,
}
use proxmox_eventbus.Strings.Split.{join}
use proxmox_eventbus.Pmxcfs.Members.{Node}
use proxmox_eventbus.Bus.Routes.{
  sort, peer_ips, RouteOptions, RouteState, apply_ips, apply_routes, run_route_manager, peer_urls,
  routes_to_urls,
}

-- A list of the same element.
unfoldable repeated {ℓ} : {A : Type ℓ} → ℕ → A → List A
repeated zero x = []
repeated (suc n) x = x ∷ repeated n x

module _ {ℓ} {Url : Type ℓ} (parse : Bytes → Option Url) where
  -- What the configuration says before any reload, or what one reading of the peers gives.
  pub data InStep (opts : RouteOptions) (begin st : RouteState Url) : Type ℓ where
    as_begun : st ≡ begin → InStep opts begin st
    of_peers :
        (ips : List Bytes)
        → st.last ≡ join ips (codes ",")
        → st.routes
          ≡ peer_urls parse opts.cluster_port ips ++ routes_to_urls parse opts.static_routes
        → InStep opts begin st

module _ {ℓ} {Url : Type ℓ} (parse : Bytes → Option Url) (reload : List Url → Bool) where
  apply_ips_again :
      (opts : RouteOptions) (ips : List Bytes) (st : RouteState Url)
      → ((us : List Url) → reload us ≡ true)
      → apply_ips parse reload opts ips ((apply_ips parse reload opts ips st).1)
        ≡ ([], (apply_ips parse reload opts ips st).1)
  unfolding apply_ips
  apply_ips_again opts ips st h =
      let urls = peer_urls parse opts.cluster_port ips ++ routes_to_urls parse opts.static_routes in
      elim (Bool-cases (join ips (codes ",") == st.last)) [
        | inl e ↦ rw e (rw e)
        | inr e ↦ rw (e, h urls) (rw (bytes_beq_refl (join ips (codes ","))))
      ]

  apply_ips_fails :
      (opts : RouteOptions) (ips : List Bytes) (st : RouteState Url)
      → ((us : List Url) → reload us ≡ false)
      → (apply_ips parse reload opts ips st).1 ≡ st
  unfolding apply_ips
  apply_ips_fails opts ips st h =
      let urls = peer_urls parse opts.cluster_port ips ++ routes_to_urls parse opts.static_routes in
      elim (Bool-cases (join ips (codes ",") == st.last)) [ inl e ↦ rw e | inr e ↦ rw (e, h urls) ]

  -- A second call with the same peers.
  apply_routes_again :
      (opts : RouteOptions) (ps : Option (List Node)) (st : RouteState Url)
      → ((us : List Url) → reload us ≡ true)
      → apply_routes parse reload opts ps ((apply_routes parse reload opts ps st).1)
        ≡ ([], (apply_routes parse reload opts ps st).1)
  unfolding apply_routes
  apply_routes_again opts none st h = refl
  apply_routes_again opts (some ps) st h = apply_ips_again opts (sort (peer_ips ps)) st h

  -- Where the server refuses every reload.
  apply_routes_fails :
      (opts : RouteOptions) (ps : Option (List Node)) (st : RouteState Url)
      → ((us : List Url) → reload us ≡ false)
      → (apply_routes parse reload opts ps st).1 ≡ st
  unfolding apply_routes
  apply_routes_fails opts none st h = refl
  apply_routes_fails opts (some ps) st h = apply_ips_fails opts (sort (peer_ips ps)) st h

  -- Where the server accepts every reload, any number of further rounds with the same peers, read
  -- or not, tries no reload and changes nothing, from every state of the routes.
  run_route_manager_settles :
      (opts : RouteOptions) (ps : Option (List Node)) (n : ℕ) (st : RouteState Url)
      → ((us : List Url) → reload us ≡ true)
      → run_route_manager parse opts ((ps, reload) ∷ repeated n (ps, reload)) st
        ≡ apply_routes parse reload opts ps st
  unfolding run_route_manager repeated
  run_route_manager_settles opts ps zero st h =
      ap (λ us. (us, (apply_routes parse reload opts ps st).1)) (append-nil _)
  run_route_manager_settles opts ps (suc n) st h =
      let first = apply_routes parse reload opts ps st in
      ap (λ r. (first.0 ++ r.0, r.1))
        (run_route_manager_settles opts ps n first.1 h ∙ apply_routes_again opts ps st h)
      ∙ ap (λ us. (us, first.1)) (append-nil first.0)

  apply_ips-InStep :
      (opts : RouteOptions) (begin st : RouteState Url) (ips : List Bytes)
      → InStep parse opts begin st
      → InStep parse opts begin ((apply_ips parse reload opts ips st).1)
  unfolding apply_ips
  apply_ips-InStep opts begin st ips h =
      let urls = peer_urls parse opts.cluster_port ips ++ routes_to_urls parse opts.static_routes in
      elim (Bool-cases (join ips (codes ",") == st.last)) [
        | inl e ↦ rw e h
        | inr e ↦ elim (Bool-cases (reload urls)) [
          | inl r ↦ rw (e, r) (of_peers ips refl refl)
          | inr r ↦ rw (e, r) h
        ]
      ]

module _ {ℓ} {Url : Type ℓ} (parse : Bytes → Option Url) where
  -- Whatever the peers are at each round, and whichever reloads the server refuses in it, the
  -- routes in use and the remembered list of peers always belong together: both are those of the
  -- start, or both are made of the same list of addresses, with the static routes behind.
  pub run_route_manager-InStep :
      (opts : RouteOptions) (begin : RouteState Url)
      (rounds : List (Option (List Node) × (List Url → Bool)))
      → (st : RouteState Url) → InStep parse opts begin st
      → InStep parse opts begin ((run_route_manager parse opts rounds st).1)
  unfolding run_route_manager apply_routes
  run_route_manager-InStep opts begin [] st h = h
  run_route_manager-InStep opts begin ((none, reload) ∷ rounds) st h =
      run_route_manager-InStep opts begin rounds st h
  run_route_manager-InStep opts begin ((some ps, reload) ∷ rounds) st h =
      run_route_manager-InStep opts begin rounds _
        (apply_ips-InStep parse reload opts begin st (sort (peer_ips ps)) h)
