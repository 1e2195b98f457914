-- ===== src/Bus/Routes.antt =====
-- internal/bus/routes.go: `runRouteManager` and `applyRoutes`, and `routesToURLs` of
-- internal/bus/server.go.
--
-- `url.Parse` and the reload of the embedded NATS server are parameters: a URL is what parsing
-- gives, and a reload with a list of routes succeeds or fails.
pub mod Order
pub mod Rounds
use proxmox_eventbus.Prelude.{
  Bool, true, false, ◌&&◌, ◌||◌, List, [], ◌∷◌, ◌++◌, Option, none, some, Bytes, codes, ◌==◌,
  nat_eq, bytes_eq, bytes_beq, ltb, if◌then◌else◌, ℤ,
}
use proxmox_eventbus.Strings.Split.{join}
use proxmox_eventbus.Strconv.Decimal.{format_int}
use proxmox_eventbus.Pmxcfs.Members.{Node}

-- `<=` on strings
unfoldable pub bytes_leb : Bytes → Bytes → Bool
bytes_leb [] t = true
bytes_leb (c ∷ s) [] = false
bytes_leb (c ∷ s) (d ∷ t) = ltb c d || c == d && bytes_leb s t

unfoldable pub insert : Bytes → List Bytes → List Bytes
unfolding bytes_leb
insert s [] = s ∷ []
insert s (t ∷ ts) = let rest = insert s ts in if bytes_leb s t then s ∷ t ∷ ts else t ∷ rest

-- `sort.Strings`
unfoldable pub sort : List Bytes → List Bytes
unfolding insert
sort [] = []
sort (s ∷ ss) = insert s (sort ss)

-- the addresses of the peers that have one
unfoldable pub peer_ips : List Node → List Bytes
unfolding bytes_beq
peer_ips [] = []
peer_ips (p ∷ ps) = let rest = peer_ips ps in if p.ip == [] then rest else p.ip ∷ rest

abbrev pub route_text : ℤ → Bytes → Bytes
route_text port ip = codes "nats-route://" ++ (ip ++ codes ":" ++ format_int port)

module _ {ℓ} {Url : Type ℓ} (parse : Bytes → Option Url) where
  -- `routesToURLs`; the loop over the peers skips what does not parse in the same way
  unfoldable pub routes_to_urls : List Bytes → List Url
  routes_to_urls [] = []
  routes_to_urls (r ∷ rs) = elim (parse r) [
    | none ↦ routes_to_urls rs
    | some u ↦ u ∷ routes_to_urls rs
  ]

  unfoldable pub peer_urls : ℤ → List Bytes → List Url
  peer_urls port [] = []
  peer_urls port (ip ∷ ips) = elim (parse (route_text port ip)) [
    | none ↦ peer_urls port ips
    | some u ↦ u ∷ peer_urls port ips
  ]

-- What `applyRoutes` changes: `*last`, and the routes of `natsOpts`.
pub record RouteState {ℓ} (Url : Type ℓ) : Type ℓ where
  pub last : Bytes
  pub routes : List Url

-- The settings that it reads.
pub record RouteOptions : Type 0 where
  pub cluster_port : ℤ
  pub static_routes : List Bytes

module _ {ℓ} {Url : Type ℓ} (parse : Bytes → Option Url) (reload : List Url → Bool) where
  -- behind the sorting: the list of the reloads that are tried, and the state
  unfoldable pub apply_ips :
      RouteOptions → List Bytes → RouteState Url → List (List Url) × RouteState Url
  unfolding join routes_to_urls peer_urls bytes_beq
  apply_ips opts ips st =
      let key = join ips (codes ",") in
      let urls = peer_urls parse opts.cluster_port ips ++ routes_to_urls parse opts.static_routes in
      if key == st.last
      then ([], st)
      else (urls ∷ [], if reload urls then record { last = key; routes = urls } else st)

  -- `applyRoutes`, of what `Peers` returns
  unfoldable pub apply_routes :
      RouteOptions → Option (List Node) → RouteState Url → List (List Url) × RouteState Url
  unfolding apply_ips sort peer_ips
  apply_routes opts none st = ([], st)
  apply_routes opts (some peers) st = apply_ips opts (sort (peer_ips peers)) st

module _ {ℓ} {Url : Type ℓ} (parse : Bytes → Option Url) where
  -- `runRouteManager`, of its rounds until the context is cancelled: what `Peers` returns in each,
  -- and which lists of routes the server accepts in it
  unfoldable pub run_route_manager :
      RouteOptions
      → List (Option (List Node) × (List Url → Bool))
      → RouteState Url
      → List (List Url) × RouteState Url
  unfolding apply_routes
  run_route_manager opts [] st = ([], st)
  run_route_manager opts ((peers, reload) ∷ rounds) st =
      let (tried, next) = apply_routes parse reload opts peers st in
      let (later, last) = run_route_manager opts rounds next in (tried ++ later, last)
