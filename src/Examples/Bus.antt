-- ===== src/Examples/Bus.antt =====
-- The routes of a cluster of three nodes.
use proxmox_eventbus.Prelude.{
  ◌≡◌, refl, false, true, [], ◌∷◌, none, some, Option, Bytes, codes, bytes_beq, List, pos, Bool,
}
use mathlib.Core.List.{Permᴰ}
use proxmox_eventbus.Strings.Split.{join}
use proxmox_eventbus.Pmxcfs.Members.{Members, Node, peers}
use proxmox_eventbus.Bus.Routes.{RouteOptions, RouteState, apply_routes, run_route_manager, sort}
use proxmox_eventbus.Bus.Routes.Order.{reordered, apply_routes-Perm}
use proxmox_eventbus.Bus.Routes.Rounds.{InStep, run_route_manager-InStep}

abbrev two : Bytes × Node
two = (codes "pve2", record { id = pos 2; online = pos 1; ip = codes "10.0.0.2" })

abbrev three : Bytes × Node
three = (codes "pve3", record { id = pos 3; online = pos 1; ip = codes "10.0.0.3" })

abbrev cluster : Members
cluster = record {
  node_name = codes "pve1";
  cluster = record { name = codes "lab"; nodes = pos 3; quorate = pos 1; version = pos 1 };
  node_list = three ∷ two ∷ [];
}

abbrev options : RouteOptions
options = record {
  cluster_port = pos 6222;
  static_routes = codes "nats-route://10.9.9.9:6222" ∷ [];
}

abbrev at_start : RouteState Bytes
at_start = record { last = []; routes = [] }

-- A parser that refuses the empty text, and two servers.
abbrev parse : Bytes → Option Bytes
parse [] = none
parse (c ∷ s) = some (c ∷ s)

abbrev accepts : List Bytes → Bool
accepts us = true

abbrev refuses : List Bytes → Bool
refuses us = false

apply_routes-Perm_example :
    apply_routes parse accepts options (peers (some cluster)) at_start
    ≡ apply_routes parse accepts options
        (peers (some (reordered cluster (two ∷ three ∷ []))))
        at_start
apply_routes-Perm_example =
    apply_routes-Perm parse accepts options cluster (two ∷ three ∷ []) at_start
      (Permᴰ.swap refl refl)

-- The members cannot be read at the second round, and the server refuses the reload of the third
-- one, which is tried again.
abbrev rounds : List (Option (List Node) × (List Bytes → Bool))
rounds =
    (peers (some cluster), accepts)
    ∷ (none, accepts)
    ∷ (peers (some (reordered cluster (two ∷ []))), refuses)
    ∷ (peers (some (reordered cluster (two ∷ []))), accepts)
    ∷ []

run_route_manager-InStep_example :
    InStep parse options at_start ((run_route_manager parse options rounds at_start).1)
run_route_manager-InStep_example =
    run_route_manager-InStep parse options at_start rounds at_start (InStep.as_begun refl)

last_round : (run_route_manager parse options rounds at_start).1.last ≡ codes "10.0.0.2"
unfolding run_route_manager peers bytes_beq join sort
last_round = refl

reloads :
    (apply_routes parse accepts options (peers (some cluster)) at_start).1.last
    ≡ codes "10.0.0.2,10.0.0.3"
unfolding apply_routes peers bytes_beq join sort
reloads = refl
