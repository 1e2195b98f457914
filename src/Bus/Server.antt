-- ===== src/Bus/Server.antt =====
-- internal/bus/server.go: `Start`, `Stop` and `PublishJSON`.
--
-- The embedded server and its connection are what creating, waiting and connecting give: each
-- succeeds or fails. The JSON encoder and the publication on a connection are parameters.
use proxmox_eventbus.Prelude.{
  ℕ, Bool, true, false, not, List, [], ◌∷◌, ◌++◌, Option, none, some, Bytes, codes, if◌then◌else◌,
  ℤ,
}
use proxmox_eventbus.Prelude.Result.{Result, ok, err}
use proxmox_eventbus.Bus.Routes.{routes_to_urls}
use proxmox_eventbus.Tlsutil.Loader.{
  ClientAuth, no_client_cert, require_any_client_cert, require_and_verify_client_cert, TlsConfig,
}

-- `bus.Options` without the reader and the logger; `has_reader` tells whether there is a reader.
pub record Options (Pool Pair : Type 0) : Type 0 where
  pub server_name : Bytes
  pub client_host : Bytes
  pub client_port : ℤ
  pub client_advertise : Bytes
  pub cluster_host : Bytes
  pub cluster_port : ℤ
  pub cluster_advertise : Bytes
  pub tls : Option (TlsConfig Pool Pair)
  pub cluster_tls : Option (TlsConfig Pool Pair)
  pub static_routes : List Bytes
  pub has_reader : Bool

-- The fields of `server.ClusterOpts` that `Start` sets; a timeout is in seconds.
pub record ClusterOpts (Pool Pair : Type 0) : Type 0 where
  pub name : Bytes
  pub host : Bytes
  pub port : ℤ
  pub advertise : Bytes
  pub tls_config : Option (TlsConfig Pool Pair)
  pub tls_timeout : ℕ

-- The fields of `server.Options` that `Start` sets; `http_off` is `HTTPPort` at -1.
pub record NatsOptions (Pool Pair Url : Type 0) : Type 0 where
  pub server_name : Bytes
  pub host : Bytes
  pub port : ℤ
  pub client_advertise : Bytes
  pub no_sigs : Bool
  pub http_off : Bool
  pub cluster : ClusterOpts Pool Pair
  pub tls_config : Option (TlsConfig Pool Pair)
  pub tls : Bool
  pub allow_non_tls : Bool
  pub tls_verify : Bool
  pub tls_timeout : ℕ
  pub routes : List Url

-- `== tls.RequireAndVerifyClientCert`
unfoldable pub verifies_clients : ClientAuth → Bool
verifies_clients no_client_cert = false
verifies_clients require_any_client_cert = false
verifies_clients require_and_verify_client_cert = true

unfoldable pub cluster_timeout : {Pool Pair : Type 0} → Option (TlsConfig Pool Pair) → ℕ
cluster_timeout none = 0
cluster_timeout (some c) = 5

-- the settings of TLS for clients
unfoldable pub add_tls :
    {Pool Pair Url : Type 0}
    → Option (TlsConfig Pool Pair)
    → NatsOptions Pool Pair Url
    → NatsOptions Pool Pair Url
unfolding verifies_clients
add_tls none n = n
add_tls (some c) n = record n {
  tls = true;
  allow_non_tls = false;
  tls_verify = verifies_clients c.client_auth;
  tls_timeout = 5;
}

-- `nopts` of `Start`
unfoldable pub nats_options :
    {Pool Pair Url : Type 0} → (Bytes → Option Url) → Options Pool Pair → NatsOptions Pool Pair Url
unfolding add_tls cluster_timeout
nats_options parse o = add_tls o.tls (record {
  server_name = o.server_name;
  host = o.client_host;
  port = o.client_port;
  client_advertise = o.client_advertise;
  no_sigs = true;
  http_off = true;
  cluster = record {
    name = codes "proxmox-eventbus";
    host = o.cluster_host;
    port = o.cluster_port;
    advertise = o.cluster_advertise;
    tls_config = o.cluster_tls;
    tls_timeout = cluster_timeout o.cluster_tls;
  };
  tls_config = o.tls;
  tls = false;
  allow_non_tls = false;
  tls_verify = false;
  tls_timeout = 0;
  routes = routes_to_urls parse o.static_routes;
})

-- Which fields of `Server` are set: `ns`, `conn` and `cancelRouteMgr`.
pub record ServerState : Type 0 where
  pub ns : Bool
  pub conn : Bool
  pub cancel_route_mgr : Bool

-- `New`
abbrev pub new_server : ServerState
new_server = record { ns = false; conn = false; cancel_route_mgr = false }

-- What NATS does with the calls of `Start`.
pub record StartWorld : Type 0 where
  pub creates : Bool
  pub ready : Bool
  pub connects : Bool

pub data StartError : Type 0 where
  not_created not_ready not_connected : StartError

-- `connectInProc`, of whether `nats.Connect` succeeds
unfoldable pub connect_in_proc : Bool → ServerState → Option StartError × ServerState
connect_in_proc connects s =
    if connects then (none, record s { conn = true }) else (some StartError.not_connected, s)

-- the end of `Start`, where a reader is set
unfoldable pub begin_routes :
    Bool → Option StartError × ServerState → Option StartError × ServerState
begin_routes has_reader (some e, s) = (some e, s)
begin_routes has_reader (none, s) =
    (none, if has_reader then record s { cancel_route_mgr = true } else s)

-- `Start`: the error, if there is one, and the server.
unfoldable pub start : StartWorld → Bool → ServerState → Option StartError × ServerState
unfolding connect_in_proc begin_routes
start w has_reader s =
    if not w.creates
    then (some StartError.not_created, s)
    else if not w.ready
    then (some StartError.not_ready, record s { ns = true })
    else begin_routes has_reader (connect_in_proc w.connects (record s { ns = true }))

pub data StopCall : Type 0 where
  cancel_routes close_conn shutdown : StopCall

-- `Stop`: the calls that it makes, in their order.
unfoldable pub stop : ServerState → List StopCall
stop s =
    (if s.cancel_route_mgr then StopCall.cancel_routes ∷ [] else [])
    ++ ((if s.conn then StopCall.close_conn ∷ [] else [])
        ++ (if s.ns then StopCall.shutdown ∷ [] else []))

pub data PublishError : Type 0 where
  bus_not_started not_encoded not_published : PublishError

module _ {V : Type 0} (marshal : V → Option Bytes) (publishes : Bytes → Bytes → Bool) where
  unfoldable pub publish_encoded : Bytes → Option Bytes → Result PublishError (Bytes × Bytes)
  publish_encoded subject none = err PublishError.not_encoded
  publish_encoded subject (some b) =
      if publishes subject b then ok (subject, b) else err PublishError.not_published

  -- `PublishJSON`: what is published
  unfoldable pub publish_json : ServerState → Bytes → V → Result PublishError (Bytes × Bytes)
  unfolding publish_encoded
  publish_json s subject v =
      if not s.conn then err PublishError.bus_not_started else publish_encoded subject (marshal v)
