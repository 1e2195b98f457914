-- ===== src/Main/Listeners.antt =====
-- cmd/proxmox-eventbus/main.go: the loader and the server that `runDaemon` makes of the
-- configuration.
use proxmox_eventbus.Prelude.{◌≡◌, Bool, true, false, Option, some, Bytes}
use proxmox_eventbus.Prelude.Result.{Result}
use proxmox_eventbus.Config.{Config}
use proxmox_eventbus.Tlsutil.Loader.{Loader, LoadError, new_loader, server_config, cluster_config}
use proxmox_eventbus.Tlsutil.Loader.Reloads.{Disk}
use proxmox_eventbus.Bus.Server.{Options, NatsOptions}
use proxmox_eventbus.Main.{non_empty}

-- The loader of `runDaemon`.
unfoldable pub daemon_loader :
    {Pool Pair : Type 0}
    → (Bytes → Option Pool)
    → (Bytes → Bytes → Option Pair)
    → Disk
    → Config
    → Result LoadError (Loader Pool Pair)
unfolding new_loader
daemon_loader pool_of key_pair disk cfg =
    new_loader pool_of key_pair disk cfg.nats.tls.ca_file cfg.nats.tls.cert_file
      cfg.nats.tls.key_file cfg.nats.tls.verify_client

-- The options of the server of `runDaemon`, of the name of the node and the two advertised
-- addresses.
unfoldable pub daemon_options :
    {Pool Pair : Type 0} → Config → Bytes → Bytes × Bytes → Loader Pool Pair → Options Pool Pair
unfolding non_empty server_config cluster_config
daemon_options cfg node advertised l = record {
  server_name = non_empty cfg.nats.server_name node;
  client_host = cfg.nats.client.host;
  client_port = cfg.nats.client.port;
  client_advertise = advertised.0;
  cluster_host = cfg.nats.cluster.host;
  cluster_port = cfg.nats.cluster.port;
  cluster_advertise = advertised.1;
  tls = some (server_config l);
  cluster_tls = some (cluster_config l);
  static_routes = cfg.nats.discovery.static_routes;
  has_reader = true;
}

-- What the server is told of TLS.
abbrev pub DemandsTls : {Pool Pair Url : Type 0} → NatsOptions Pool Pair Url → Bool → Type 0
DemandsTls n verify =
    (n.tls ≡ true)
    × (n.allow_non_tls ≡ false)
    × (n.tls_verify ≡ verify)
    × (n.cluster.tls_timeout ≡ 5)
