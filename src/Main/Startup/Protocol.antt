-- ===== src/Main/Startup/Protocol.antt =====
-- What the daemon has done when it returns, by the error that it returns.
use proxmox_eventbus.Prelude.{
  ◌≡◌, refl, ap, subst, ◌⊎◌, inl, inr, true, List, [], ◌∷◌, ◌++◌, Option, none, some, Bytes,
  Bool-cases,
}
use proxmox_eventbus.Prelude.Result.{Result, ok, err}
use proxmox_eventbus.Config.{Config, ConfigError, load}
use proxmox_eventbus.Config.Checks.{IsValid, load-IsValid}
use proxmox_eventbus.Tlsutil.Loader.{Loader, LoadError}
use proxmox_eventbus.Bus.Server.{StartWorld, StartError, StopCall, start, stop}
use proxmox_eventbus.Main.{resolve_cluster, resolve_node}
use proxmox_eventbus.Main.Listeners.{daemon_loader}
use proxmox_eventbus.Main.Startup.{
  Effect, DaemonError, DaemonWorld, watches, publishes, stops, bad_flags, bad_config, bad_tls,
  bad_start, notify_ready, start_snapshots, serve, run_started, run_loaded, run_configured,
  run_parsed, run_daemon,
}

-- The effects of a daemon that runs until its context is cancelled.
abbrev pub serving : {Pool Pair : Type 0} → DaemonWorld Pool Pair → Config → List Effect
serving w cfg =
    notify_ready w.notify_socket w.dials
    ++ (watches
        ∷ (start_snapshots cfg.snapshot.enabled (resolve_cluster cfg.node.cluster_name w.attempts)
              (resolve_node cfg.node.name w.local_name w.hostname)
            ++ (publishes
                ∷ stops StopCall.cancel_routes
                ∷ stops StopCall.close_conn
                ∷ stops StopCall.shutdown
                ∷ [])))

abbrev pub IsUp : StartWorld → Type 0
IsUp nats = (nats.creates ≡ true) × (nats.ready ≡ true) × (nats.connects ≡ true)

abbrev pub Refused : Option DaemonError × List Effect → Type 0
Refused r = (e : DaemonError) × (r ≡ (some e, []))

-- The daemon has served with a configuration.
pub record Serves {Pool Pair : Type 0} (w : DaemonWorld Pool Pair)
    (r : Option DaemonError × List Effect) : Type 0 where
  pub path : Bytes
  pub cfg : Config
  pub loader : Loader Pool Pair
  pub given : w.config_path ≡ some path
  pub loaded : load w.decode path (w.file path) ≡ (cfg, none)
  pub valid : IsValid cfg
  pub has_tls : daemon_loader w.pool_of w.key_pair w.disk cfg ≡ ok loader
  pub up : IsUp w.nats
  pub does : r ≡ (none, serving w cfg)

module _ {Pool Pair : Type 0} (w : DaemonWorld Pool Pair) where
  started :
      (cfg : Config) (l : Loader Pool Pair)
      → Refused (run_loaded w cfg (ok l))
        ⊎ (IsUp w.nats × (run_loaded w cfg (ok l) ≡ (none, serving w cfg)))
  unfolding run_loaded run_started start serve stop
  started cfg l = elim (Bool-cases w.nats.creates) [
    | inr e ↦ inl (bad_start StartError.not_created, rw e refl)
    | inl c ↦ elim (Bool-cases w.nats.ready) [
      | inr e ↦ inl (bad_start StartError.not_ready, rw (c, e) refl)
      | inl r ↦ elim (Bool-cases w.nats.connects) [
        | inr e ↦ inl (bad_start StartError.not_connected, rw (c, r, e) refl)
        | inl o ↦ inr ((c, r, o), rw (c, r, o) refl)
      ]
    ]
  ]

  module _ (path : Bytes) (given : w.config_path ≡ some path) where
    with_loader :
        (cfg : Config) (r : Result LoadError (Loader Pool Pair))
        → load w.decode path (w.file path) ≡ (cfg, none)
        → daemon_loader w.pool_of w.key_pair w.disk cfg ≡ r
        → Refused (run_loaded w cfg r) ⊎ Serves w (run_loaded w cfg r)
    unfolding run_loaded
    with_loader cfg (err x) e has_tls = inl (bad_tls x, refl)
    with_loader cfg (ok l) e has_tls = elim (started cfg l) [
      | inl refused ↦ inl refused
      | inr (up, does) ↦ inr (record {
        path = path;
        cfg = cfg;
        loader = l;
        given = given;
        loaded = e;
        valid =
            subst (λ (r : Config × Option ConfigError). IsValid r.0) e
              (load-IsValid w.decode path (w.file path) (ap (λ r. r.1) e));
        has_tls = has_tls;
        up = up;
        does = does;
      })
    ]

    with_config :
        (r : Config × Option ConfigError)
        → load w.decode path (w.file path) ≡ r
        → Refused (run_configured w r) ⊎ Serves w (run_configured w r)
    unfolding run_configured
    with_config (cfg, some x) e = inl (bad_config x, refl)
    with_config (cfg, none) e = with_loader cfg _ e refl

  with_path :
      (given : Option Bytes)
      → w.config_path ≡ given
      → Refused (run_parsed w given) ⊎ Serves w (run_parsed w given)
  unfolding run_parsed
  with_path none e = inl (bad_flags, refl)
  with_path (some path) e = with_config path e _ refl

-- Whatever the daemon finds, one of two things happens. It returns an error and has had none of
-- these effects: systemd was not told that it is ready, and it has not watched, subscribed or
-- published. Or it returns none; then the configuration was read and is valid, the TLS files were
-- loaded, and the server was created, became ready and was connected to; and its effects are these,
-- in this order: it told systemd so, if there is a socket that it reaches; it started its watcher
-- and, where they are enabled, its snapshots with the two subscriptions; it published until the
-- signal; and it stopped the routes, the connection and the server.
pub run_daemon_outcome :
    {Pool Pair : Type 0} (w : DaemonWorld Pool Pair)
    → Refused (run_daemon w) ⊎ Serves w (run_daemon w)
unfolding run_daemon
run_daemon_outcome w = with_path w w.config_path refl
