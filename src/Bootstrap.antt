-- ===== src/Bootstrap.antt =====
-- pkg/bootstrap/bootstrap.go and pkg/transport/udp/udp.go: a node assembled from its configuration.
pub mod Building
pub mod Backpressure
pub mod Scenario
mod Tests
use go_cluster.Prelude.{
  ℕ, Text, codes, is_empty, ◌==◌, text_is_eq, Bool, true, false, not, ◌&&◌, Option, none, some,
  is_some, List, [], ◌∷◌, if◌then◌else◌,
}
use go_cluster.Prelude.Int.{ℤ, pos, ltb_ℤ}
use go_cluster.Result.{Result, ok, err, Error, ◌>>=◌}
use go_cluster.Discovery.Static as Static
use go_cluster.Discovery.File as File
use go_cluster.Discovery.Dns as Dns
use go_cluster.RaftNode as RaftNode
use go_cluster.Memberlist as Memberlist
use go_cluster.Tls as Tls
use go_cluster.HttpServer as HttpServer
use go_cluster.Grpc.Client as GrpcClient
use go_cluster.Cluster.World as World
use go_cluster.Cluster.Lifecycle.{start}

pub record Config : Type 0 where
  pub node_id : Text
  pub raft_addr : Text
  pub mem_bind : Text
  pub mem_adv : Text
  pub mgmt_addr : Text
  pub mgmt_proto : Text
  pub discovery_kind : Text
  pub seeds_csv : Text
  pub dns_names_csv : Text
  pub dns_port : ℤ
  pub disc_refresh : ℤ
  pub file_path : Text
  pub file_env : Text
  pub data_dir : Text
  pub bootstrap : Bool
  pub tls_enable : Bool
  pub tls_ca : Text
  pub tls_cert : Text
  pub tls_key : Text
  pub tls_server_name : Text
  pub tls_skip_verify : Bool
  pub has_handlers : Bool
  pub repl_window : ℤ
  pub repl_buffer_dir : Text

-- A discovery, of one of the three kinds.
pub data Discovery : Type 0 where
  static : Static.StaticSeeds → Discovery
  dns : Dns.Impl → Discovery
  file : File.Impl → Discovery

-- `udp.New`
unfoldable pub new_udp : Text → Result Text
new_udp addr = ok addr

abbrev pub refresh_of : Config → ℤ
refresh_of cfg = if ltb_ℤ (pos 0) cfg.disc_refresh then cfg.disc_refresh else pos 0

unfoldable pub new_discovery : Config → Discovery
unfolding Static.parse Static.new Dns.new File.new
new_discovery cfg =
    if cfg.discovery_kind == codes "dns"
    then dns (
        Dns.new (record {
          names = Static.parse cfg.dns_names_csv;
          port = cfg.dns_port;
          refresh = refresh_of cfg;
        }))
    else if cfg.discovery_kind == codes "file"
    then file
        (File.new (record { path = cfg.file_path; env = cfg.file_env; refresh = refresh_of cfg }))
    else static (Static.new (Static.parse cfg.seeds_csv))

unfoldable pub tls_options : Config → Tls.Options
tls_options cfg = record {
  enable = true;
  ca_file = cfg.tls_ca;
  cert_file = cfg.tls_cert;
  key_file = cfg.tls_key;
  insecure_skip_verify = cfg.tls_skip_verify;
  server_name = cfg.tls_server_name;
}

unfoldable pub raft_options : Config → RaftNode.Options
raft_options cfg = record {
  node_id = cfg.node_id;
  bootstrap = cfg.bootstrap;
  heartbeat_timeout = pos 0;
  election_timeout = pos 0;
  commit_timeout = pos 0;
  apply_timeout = pos 0;
  bind_addr = cfg.raft_addr;
  data_dir = cfg.data_dir;
  snapshots_retained = pos 0;
}

unfoldable pub membership_options : Config → Memberlist.Options
membership_options cfg = record {
  node_id = cfg.node_id;
  bind = cfg.mem_bind;
  advertise = cfg.mem_adv;
  meta = some (if is_empty cfg.mgmt_addr then [] else (codes "mgmt", cfg.mgmt_addr) ∷ []);
  probe_interval = pos 0;
  probe_timeout = pos 0;
  suspicion_mult = pos 0;
}

-- The management endpoint and its client; `has_tls` says that a configuration was set.
pub data Api : Type 0 where
  http : HttpServer.Server → Bool → Api
  grpc : Text → Bool → GrpcClient.Client → Api

unfoldable pub is_grpc : Config → Bool
is_grpc cfg = cfg.mgmt_proto == codes "grpc"

unfoldable pub new_api : Config → Bool → Bool → Api
unfolding is_grpc HttpServer.new_server HttpServer.use_tls GrpcClient.new_client GrpcClient.use_tls
new_api cfg server_tls client_tls =
    if is_grpc cfg
    then grpc cfg.mgmt_addr server_tls
        (GrpcClient.use_tls client_tls (GrpcClient.new_client (pos 3000000000)))
    else http (HttpServer.use_tls server_tls (HttpServer.new_server cfg.mgmt_addr)) client_tls

-- The options that `Build` gives to the cluster. The Raft node is a `Reconfigurer`; of the servers
-- only gRPC's counts acknowledgements and broadcasts.
unfoldable pub cluster_options : Config → World.Options
unfolding is_grpc
cluster_options cfg = record {
  node_id = cfg.node_id;
  raft_addr = cfg.raft_addr;
  has_transport = true;
  has_discovery = true;
  has_logger = true;
  has_consensus = true;
  is_reconfigurer = true;
  has_membership = true;
  has_server = true;
  server_addr = cfg.mgmt_addr;
  server_acks = is_grpc cfg;
  server_broadcasts = is_grpc cfg;
  has_client = true;
  has_handlers = cfg.has_handlers;
  repl_window = cfg.repl_window;
  repl_buffer_dir = cfg.repl_buffer_dir;
}

module _ {Cert : Type 0} (raft : RaftNode.Library) (gossip : Memberlist.Library)
    (disk : Tls.Disk Cert) where
  -- What `Build` assembles.
  pub record Built : Type 0 where
    pub transport : Text
    pub discovery : Discovery
    pub consensus : RaftNode.Node raft
    pub membership : Memberlist.Impl gossip
    pub server_tls : Option (Tls.Config Cert)
    pub client_tls : Option (Tls.Config Cert)
    pub api : Api
    pub cluster : World.Cluster
    pub opts : World.Options

  -- Both TLS configurations, nil where TLS is off.
  unfoldable pub tls_configs : Config → Result (Option (Tls.Config Cert) × Option (Tls.Config Cert))
  unfolding tls_options Tls.server_hot_reload Tls.client_hot_reload
  tls_configs cfg =
      if cfg.tls_enable
      then (do
        s ← Tls.server_hot_reload (tls_options cfg) disk
        c ← Tls.client_hot_reload (tls_options cfg) disk
        ok (s, c))
      else ok (none, none)

  unfoldable pub build : Config → Result Built
  unfolding new_udp new_discovery raft_options membership_options tls_configs new_api
      cluster_options RaftNode.new Memberlist.new World.new
  build cfg = do
    tr ← new_udp cfg.raft_addr
    cons ← RaftNode.new raft (raft_options cfg)
    mem ← Memberlist.new gossip (membership_options cfg)
    configs ← tls_configs cfg
    cluster ← World.new (cluster_options cfg)
    ok (record {
      transport = tr;
      discovery = new_discovery cfg;
      consensus = cons;
      membership = mem;
      server_tls = configs.0;
      client_tls = configs.1;
      api = new_api cfg (is_some configs.0) (is_some configs.1);
      cluster = cluster;
      opts = cluster_options cfg;
    })

  -- `Run`: the cluster that is started, whose `Env` and codecs are those of `w`, and the result.
  unfoldable pub run : World.Setup → Config → Result Built × Option World.Cluster
  unfolding build start
  run w cfg = elim (build cfg) [
    | err e ↦ (err e, none)
    | ok b ↦
        (let (e, c) = start (record w { opts = b.opts }) b.cluster in
          (elim e [ some x ↦ err x | none ↦ ok b ], some c))
  ]
