-- ===== src/Bootstrap/Tests.antt =====
-- A configuration with defaults, and the theorems of the assembly applied.
use go_cluster.Prelude.{Text, codes, text_is_eq, ◌≡◌, ◌≢◌, refl, true, false, List, [], ◌∷◌, arith}
use go_cluster.Prelude.Int.{pos}
use go_cluster.GoMap.{lookup}
use go_cluster.Cluster.World.{Setup}
use go_cluster.Cluster.Replication.{published, publish}
use go_cluster.Cluster.Scenario.{leader_setup, two_stored}
use go_cluster.Result.{error_of}
use go_cluster.Bootstrap.{build, tls_configs, Config, cluster_options, is_grpc}
use go_cluster.Bootstrap.Scenario.{raft, gossip, disk}
use go_cluster.Bootstrap.Building.{error_of-build}
use go_cluster.Bootstrap.Backpressure.{publish-window}

abbrev config : Config
config = record {
  node_id = codes "n1";
  raft_addr = codes "r1";
  mem_bind = codes "m1";
  mem_adv = [];
  mgmt_addr = codes "a1";
  mgmt_proto = [];
  discovery_kind = [];
  seeds_csv = codes "a:1,b:2";
  dns_names_csv = [];
  dns_port = pos 0;
  disc_refresh = pos 0;
  file_path = [];
  file_env = [];
  data_dir = [];
  bootstrap = true;
  tls_enable = false;
  tls_ca = [];
  tls_cert = [];
  tls_key = [];
  tls_server_name = [];
  tls_skip_verify = false;
  has_handlers = false;
  repl_window = pos 2;
  repl_buffer_dir = [];
}

abbrev two_seeds : List Text
two_seeds = codes "a:1" ∷ codes "b:2" ∷ []

-- The node with these options, and the scenario's answers otherwise.
abbrev setup : Setup
setup = record leader_setup { opts = cluster_options config }

publish-window_example : (publish setup 5 (codes "t") (codes "z") two_stored).0 ≢ published
unfolding lookup
publish-window_example =
    publish-window setup config 5 (codes "t") (codes "z") two_stored refl (unfold is_grpc in refl)
      (omega arith) (omega arith)

-- TLS is on and the name of the certificate's file is missing.
abbrev secured : Config
secured = record config { tls_enable = true }

error_of-build_example :
    error_of (build raft gossip disk secured) ≡ error_of (tls_configs raft gossip disk secured)
error_of-build_example = error_of-build raft gossip disk secured
