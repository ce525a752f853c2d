-- ===== src/Cli/Node.antt =====
-- pkg/cli/cli.go: the command `run`. Between the start of the node and the signal that ends it, the
-- node performs any operations. Tracing and the line that it prints are left out.
use go_cluster.Prelude.{
  Text, codes, is_empty, Bool, false, Option, none, some, is_some, List, [], ◌∷◌, if◌then◌else◌,
}
use go_cluster.Prelude.Int.{ℤ, pos}
use go_cluster.Result.{Result, ok, err, Error}
use go_cluster.RaftNode as RaftNode
use go_cluster.Memberlist as Memberlist
use go_cluster.Tls as Tls
use go_cluster.Cli.{TlsFlags, no_tls}
use go_cluster.Bootstrap as Bootstrap
use go_cluster.Bootstrap.{Config, Built}
use go_cluster.Cluster.World.{
  Setup, Cluster, Call, History, starts_membership, starts_consensus, starts_server,
}
use go_cluster.Cluster.Run.{Op}
use go_cluster.Cluster.Run as Run
use go_cluster.Cluster.Lifecycle.{stop}

pub record RunFlags : Type 0 where
  pub id : Text
  pub raft_addr : Text
  pub mem_bind : Text
  pub mem_adv : Text
  pub join_csv : Text
  pub mgmt_addr : Text
  pub mgmt_proto : Text
  pub discovery : Text
  pub dns_names : Text
  pub dns_port : ℤ
  pub disc_refresh : ℤ
  pub file_path : Text
  pub file_env : Text
  pub tls : TlsFlags
  pub bootstrap : Bool
  pub data_dir : Text

abbrev pub run_flags : RunFlags
run_flags = record {
  id = [];
  raft_addr = codes ":9520";
  mem_bind = codes ":7946";
  mem_adv = [];
  join_csv = [];
  mgmt_addr = codes ":17946";
  mgmt_proto = codes "http";
  discovery = codes "static";
  dns_names = [];
  dns_port = pos 7946;
  disc_refresh = pos 5000000000;
  file_path = [];
  file_env = [];
  tls = no_tls;
  bootstrap = false;
  data_dir = [];
}

-- The configuration of the node; the command sets no handlers, window or buffer directory.
unfoldable pub config_of : RunFlags → Config
config_of f = record {
  node_id = f.id;
  raft_addr = f.raft_addr;
  mem_bind = f.mem_bind;
  mem_adv = f.mem_adv;
  mgmt_addr = f.mgmt_addr;
  mgmt_proto = f.mgmt_proto;
  discovery_kind = f.discovery;
  seeds_csv = f.join_csv;
  dns_names_csv = f.dns_names;
  dns_port = f.dns_port;
  disc_refresh = f.disc_refresh;
  file_path = f.file_path;
  file_env = f.file_env;
  data_dir = f.data_dir;
  bootstrap = f.bootstrap;
  tls_enable = f.tls.enable;
  tls_ca = f.tls.ca;
  tls_cert = f.tls.cert;
  tls_key = f.tls.key;
  tls_server_name = f.tls.server_name;
  tls_skip_verify = f.tls.skip_verify;
  has_handlers = false;
  repl_window = pos 0;
  repl_buffer_dir = [];
}

module _ {Cert : Type 0} (raft : RaftNode.Library) (gossip : Memberlist.Library)
    (disk : Tls.Disk Cert) (w : Setup) where
  -- The node lives until the signal, and `defer cl.Close()` stops it.
  abbrev pub lived : List Op → Option Cluster → Setup → Option Cluster
  lived ops none v = none
  lived ops (some c) v = some (stop v (Run.run v ops c)).1

  -- What `RunE` makes of the result of `bootstrap.Run`.
  abbrev pub ended :
      List Op → Result (Built raft gossip disk) × Option Cluster → Error × Option Cluster
  ended ops (err e, c) = (some e, c)
  ended ops (ok b, c) = (none, lived ops c (record w { opts = b.opts }))

  -- The components that stop when the context of their start ends: those whose start returned nil.
  unfoldable pub bound_to_context : History → List Call
  bound_to_context [] = []
  bound_to_context (starts_membership ∷ h) =
      if is_some (w.env.membership_error (starts_membership ∷ h))
      then bound_to_context h
      else starts_membership ∷ bound_to_context h
  bound_to_context (starts_consensus ∷ h) =
      if is_some (w.env.consensus_error (starts_consensus ∷ h))
      then bound_to_context h
      else starts_consensus ∷ bound_to_context h
  bound_to_context (starts_server ∷ h) =
      if is_some (w.env.server_error (starts_server ∷ h))
      then bound_to_context h
      else starts_server ∷ bound_to_context h
  bound_to_context (_ ∷ h) = bound_to_context h

  -- The function up to its deferred `cancel`.
  unfoldable pub run_node : RunFlags → List Op → Error × Option Cluster
  unfolding config_of Bootstrap.run
  run_node f ops =
      if is_empty f.id
      then (some (codes "missing -id"), none)
      else ended ops (Bootstrap.run raft gossip disk w (config_of f))

  abbrev pub stopped_by_cancel : Option Cluster → List Call
  stopped_by_cancel none = []
  stopped_by_cancel (some c) = bound_to_context c.calls

  -- `NewRunCmd`: the error, the state of the node if there is one, and the components that the
  -- deferred end of the context stops at last.
  unfoldable pub run : RunFlags → List Op → Error × Option Cluster × List Call
  unfolding run_node bound_to_context
  run f ops = let r = run_node f ops in (r.0, r.1, stopped_by_cancel r.1)
