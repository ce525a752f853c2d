-- ===== src/Bootstrap/Scenario.antt =====
-- Libraries that do nothing, for the witnesses.
use go_cluster.Prelude.{none, ℕ, codes, true, []}
use go_cluster.Prelude.Int.{pos}
use go_cluster.Result.{ok, err}
use go_cluster.RaftNode as RaftNode
use go_cluster.Memberlist as Memberlist
use go_cluster.Memberlist.{GossipNode}
use go_cluster.Tls.{Disk}

abbrev pub gossip_node : GossipNode
gossip_node = record { name = []; addr = []; port = 0; meta = [] }

abbrev pub node_defaults : RaftNode.Config
node_defaults = record {
  local_id = [];
  heartbeat_timeout = 1;
  leader_lease_timeout = 1;
  election_timeout = 1;
  commit_timeout = 1;
}

-- Libraries that do nothing.
abbrev pub raft : RaftNode.Library
raft = record {
  Raft = Unit;
  Logs = Unit;
  Snapshots = Unit;
  Transport = Unit;
  default_config = node_defaults;
  make_dir = λ d. none;
  bolt_store = λ f. ok tt;
  file_snapshots = λ d n. ok tt;
  inmem_store = tt;
  inmem_snapshots = tt;
  tcp_transport = λ a. ok (a, tt);
  inmem_transport = λ a. (a, tt);
  path_join = λ a b. a;
  new_raft = λ c l s n t. ok tt;
  bootstrap_cluster = λ l r. (none, r);
  is_leader = λ r. true;
  leader_with_id = λ r. ([], []);
  stats = λ r. [];
  apply = λ c t r. ((none, none), r);
  shutdown = λ r. (none, r);
  configuration = λ r. ok [];
  add_voter = λ i a t r. (none, r);
  remove_server = λ i t r. (none, r);
}

abbrev pub gossip : Memberlist.Library
gossip = record {
  Memberlist = Unit;
  default_config = record {
    name = [];
    bind_addr = [];
    bind_port = pos 0;
    advertise_addr = [];
    advertise_port = pos 0;
    probe_interval = pos 1;
    probe_timeout = pos 1;
    suspicion_mult = pos 4;
    meta = [];
  };
  create = λ c. ok tt;
  join = λ l m. (none, m);
  local_node = λ m. gossip_node;
  members = λ m. [];
  leave = λ m. m;
  health_score = λ m. pos 0;
  split_host_port = λ t. ok (t, []);
  join_host_port = λ h p. h;
  scan_int = λ t. ok (pos 0);
  decode_meta = λ t. none;
  encode_meta = λ m. [];
}

abbrev pub disk : Disk ℕ
disk = record { key_pair = λ c k. err (codes "no pair"); read_file = λ f. ok (codes "pem") }
