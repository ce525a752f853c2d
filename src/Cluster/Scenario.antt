-- ===== src/Cluster/Scenario.antt =====
-- A leader, a follower and their data, for the witnesses.
use go_cluster.Prelude.{
  codes, nat_eq, text_is_eq, Bool, true, false, none, some, [], ◌∷◌, ◌++◌, length, if◌then◌else◌,
  leb,
}
use go_cluster.Prelude.Int.{pos}
use go_cluster.Result.{ok, err}
use go_cluster.Json.{Json}
use go_cluster.Membership
use go_cluster.Membership.{MemberInfo, join}
use go_cluster.Cluster.World.{Setup, Env, Cluster, ClusterStatus, fresh}

abbrev pub mute_json : {A : Type 0} → Json A
mute_json = record { marshal = λ a. ok []; unmarshal = λ b. err [] }

abbrev pub no_status : ClusterStatus
no_status = record {
  healthy = true;
  term = 7;
  leader_id = codes "b";
  leader_addr = codes "b:1";
  members = [];
  warnings = [];
}

abbrev pub member_b : MemberInfo
member_b = record { id = codes "b"; addr = codes "b:1"; meta = none }

-- `lead` is what `IsLeader` answers; the context is done after three calls.
abbrev pub env_of : Bool → Env
env_of lead = record {
  now = λ h. 0;
  is_leader = λ h. lead;
  leader = λ h. some (codes "b", codes "b:1");
  term = λ h. 7;
  consensus_error = λ h. none;
  seeds = λ h. [];
  membership_error = λ h. none;
  members = λ h. member_b ∷ [];
  server_error = λ h. none;
  acked = λ h. some ((codes "t", 1) ∷ []);
  reached = λ h. 1;
  status = λ h. ok (codes "{}");
  join = λ h. err [];
  app_write = λ h. err [];
  handler_write = λ h. ok (codes "done");
  handler_sync = λ h. none;
  dir_entries = λ h. ok [];
  file_text = λ h. ok (codes "body");
  cancelled = λ h. if leb 3 (length h) then some (codes "done") else none;
}

abbrev pub setup_of : Bool → Setup
setup_of lead = record {
  env = env_of lead;
  opts = record {
    node_id = codes "a";
    raft_addr = codes "a:1";
    has_transport = true;
    has_discovery = true;
    has_logger = true;
    has_consensus = true;
    is_reconfigurer = true;
    has_membership = true;
    has_server = true;
    server_addr = codes "a:2";
    server_acks = true;
    server_broadcasts = true;
    has_client = true;
    has_handlers = true;
    repl_window = pos 8;
    repl_buffer_dir = codes "d";
  };
  member_json = mute_json;
  remove_json = mute_json;
  status_json = record { marshal = λ a. ok []; unmarshal = λ b. ok no_status };
  path_join = λ a b. a ++ b;
}

abbrev pub leader_setup : Setup
leader_setup = setup_of true

abbrev pub follower_setup : Setup
follower_setup = setup_of false

-- Two messages of the topic `t` in the buffer, of which the first is acknowledged.
abbrev pub two_stored : Cluster
two_stored = record fresh {
  rep = record {
    seq = (codes "t", 2) ∷ [];
    buf = (codes "t", (1, codes "x") ∷ (2, codes "y") ∷ []) ∷ [];
  };
}

abbrev pub join_of_b : Membership.Event
join_of_b = record { kind = join; member = member_b; at = 5 }
