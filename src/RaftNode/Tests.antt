-- ===== src/RaftNode/Tests.antt =====
-- A Raft instance that is its server list, and the theorems of the node applied.
use go_cluster.Prelude.{
  ℕ, Text, codes, text_is_eq, ◌==◌, true, false, Option, none, some, [], ◌∷◌, ◌++◌, ◌≡◌, refl, ap,
  ◌∙◌, if◌then◌else◌,
}
use go_cluster.Prelude.Int.{pos}
use go_cluster.Result.{ok}
use go_cluster.GoMap.{GoMap, lookup, insert, delete, lookup-insert, lookup-delete}
use go_cluster.Consensus.{LeaderInfo}
use go_cluster.RaftNode.{Library, Node, Options, Config, ensure_voter}
use go_cluster.RaftNode.Configuring.{IsReconfigurable, ensure_voter_lem}

abbrev default : Config
default = record {
  local_id = [];
  heartbeat_timeout = 1000;
  leader_lease_timeout = 500;
  election_timeout = 1000;
  commit_timeout = 50;
}

-- Every call succeeds at once.
abbrev library : Library
library = record {
  Raft = GoMap Text Text;
  Logs = Unit;
  Snapshots = Unit;
  Transport = Unit;
  default_config = default;
  make_dir = λ d. none;
  bolt_store = λ p. ok tt;
  file_snapshots = λ d n. ok tt;
  inmem_store = tt;
  inmem_snapshots = tt;
  tcp_transport = λ a. ok (a, tt);
  inmem_transport = λ a. (a, tt);
  path_join = λ a b. a ++ b;
  new_raft = λ c l s p t. ok [];
  bootstrap_cluster = λ l r. (none, l);
  is_leader = λ r. true;
  leader_with_id = λ r. (codes "b:1", codes "b");
  stats = λ r. [];
  apply = λ entry t r. ((none, none), r);
  shutdown = λ r. (none, r);
  configuration = λ r. ok r;
  add_voter = λ id addr t r. (none, insert id addr r);
  remove_server = λ id t r. (none, delete id r);
}

library-IsReconfigurable : IsReconfigurable library
library-IsReconfigurable = record {
  add = λ id addr t r m e done. (
    insert id addr r,
    refl,
    λ j.
        lookup-insert id j addr r
        ∙ ap (λ (o : Option Text). if id == j then some addr else o) (same j e),
  );
  remove = λ id t r m e done. (
    delete id r,
    refl,
    λ j. lookup-delete id j r ∙ ap (λ (o : Option Text). if id == j then none else o) (same j e),
  );
}
  where
    same : {r m : GoMap Text Text} (j : Text) → ok r ≡ ok m → lookup j r ≡ lookup j m
    same j e = cc

abbrev options : Options
options = record {
  node_id = codes "a";
  bootstrap = true;
  heartbeat_timeout = pos 1;
  election_timeout = pos 0;
  commit_timeout = pos 0;
  apply_timeout = pos 0;
  bind_addr = [];
  data_dir = [];
  snapshots_retained = pos 0;
}

-- The server b moves to another address.
abbrev servers : GoMap Text Text
servers = (codes "a", codes "a:1") ∷ (codes "b", codes "b:1") ∷ []

ensure_voter_lem_example :
    (m : GoMap Text Text) × (ok (ensure_voter library (codes "b") (codes "b:2") (pos 3) servers).1
      ≡ ok m)
    × ((j : Text) → lookup j m ≡ (if codes "b" == j then some (codes "b:2") else lookup j servers))
unfolding ensure_voter lookup
ensure_voter_lem_example =
    ensure_voter_lem library library-IsReconfigurable (codes "b") (codes "b:2") (pos 3) servers
      servers refl refl

abbrev info : ℕ → LeaderInfo
info t = record { id = codes "b"; addr = codes "b:1"; term = t }

abbrev node : Node library
node = record {
  opts = options;
  raft = some servers;
  leader_ch = record { capacity = 2; items = info 1 ∷ []; closed = false };
}
