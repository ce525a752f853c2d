-- ===== src/Cluster/Replication/Tests.antt =====
-- A server that knows one node, and publishers that overlap.
use go_cluster.Prelude.{
  ℕ, ◌≤◌, Text, codes, nat_eq, text_is_eq, ◌≡◌, ◌≢◌, refl, true, none, some, List, [], ◌∷◌, arith,
}
use go_cluster.GoMap.{lookup, insert}
use go_cluster.ReplServer.{Server, min_ack, min_loop, acked_all, acked_topics}
use go_cluster.ReplServer.Acks.{acked_by}
use go_cluster.Cluster.Leadership.{leads}
use go_cluster.Cluster.Disk.Restored.{buffered, IsCovered}
use go_cluster.Cluster.Scenario.{leader_setup, two_stored}
use go_cluster.Cluster.Replication.{has_room, store_message, retry, acked_by_server}
use go_cluster.Cluster.Replication.Retrying.{IsBelowLimit, acks_seen, retry_lem}
use go_cluster.Cluster.Replication.Delivery.{retry-acked_by}
use go_cluster.Cluster.Replication.Covering.{
  Change, publishes, retries, restores, IsLow, run-IsCovered,
}
use go_cluster.Cluster.Replication.Covering
use go_cluster.Cluster.Replication.Concurrent.{
  step, System, Action, tests, stores, acknowledges, run, IsBounded, run-IsBounded,
}

-- The node `b` has acknowledged the first message.
abbrev server : Server
server = record {
  running = true;
  subs = some [];
  seq = [];
  ack = (codes "t", (codes "b", 1) ∷ []) ∷ [];
}

seq-IsBelowLimit : IsBelowLimit two_stored.rep.seq
unfolding lookup
seq-IsBelowLimit topic = ground arith

acked_all-IsBelowLimit : IsBelowLimit (acked_all server)
unfolding lookup acked_all acked_topics min_ack min_loop insert
acked_all-IsBelowLimit topic = ground arith

acks-IsBelowLimit : IsBelowLimit (acks_seen leader_setup two_stored)
unfolding lookup leads acked_by_server
acks-IsBelowLimit topic = ground arith

retry_removes :
    buffered (codes "t") 1 (retry leader_setup two_stored).1.rep
    ≢ buffered (codes "t") 1 two_stored.rep
unfolding leads lookup acked_by_server
retry_removes e =
    let gone : buffered (codes "t") 1 (retry leader_setup two_stored).1.rep ≡ none =
      (retry_lem leader_setup (codes "t") [] 1 two_stored refl (refl, tt) seq-IsBelowLimit
        acks-IsBelowLimit).0 in
    cc

retry-acked_by_example :
    ((node : Text) × (v : ℕ) × (acked_by (codes "t") node server ≡ some v) × (1 ≤ v))
    × ((node : Text) (v : ℕ) → acked_by (codes "t") node server ≡ some v → 1 ≤ v)
unfolding leads lookup acked_all acked_topics min_ack min_loop insert retry
retry-acked_by_example =
    retry-acked_by leader_setup server (codes "t") 1 two_stored refl (refl, refl) (refl, tt)
      seq-IsBelowLimit acked_all-IsBelowLimit (refl, tt) (omega arith) retry_removes

-- One message of two is acknowledged.
abbrev system : System
system = record { rep = two_stored.rep; acked = 1; passed = 0 }

system-IsBounded : IsBounded 2 2 (codes "t") system
unfolding lookup
system-IsBounded = record { behind = omega arith; bounded = omega arith }

abbrev actions : List Action
actions = tests ∷ tests ∷ stores (codes "x") ∷ stores (codes "y") ∷ acknowledges 3 ∷ []

run-IsBounded_example : IsBounded 2 2 (codes "t") (run 2 2 (codes "t") actions system)
unfolding lookup step store_message has_room insert
run-IsBounded_example =
    run-IsBounded 2 2 (codes "t") actions system (omega arith)
      (tt, (tt, (tt, (tt, ((omega arith, omega arith), tt))))) system-IsBounded

two_stored-IsCovered : IsCovered two_stored.rep
unfolding lookup
two_stored-IsCovered = record { at = λ topic n body found. ground arith }

-- A third message, a round, and a restart.
abbrev changes : List Change
changes = publishes 5 (codes "t") (codes "z") ∷ retries ∷ restores (codes "d") ∷ []

changes-IsLow : IsLow leader_setup changes two_stored
unfolding IsLow lookup
changes-IsLow = (omega arith, tt)

run-IsCovered_example : IsCovered (Covering.run leader_setup changes two_stored).rep
run-IsCovered_example =
    run-IsCovered leader_setup changes two_stored changes-IsLow two_stored-IsCovered
