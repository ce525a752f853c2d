-- ===== src/Grpc/Tests.antt =====
-- A call, a write that fails, and a follower that hears one message of its leader.
use go_cluster.Prelude.{ℕ, suc, Text, codes, ◌≡◌, refl, true, false, none, some, [], ◌∷◌, All, ◌⊎◌}
use go_cluster.Result.{Result, ok, err}
use go_cluster.Transport.{AppWriteRequest, AppWriteResponse}
use go_cluster.GoMap.{lookup, insert}
use go_cluster.ReplServer.{RepMsg, ack, new_server}
use go_cluster.ReplServer.Acks.{acked_by}
use go_cluster.Grpc.Management.{Mgmt}
use go_cluster.Grpc.Client.{Client, Call, manager, call_managed}
use go_cluster.Grpc.Calling.{refs, refs-call_managed}
use go_cluster.Grpc.Subscribing.{Node, Round, receive, replication_subscribe_loop}
use go_cluster.Grpc.Subscribing.Acking.{IsHandled, IsSent, record_acks, acked_by-handled}
use go_cluster.Grpc.Subscribing.Targets.{IsWanted, replication_subscribe_loop-IsWanted}

abbrev client : Client
client = record { timeout = 3; has_tls = false; cm = none }

-- A call that fails on the connection 7.
abbrev broken : Call Text Text
broken = record { dialled = ok 7; now = 1; later = 2; invoke = λ fd r. ([], some (codes "EOF")) }

refs-call_managed_example :
    refs (codes "a") (manager (call_managed [] broken (codes "a") [] client).1)
    ≡ refs (codes "a") (manager client)
refs-call_managed_example = refs-call_managed [] broken (codes "a") [] client (codes "a")

abbrev full : AppWriteRequest → ℕ → Result AppWriteResponse × ℕ
full r n = (err (codes "full"), suc n)

abbrev service : Mgmt ℕ
service = record {
  status = λ s. (ok [], s);
  join = λ r s. (err [], s);
  leave = none;
  app_write = some full;
  app_sync = none;
}

abbrev unset : AppWriteResponse
unset = record { body = []; error = [] }

abbrev write : AppWriteRequest
write = record { op = codes "op"; body = codes "x" }

abbrev follower : Node
follower = record {
  node_id = codes "n2";
  can_subscribe = true;
  has_consensus = true;
  has_handlers = true;
}

abbrev message : RepMsg
message = record { topic = codes "t"; body = codes "b"; seq = 4 }

-- A round with the leader `n1` at `a`, which sends a message before the stream breaks.
abbrev round : Round
round = record {
  is_done = false;
  is_done_after = true;
  leader = some (codes "n1", codes "r1");
  member_addr = λ id. codes "a";
  session = record {
    dialled = ok 7;
    now = 1;
    later = 2;
    stream_error = none;
    send_error = none;
    received = message ∷ [];
    ends = codes "EOF";
  };
}

replication_subscribe_loop-IsWanted_example :
    All (IsWanted follower (round ∷ [])) (replication_subscribe_loop follower (round ∷ []) client).0
    × (refs (codes "a") (manager (replication_subscribe_loop follower (round ∷ []) client).1)
        ≡ refs (codes "a") (manager client))
replication_subscribe_loop-IsWanted_example =
    replication_subscribe_loop-IsWanted follower (round ∷ []) client (codes "a")

recorded :
    acked_by (codes "t") (codes "n2") (
      record_acks
        (λ i. true)
        (replication_subscribe_loop follower (round ∷ []) client).0
        new_server)
    ≡ some 4
unfolding replication_subscribe_loop receive lookup insert ack
recorded = refl

acked_by-handled_example :
    (acked_by (codes "t") (codes "n2") new_server ≡ some 4)
    ⊎ IsHandled
        (λ m. IsSent m (round ∷ []))
        (codes "n2")
        (codes "t")
        4
        (replication_subscribe_loop follower (round ∷ []) client).0
acked_by-handled_example =
    acked_by-handled follower (round ∷ []) client (λ i. true) new_server (codes "t") 4 refl recorded
