-- ===== src/ReplServer.antt =====
-- pkg/transport/grpc/server.go, the replication part: the leader's subscribers, the last sequence
-- number sent per topic and the acknowledgements per topic and node. Each method is one step; the
-- source has no lock for these maps.
pub mod Acks
pub mod Gauges
pub mod Streams
pub mod Lag
pub mod Broadcasts
mod Tests
use go_cluster.Prelude.{
  ℕ, suc, ◌+◌, Text, nat_eq, text_is_eq, is_empty, Bool, true, false, not, ◌&&◌, ◌||◌, Option, none,
  some, List, [], ◌∷◌, ◌++◌, map, ltb, if◌then◌else◌, or_zero,
}
use go_cluster.GoMap.{GoMap, lookup, insert, delete}

pub record RepMsg : Type 0 where
  pub topic : Text
  pub body : Text
  pub seq : ℕ

pub record RepAck : Type 0 where
  pub topic : Text
  pub seq : ℕ
  pub node_id : Text

-- A subscriber is the address of its `repSub`, with the node ID that it gave. `subs` is none before
-- `Start`. `running` says that `srv` is not nil.
pub record Server : Type 0 where
  pub running : Bool
  pub subs : Option (GoMap ℕ Text)
  pub seq : GoMap Text ℕ
  pub ack : GoMap Text (GoMap Text ℕ)

-- `NewServer`.
abbrev pub new_server : Server
new_server = record { running = false; subs = none; seq = []; ack = [] }

-- What `Start` does to the replication state.
unfoldable pub start : Server → Server
start s = record { running = true; subs = some []; seq = []; ack = [] }

-- `Stop` drops the server and keeps the rest.
unfoldable pub stop : Server → Server
stop s = record s { running = false }

unfoldable pub add_sub : ℕ → Text → Server → Server
add_sub sub node_id s =
    if s.running then record s { subs = some (insert sub node_id (or_zero [] s.subs)) } else s

unfoldable pub remove_sub : ℕ → Server → Server
remove_sub sub s = elim s.subs [ none ↦ s | some subs ↦ record s { subs = some (delete sub subs) } ]

-- `Ack`. Gauges has the metrics that it sets. `none` is a nil request.
unfoldable pub ack : Option RepAck → Server → Server
ack none s = s
ack (some a) s =
    if not (is_empty a.topic) && not (is_empty a.node_id)
    then record s {
      ack = insert a.topic (insert a.node_id a.seq (or_zero [] (lookup a.topic s.ack))) s.ack;
    }
    else s

-- The loop of `minAck`, on `min` and `first`.
unfoldable pub min_loop : GoMap Text ℕ → ℕ → Bool → ℕ × Bool
min_loop [] min first = (min, first)
min_loop ((_, v) ∷ l) min first =
    min_loop l (if first || ltb v min then v else min) (if first || ltb v min then false else first)

unfoldable pub min_ack : Text → Server → ℕ
unfolding min_loop
min_ack topic s =
    let (min, first) = min_loop (or_zero [] (lookup topic s.ack)) 0 true in if first then 0 else min

-- The loop of `AckedAll`.
unfoldable pub acked_topics : Server → GoMap Text (GoMap Text ℕ) → GoMap Text ℕ → GoMap Text ℕ
acked_topics s [] out = out
acked_topics s ((topic, _) ∷ l) out = acked_topics s l (insert topic (min_ack topic s) out)

unfoldable pub acked_all : Server → GoMap Text ℕ
unfolding acked_topics
acked_all s = acked_topics s s.ack []

-- The loop of `BroadcastWithSeq`: `sends` says whether `SendMsg` to a subscriber succeeds. The
-- result is the count, the subscribers that are left, and those that have the message.
unfoldable pub broadcast_loop : (ℕ → Bool) → GoMap ℕ Text → GoMap ℕ Text → ℕ × GoMap ℕ Text × List ℕ
broadcast_loop sends [] subs = (0, subs, [])
broadcast_loop sends ((sub, _) ∷ l) subs =
    let (n, left, reached) = broadcast_loop sends l (if sends sub then subs else delete sub subs) in
    if sends sub then (suc n, left, sub ∷ reached) else (n, left, reached)

-- `BroadcastWithSeq`: the count, the server after it, and the subscribers that have the message.
unfoldable pub broadcast_with_seq : (ℕ → Bool) → RepMsg → Server → ℕ × Server × List ℕ
unfolding broadcast_loop
broadcast_with_seq sends msg s = elim s.subs [
  | none ↦ (0, s, [])
  | some subs ↦
      let (n, left, reached) = broadcast_loop sends subs subs in
      (n, record s { subs = some left; seq = insert msg.topic msg.seq s.seq }, reached)
]

-- `Broadcast`, without a sequence number.
unfoldable pub broadcast : (ℕ → Bool) → Text → Text → Server → ℕ × Server × List ℕ
unfolding broadcast_with_seq
broadcast sends topic body s =
    broadcast_with_seq sends (record { topic = topic; body = body; seq = 0 }) s
