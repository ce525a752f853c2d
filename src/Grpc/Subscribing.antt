-- ===== src/Grpc/Subscribing.antt =====
-- pkg/transport/grpc/replication_client.go, and the loop of pkg/cluster/cluster.go that keeps a node
-- subscribed to its leader. The streams, the leader and the members are what a round meets.
pub mod Acking
pub mod Targets
use go_cluster.Prelude.{
  ℕ, Text, is_empty, ◌==◌, text_is_eq, Bool, true, false, Option, none, some, List, [], ◌∷◌, ◌++◌,
  if◌then◌else◌,
}
use go_cluster.Result.{Result, ok, err, Error}
use go_cluster.ConnManager.{release}
use go_cluster.ReplServer.{RepMsg, RepAck}
use go_cluster.Grpc.Client.{Client, get_conn, release_conn}

-- What a subscriber does, in order.
pub data Effect : Type 0 where
  subscribes : Text → Effect
  handles : Text → Text → Effect
  acks : RepAck → Effect

-- What a subscription meets: the dial and the clock, the errors of `NewStream` and of the request,
-- and the messages that are received up to the first error, with that error.
pub record Session : Type 0 where
  pub dialled : Result ℕ
  pub now : ℕ
  pub later : ℕ
  pub stream_error : Error
  pub send_error : Error
  pub received : List RepMsg
  pub ends : Text

-- The receive loop; `has_handler` says that `onMsg` is not nil and does something.
unfoldable pub receive : Bool → Text → List RepMsg → List Effect
receive has_handler node_id [] = []
receive has_handler node_id (m ∷ l) =
    let rest =
      acks (record { topic = m.topic; seq = m.seq; node_id = node_id })
      ∷ receive has_handler node_id l in
    if has_handler then handles m.topic m.body ∷ rest else rest

-- `Subscribe`: the effects, the error that it ends with, and the client.
unfoldable pub subscribe : Bool → Text → Text → Session → Client → List Effect × Text × Client
unfolding get_conn receive
subscribe has_handler addr node_id w c =
    let (conn, c') = get_conn addr w.dialled w.now c in
    elim conn [
      | err e ↦ ([], e, c')
      | ok fd ↦ (elim w.stream_error [
        | some e ↦ ([], e, release_conn addr w.later c')
        | none ↦ (elim w.send_error [
          | some e ↦ ([], e, release_conn addr w.later c')
          | none ↦ (receive has_handler node_id w.received, w.ends, release_conn addr w.later c')
        ])
      ])
    ]

-- The cluster's side: its node, whether its client can subscribe, whether it has a consensus, and
-- whether it has handlers.
pub record Node : Type 0 where
  pub node_id : Text
  pub can_subscribe : Bool
  pub has_consensus : Bool
  pub has_handlers : Bool

-- What a round of the loop meets: whether the context is done at its start, or in the pause behind a
-- subscription, what `Leader` and `lookupMemberAddr` answer, and the subscription.
pub record Round : Type 0 where
  pub is_done : Bool
  pub is_done_after : Bool
  pub leader : Option (Text × Text)
  pub member_addr : Text → Text
  pub session : Session

unfoldable pub leader_mgmt : Node → Round → Text
leader_mgmt n r =
    if n.has_consensus
    then (elim r.leader [
      | none ↦ []
      | some (id, _) ↦ (if id == n.node_id then [] else r.member_addr id)
    ])
    else []

-- The `for` loop of `replicationSubscribeLoop`, over rounds.
unfoldable pub subscribe_loop : Node → List Round → Client → List Effect × Client
unfolding leader_mgmt subscribe
subscribe_loop n [] c = ([], c)
subscribe_loop n (r ∷ l) c =
    let skipped = subscribe_loop n l c in
    let addr = leader_mgmt n r in
    let (effects, e, c') = subscribe n.has_handlers addr n.node_id r.session c in
    let (others, c'') = subscribe_loop n l c' in
    if r.is_done
    then ([], c)
    else if is_empty addr
    then skipped
    else if r.is_done_after
    then (subscribes addr ∷ effects, c')
    else (subscribes addr ∷ effects ++ others, c'')

unfoldable pub replication_subscribe_loop : Node → List Round → Client → List Effect × Client
unfolding subscribe_loop
replication_subscribe_loop n l c = if n.can_subscribe then subscribe_loop n l c else ([], c)
