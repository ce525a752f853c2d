-- ===== src/ReplServer/Gauges.antt =====
-- pkg/transport/grpc/server.go: the metrics that acknowledgements and broadcasts set, as the uint64
-- that the code converts to float64 and hands to Prometheus; the conversion, which rounds from 2^53
-- on, is Prometheus's side.
use go_cluster.Prelude.{
  ℕ, ◌+◌, ◌-◌, Text, nat_eq, text_is_eq, is_empty, Bool, true, not, ◌&&◌, none, some, [], ltb, leb,
  if◌then◌else◌, or_zero,
}
use go_cluster.Prelude.Int.{sub_u64}
use go_cluster.GoMap.{GoMap, lookup, insert}
use go_cluster.ReplServer.{RepMsg, RepAck, Server, ack, min_loop, min_ack, broadcast_with_seq}

-- By topic, and by topic and node.
pub record Gauges : Type 0 where
  pub broadcast_total : GoMap Text ℕ
  pub ack_total : GoMap Text ℕ
  pub ack_per_node_total : GoMap Text (GoMap Text ℕ)
  pub seq : GoMap Text ℕ
  pub ack_seq : GoMap Text ℕ
  pub lag : GoMap Text ℕ
  pub ack_seq_per_node : GoMap Text (GoMap Text ℕ)
  pub lag_per_node : GoMap Text (GoMap Text ℕ)

abbrev pub gauge : Text → GoMap Text ℕ → ℕ
gauge topic m = or_zero 0 (lookup topic m)

abbrev pub node_gauge : Text → Text → GoMap Text (GoMap Text ℕ) → ℕ
node_gauge topic node m = gauge node (or_zero [] (lookup topic m))

abbrev pub set_node : Text → Text → ℕ → GoMap Text (GoMap Text ℕ) → GoMap Text (GoMap Text ℕ)
set_node topic node v m = insert topic (insert node v (or_zero [] (lookup topic m))) m

-- The counters of `Ack`.
abbrev pub count_ack : RepAck → Gauges → Gauges
count_ack a g = record g {
  ack_total = insert a.topic (gauge a.topic g.ack_total + 1) g.ack_total;
  ack_per_node_total =
      set_node a.topic a.node_id (node_gauge a.topic a.node_id g.ack_per_node_total + 1)
        g.ack_per_node_total;
}

-- The gauges of `Ack`, with the topic's last number and least acknowledgement.
abbrev pub set_lags : RepAck → ℕ → ℕ → Gauges → Gauges
set_lags a s least g = record g {
  ack_seq = insert a.topic least g.ack_seq;
  lag = insert a.topic (s - least) g.lag;
  ack_seq_per_node = set_node a.topic a.node_id a.seq g.ack_seq_per_node;
  lag_per_node = set_node a.topic a.node_id (sub_u64 s a.seq) g.lag_per_node;
}

-- `Ack`, with its metrics.
unfoldable pub ack_metered : RepAck → Server → Gauges → Server × Gauges
ack_metered a s g =
    let s' = ack (some a) s in
    let (least, first) = min_loop (or_zero [] (lookup a.topic s'.ack)) 0 true in
    let last = gauge a.topic s'.seq in
    if not (is_empty a.topic) && not (is_empty a.node_id)
    then (
      s',
      if leb least last && not first then set_lags a last least (count_ack a g) else count_ack a g,
    )
    else (s', g)

-- `BroadcastWithSeq` on a server with subscribers, with its metrics; the rest of its result is dropped.
unfoldable pub broadcast_metered : (ℕ → Bool) → RepMsg → Server → Gauges → Server × Gauges
broadcast_metered sends msg s g = elim s.subs [
  | none ↦ (s, g)
  | some subs ↦
      let (n, s', reached) = broadcast_with_seq sends msg s in
      let m = min_ack msg.topic s' in
      let g' = record g {
        broadcast_total =
            insert msg.topic (gauge msg.topic g.broadcast_total + n) g.broadcast_total;
        seq = insert msg.topic msg.seq g.seq;
      } in
      (
        s',
        if ltb 0 m && leb m msg.seq
            then record g' { lag = insert msg.topic (msg.seq - m) g.lag }
            else g',
      )
]
