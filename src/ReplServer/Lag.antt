-- ===== src/ReplServer/Lag.antt =====
-- What the gauges of the replication lag show.
use go_cluster.Prelude.{
  ℕ, ◌-◌, ◌^◌, ◌<◌, ◌≤◌, Text, nat_eq, text_is_eq, text_eq_iff, is_empty, true, false, some, [],
  ◌≡◌, refl, ap, ◌∙◌, arith, leb, if◌then◌else◌, or_zero,
}
use go_cluster.Prelude.Int.{sub_u64}
use go_cluster.GoMap.{GoMap, lookup, insert, lookup-insert}
use go_cluster.ReplServer.{RepAck, Server, ack, min_ack}
use go_cluster.ReplServer.Acks.{acked_by, acked_by-ack, min_loop-some}
use go_cluster.ReplServer.Gauges.{
  Gauges, gauge, node_gauge, set_node, set_lags, count_ack, ack_metered,
}

gauge-insert : (t : Text) (v : ℕ) (m : GoMap Text ℕ) → gauge t (insert t v m) ≡ v
gauge-insert t v m = ground (arith, lookup-insert t t v m, text_eq_iff t t)

node_gauge-set_node :
    (t n : Text) (v : ℕ) (m : GoMap Text (GoMap Text ℕ)) → node_gauge t n (set_node t n v m) ≡ v
node_gauge-set_node t n v m = ground (
  arith,
  lookup-insert t t (insert n v (or_zero [] (lookup t m))) m,
  text_eq_iff t t,
  lookup-insert n n v (or_zero [] (lookup t m)),
  text_eq_iff n n,
)

seq-ack : (a : RepAck) (s : Server) → (ack (some a) s).seq ≡ s.seq
unfolding ack
seq-ack a s = ground arith

acked_by-ack_self :
    (a : RepAck) (s : Server)
    → is_empty a.topic ≡ false
    → is_empty a.node_id ≡ false
    → acked_by a.topic a.node_id (ack (some a) s) ≡ some a.seq
acked_by-ack_self a s topic node =
    acked_by-ack a a.topic a.node_id s
    ∙ ground (arith, text_eq_iff a.topic a.topic, text_eq_iff a.node_id a.node_id)

-- What `Ack` sets where the least acknowledgement is not beyond the last number.
ack_metered-lags :
    (a : RepAck) (s : Server) (g : Gauges)
    → is_empty a.topic ≡ false
    → is_empty a.node_id ≡ false
    → min_ack a.topic (ack (some a) s) ≤ gauge a.topic s.seq
    → (ack_metered a s g).1
      ≡ set_lags a (gauge a.topic s.seq) (min_ack a.topic (ack (some a) s)) (count_ack a g)
unfolding ack_metered min_ack insert
ack_metered-lags a s g topic node le =
    let e =
      min_loop-some a.topic a.node_id a.seq (ack (some a) s) (acked_by-ack_self a s topic node) in
    let within : leb (min_ack a.topic (ack (some a) s)) (gauge a.topic s.seq) ≡ true =
      ground arith in
    rw (ack_metered, topic, node, ap (λ p. p.1) e, ap (λ p. p.0) e, seq-ack a s, within) refl

-- Where the least acknowledgement of the topic, after one that names its topic and its node, is not
-- beyond the last number sent, and both numbers are uint64: the number that is converted to float64
-- for the gauge of the topic's lag is their distance. The one for the gauge of the node's lag is the
-- distance of its own acknowledgement, if that is not beyond the last number either; if it is, 2^64
-- less what it is ahead.
pub ack_metered_lem :
    (a : RepAck) (s : Server) (g : Gauges)
    → is_empty a.topic ≡ false
    → is_empty a.node_id ≡ false
    → a.seq < 2 ^ 64
    → gauge a.topic s.seq < 2 ^ 64
    → min_ack a.topic (ack (some a) s) ≤ gauge a.topic s.seq
    → (gauge a.topic (ack_metered a s g).1.lag
        ≡ gauge a.topic s.seq - min_ack a.topic (ack (some a) s))
      × (node_gauge a.topic a.node_id (ack_metered a s g).1.lag_per_node ≡ (
          if leb a.seq (gauge a.topic s.seq)
          then gauge a.topic s.seq - a.seq
          else 2 ^ 64 - (a.seq - gauge a.topic s.seq)))
ack_metered_lem a s g topic node small small' le =
    let e = ack_metered-lags a s g topic node le in
    let last = gauge a.topic s.seq in
    let wrapped : sub_u64 last a.seq
        ≡ (if leb a.seq last then last - a.seq else 2 ^ 64 - (a.seq - last)) =
      unfold sub_u64 in ground arith in
    (
      ap (λ r. gauge a.topic r.lag) e ∙ gauge-insert a.topic _ g.lag,
      ap (λ r. node_gauge a.topic a.node_id r.lag_per_node) e
          ∙ node_gauge-set_node a.topic a.node_id _ g.lag_per_node
          ∙ wrapped,
    )
