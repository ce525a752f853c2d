-- ===== src/ReplServer/Acks.antt =====
-- `minAck` is the least acknowledgement of a topic, and `AckedAll` gives it for every topic.
use go_cluster.Prelude.{
  ℕ, ◌≤◌, Text, nat_eq, text_is_eq, text_eq_iff, ◌==◌, is_empty, not, ◌&&◌, Bool, true, false,
  Option, none, some, [], ◌∷◌, ◌≡◌, refl, ap, ◌<◌, ◌∙◌, ◌⊎◌, inl, inr, ◌≢◌, arith, ltb,
  if◌then◌else◌, or_zero, Bool-cases,
}
use go_cluster.GoMap.{GoMap, lookup, insert, has, lookup-insert}
use go_cluster.GoMap.Unique.{IsUnique}
use go_cluster.ReplServer.{Server, RepAck, ack, min_loop, min_ack, acked_topics, acked_all}

-- What one node of the topic has acknowledged.
abbrev pub acked_by : Text → Text → Server → Option ℕ
acked_by topic node s = lookup node (or_zero [] (lookup topic s.ack))

min_loop-le_start : (l : GoMap Text ℕ) (min : ℕ) → (min_loop l min false).0 ≤ min
unfolding min_loop
min_loop-le_start [] min = omega arith
min_loop-le_start ((n, v) ∷ l) min = ground (arith, min_loop-le_start l v, min_loop-le_start l min)

min_loop-first : (l : GoMap Text ℕ) (min : ℕ) → (min_loop l min false).1 ≡ false
unfolding min_loop
min_loop-first [] min = refl
min_loop-first ((n, v) ∷ l) min = ground (arith, min_loop-first l v, min_loop-first l min)

min_loop-le :
    (l : GoMap Text ℕ) (min : ℕ) (first : Bool) (node : Text) (v : ℕ)
    → lookup node l ≡ some v
    → ((min_loop l min first).0 ≤ v) × ((min_loop l min first).1 ≡ false)
unfolding lookup min_loop
min_loop-le [] min first node v h = ground arith
min_loop-le ((n, w) ∷ l) min first node v h = ground (
  arith,
  min_loop-le_start l w,
  min_loop-le_start l min,
  min_loop-first l w,
  min_loop-first l min,
  min_loop-le l w false node v,
  min_loop-le l min first node v,
)

found_later :
    (n node : Text) (w r : ℕ) (l : GoMap Text ℕ)
    → lookup n l ≡ none
    → lookup node l ≡ some r
    → lookup node ((n, w) ∷ l) ≡ some r
unfolding lookup
found_later n node w r l fresh h = ground (arith, text_eq_iff n node)

-- The result of the loop is the start value or one of the values.
min_loop-attained :
    (l : GoMap Text ℕ) (min : ℕ)
    → IsUnique l
    → ((min_loop l min false).0 ≡ min)
      ⊎ ((node : Text) × (lookup node l ≡ some (min_loop l min false).0))
unfolding min_loop
min_loop-attained [] min u = inl refl
min_loop-attained ((n, w) ∷ l) min (fresh, u) = elim (Bool-cases (ltb w min)) [
  | inl less ↦
      rw (less, min_loop)
        (elim (min_loop-attained l w u) [
          | inl e ↦ inr (n, unfold lookup in ground (arith, text_eq_iff n n))
          | inr (node, e) ↦ inr (node, found_later n node w _ l fresh e)
        ])
  | inr more ↦
      rw (more, min_loop)
        (elim (min_loop-attained l min u) [
          | inl e ↦ inl e
          | inr (node, e) ↦ inr (node, found_later n node w _ l fresh e)
        ])
]

min_first :
    (l : GoMap Text ℕ)
    → IsUnique l
    → (l ≡ [])
      ⊎ ((node : Text) × (lookup node l ≡ some (min_loop l 0 true).0)
          × ((min_loop l 0 true).1 ≡ false))
unfolding min_loop
min_first [] u = inl refl
min_first ((n, w) ∷ l) (fresh, u) = elim (min_loop-attained l w u) [
  | inl e ↦ inr (n, unfold lookup in ground (arith, text_eq_iff n n), min_loop-first l w)
  | inr (node, e) ↦ inr (node, found_later n node w _ l fresh e, min_loop-first l w)
]

min_loop-not_first :
    (l : GoMap Text ℕ) (node : Text) (v : ℕ)
    → lookup node l ≡ some v
    → (min_loop l 0 true).1 ≡ false
unfolding min_loop lookup
min_loop-not_first [] node v e = cc
min_loop-not_first ((n, w) ∷ l) node v e = min_loop-first l w

-- The loop has met a value, and its minimum is the least acknowledgement.
pub min_loop-some :
    (topic node : Text) (v : ℕ) (s : Server)
    → acked_by topic node s ≡ some v
    → min_loop (or_zero [] (lookup topic s.ack)) 0 true ≡ (min_ack topic s, false)
unfolding min_ack
min_loop-some topic node v s h =
    let l = or_zero [] (lookup topic s.ack) in
    let e = min_loop-not_first l node v h in
    rw (min_ack, e) (ap (λ b. ((min_loop l 0 true).0, b)) e)

-- The least acknowledgement is at or below what every node of the topic has acknowledged.
pub min_ack-le :
    (topic node : Text) (v : ℕ) (s : Server) → acked_by topic node s ≡ some v → min_ack topic s ≤ v
unfolding min_ack
min_ack-le topic node v s h =
    ground (arith, min_loop-le (or_zero [] (lookup topic s.ack)) 0 true node v h)

-- A least acknowledgement above zero is that of some node.
pub min_ack_attained :
    (topic : Text) (s : Server)
    → IsUnique (or_zero [] (lookup topic s.ack))
    → 0 < min_ack topic s
    → (least : Text) × (acked_by topic least s ≡ some (min_ack topic s))
unfolding min_ack
min_ack_attained topic s u h = elim (min_first (or_zero [] (lookup topic s.ack)) u) [
  | inl e ↦ absurd (unfold min_loop in ground (arith, h, ap (λ l. (min_loop l 0 true).1) e))
  | inr (least, e, first) ↦ (least, ground arith)
]

-- An acknowledgement with a topic and a node ID is recorded for that node of that topic, whatever
-- was recorded for it before, and for no other; any other is ignored.
pub acked_by-ack :
    (a : RepAck) (topic node : Text) (s : Server)
    → acked_by topic node (ack (some a) s) ≡ (
        if not (is_empty a.topic)
          && not (is_empty a.node_id)
          && (a.topic == topic)
          && (a.node_id == node)
        then some a.seq
        else acked_by topic node s)
unfolding ack
acked_by-ack a topic node s = ground (
  arith,
  text_eq_iff a.topic topic,
  text_eq_iff a.node_id node,
  lookup-insert a.topic topic (insert a.node_id a.seq (or_zero [] (lookup a.topic s.ack))) s.ack,
  lookup-insert a.node_id node a.seq (or_zero [] (lookup a.topic s.ack)),
)

lookup-acked_topics :
    (topic : Text) (s : Server) (l : GoMap Text (GoMap Text ℕ)) (out : GoMap Text ℕ)
    → lookup topic (acked_topics s l out)
      ≡ (if has topic l then some (min_ack topic s) else lookup topic out)
unfolding lookup acked_topics
lookup-acked_topics topic s [] out = refl
lookup-acked_topics topic s ((t, m) ∷ l) out = ground (
  arith,
  lookup-acked_topics topic s l (insert t (min_ack t s) out),
  lookup-insert t topic (min_ack t s) out,
  text_eq_iff t topic,
)

-- `AckedAll` has an entry for exactly the topics of which something was acknowledged, and it is
-- `minAck`.
pub lookup-acked_all :
    (topic : Text) (s : Server)
    → lookup topic (acked_all s) ≡ (if has topic s.ack then some (min_ack topic s) else none)
unfolding acked_all lookup
lookup-acked_all topic s = lookup-acked_topics topic s s.ack []

-- A late acknowledgement, with a topic and a node ID, takes the progress of its topic back: after it
-- `minAck` is at most its number, however far the node, or every node, had acknowledged before.
pub min_ack-ack-le :
    (a : RepAck) (s : Server)
    → a.topic ≢ []
    → a.node_id ≢ []
    → min_ack a.topic (ack (some a) s) ≤ a.seq
min_ack-ack-le a s ht hn = min_ack-le a.topic a.node_id a.seq (ack (some a) s) (
    acked_by-ack a a.topic a.node_id s
    ∙ ground (arith, text_eq_iff a.topic a.topic, text_eq_iff a.node_id a.node_id))
