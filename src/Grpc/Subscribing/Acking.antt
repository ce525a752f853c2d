-- ===== src/Grpc/Subscribing/Acking.antt =====
-- The acknowledgements of a subscriber, at the leader.
use go_cluster.Prelude.{
  ℕ, suc, Text, is_empty, text_is_eq, text_eq_iff, ◌≡◌, refl, ap, Bool, true, false, some, List, [],
  ◌∷◌, ◌++◌, ◌⊎◌, inl, inr, arith, if◌then◌else◌, Bool-cases, Option-cases,
}
use go_cluster.Result.{Result-cases}
use go_cluster.ReplServer.{Server, RepMsg, RepAck, ack}
use go_cluster.ReplServer.Acks.{acked_by, acked_by-ack}
use go_cluster.Grpc.Client.{Client, get_conn}
use go_cluster.Grpc.Subscribing.{
  Effect, subscribes, handles, acks, Session, Node, Round, receive, subscribe, leader_mgmt,
  subscribe_loop, replication_subscribe_loop,
}

abbrev pub ack_of : Text → RepMsg → RepAck
ack_of node m = record { topic = m.topic; seq = m.seq; node_id = node }

-- Each acknowledgement of the node is of a message for which `P` holds, and follows the handling of
-- that message.
pub data IsPaired (P : RepMsg → Type 0) (node : Text) : List Effect → Type 0 where
  done : IsPaired P node []
  joined : {a : Text} {l : List Effect} → IsPaired P node l → IsPaired P node (subscribes a ∷ l)
  confirmed :
      (m : RepMsg) {l : List Effect}
      → P m
      → IsPaired P node l
      → IsPaired P node (handles m.topic m.body ∷ acks (ack_of node m) ∷ l)

-- The message stands in the list.
abbrev pub IsIn : RepMsg → List RepMsg → Type 0
IsIn m [] = ⊥
IsIn m (x ∷ l) = (x ≡ m) ⊎ IsIn m l

-- The leader of one of the rounds sent the message.
abbrev pub IsSent : RepMsg → List Round → Type 0
IsSent m [] = ⊥
IsSent m (r ∷ l) = IsIn m r.session.received ⊎ IsSent m l

append-IsPaired :
    {P : RepMsg → Type 0} {node : Text} {l k : List Effect}
    → IsPaired P node l
    → IsPaired P node k
    → IsPaired P node (l ++ k)
append-IsPaired done q = q
append-IsPaired (joined p) q = joined (append-IsPaired p q)
append-IsPaired (confirmed m sent p) q = confirmed m sent (append-IsPaired p q)

map-IsPaired :
    {P Q : RepMsg → Type 0} {node : Text}
    → ((m : RepMsg) → P m → Q m)
    → (l : List Effect) → IsPaired P node l
    → IsPaired Q node l
map-IsPaired f _ done = done
map-IsPaired f _ (joined {a} {l} p) = joined (map-IsPaired f l p)
map-IsPaired f _ (confirmed m {l} sent p) = confirmed m (f m sent) (map-IsPaired f l p)

receive-IsPaired :
    (node : Text) (l : List RepMsg) → IsPaired (λ m. IsIn m l) node (receive true node l)
unfolding receive
receive-IsPaired node [] = done
receive-IsPaired node (m ∷ l) =
    confirmed m (inl refl) (map-IsPaired (λ k p. inr p) _ (receive-IsPaired node l))

subscribe-IsPaired :
    (addr node : Text) (w : Session) (c : Client)
    → IsPaired (λ m. IsIn m w.received) node (subscribe true addr node w c).0
unfolding subscribe
subscribe-IsPaired addr node w c = elim (Result-cases (get_conn addr w.dialled w.now c).0) [
  | inr (x, e) ↦ rw (subscribe, e) done
  | inl (fd, e) ↦ elim (Option-cases w.stream_error) [
    | inr (x, f) ↦ rw (subscribe, e, f) done
    | inl f ↦ elim (Option-cases w.send_error) [
      | inr (x, g) ↦ rw (subscribe, e, f, g) done
      | inl g ↦ rw (subscribe, e, f, g) (receive-IsPaired node w.received)
    ]
  ]
]

module _ (n : Node) where
  abbrev pub subscribed : Round → Client → List Effect × Text × Client
  subscribed r c = subscribe n.has_handlers (leader_mgmt n r) n.node_id r.session c

  -- A round ends the loop, changes nothing, or is a subscription, the last one or not.
  pub loop_outcome :
      (r : Round) (l : List Round) (c : Client)
      → (subscribe_loop n (r ∷ l) c ≡ ([], c))
        ⊎ (subscribe_loop n (r ∷ l) c ≡ subscribe_loop n l c)
        ⊎ ((is_empty (leader_mgmt n r) ≡ false)
            × (subscribe_loop n (r ∷ l) c
                ≡ (subscribes (leader_mgmt n r) ∷ (subscribed r c).0, (subscribed r c).2)))
        ⊎ ((is_empty (leader_mgmt n r) ≡ false)
            × (subscribe_loop n (r ∷ l) c ≡ (
              subscribes (leader_mgmt n r) ∷ (subscribed r c).0
                  ++ (subscribe_loop n l (subscribed r c).2).0,
              (subscribe_loop n l (subscribed r c).2).1,
            )))
  unfolding subscribe_loop
  loop_outcome r l c = elim (Bool-cases r.is_done) [
    | inl e ↦ inl (rw (subscribe_loop, e) refl)
    | inr e ↦ elim (Bool-cases (is_empty (leader_mgmt n r))) [
      | inl f ↦ inr (inl (rw (subscribe_loop, e, f) refl))
      | inr f ↦ elim (Bool-cases r.is_done_after) [
        | inl g ↦ inr (inr (inl (f, rw (subscribe_loop, e, f, g) refl)))
        | inr g ↦ inr (inr (inr (f, rw (subscribe_loop, e, f, g) refl)))
      ]
    ]
  ]

  loop-IsPaired :
      (l : List Round) (c : Client)
      → n.has_handlers ≡ true
      → IsPaired (λ m. IsSent m l) n.node_id (subscribe_loop n l c).0
  unfolding subscribe_loop
  loop-IsPaired [] c h = done
  loop-IsPaired (r ∷ l) c h =
      let first : IsPaired (λ m. IsIn m r.session.received) n.node_id (subscribed r c).0 =
        rw h (subscribe-IsPaired (leader_mgmt n r) n.node_id r.session c) in
      let first' : IsPaired (λ m. IsSent m (r ∷ l)) n.node_id (subscribed r c).0 =
        map-IsPaired (λ m p. inl p) _ first in
      let later = λ (d : Client). map-IsPaired (λ m p. inr p) _ (loop-IsPaired l d h) in
      elim (loop_outcome r l c) [
        | inl e ↦ rw e done
        | inr (inl e) ↦ rw e (later c)
        | inr (inr (inl (f, e))) ↦ rw e (joined first')
        | inr (inr (inr (f, e))) ↦ rw e (joined (append-IsPaired first' (later (subscribed r c).2)))
      ]

-- What the leader records, where only some of the acknowledgements arrive.
abbrev pub record_acks : (ℕ → Bool) → List Effect → Server → Server
record_acks arrives [] s = s
record_acks arrives (acks a ∷ l) s =
    record_acks (λ i. arrives (suc i)) l (if arrives 0 then ack (some a) s else s)
record_acks arrives (subscribes a ∷ l) s = record_acks arrives l s
record_acks arrives (handles t b ∷ l) s = record_acks arrives l s

-- A message of the topic, which the leader had sent under the number, was handed to the application
-- and acknowledged then.
abbrev pub IsHandled : (RepMsg → Type 0) → Text → Text → ℕ → List Effect → Type 0
IsHandled P node topic q l =
    (m : RepMsg) × P m
    × (m.topic ≡ topic)
    × (m.seq ≡ q)
    × (before : List Effect) × (behind : List Effect) × (l
        ≡ before ++ handles m.topic m.body ∷ acks (ack_of node m) ∷ behind)

later :
    {P : RepMsg → Type 0} (e : Effect) {node topic : Text} {q : ℕ} {l : List Effect}
    → IsHandled P node topic q l
    → IsHandled P node topic q (e ∷ l)
later e (m, sent, t, k, before, behind, p) = (m, sent, t, k, e ∷ before, behind, ap (◌∷◌ e) p)

-- One acknowledgement that may arrive.
first_ack :
    (node topic : Text) (q : ℕ) (arrives : Bool) (m : RepMsg) (s : Server)
    → acked_by topic node (if arrives then ack (some (ack_of node m)) s else s) ≡ some q
    → (acked_by topic node s ≡ some q) ⊎ ((m.topic ≡ topic) × (m.seq ≡ q))
first_ack node topic q false m s h = inl h
first_ack node topic q true m s h =
    ground (arith, acked_by-ack (ack_of node m) topic node s, text_eq_iff m.topic topic)

paired-handled :
    (P : RepMsg → Type 0) (node topic : Text) (q : ℕ) (arrives : ℕ → Bool) (l : List Effect)
    (s : Server)
    → IsPaired P node l
    → acked_by topic node (record_acks arrives l s) ≡ some q
    → (acked_by topic node s ≡ some q) ⊎ IsHandled P node topic q l
paired-handled P node topic q arrives _ s done h = inl h
paired-handled P node topic q arrives _ s (joined {a} {l} p) h =
    elim (paired-handled P node topic q arrives l s p h) [
      | inl e ↦ inl e
      | inr e ↦ inr (later (subscribes a) e)
    ]
paired-handled P node topic q arrives _ s (confirmed m {l} sent p) h =
    let s' = if arrives 0 then ack (some (ack_of node m)) s else s in
    elim (paired-handled P node topic q (λ i. arrives (suc i)) l s' p h) [
      | inr e ↦ inr (later (handles m.topic m.body) (later (acks (ack_of node m)) e))
      | inl e ↦ elim (first_ack node topic q (arrives 0) m s e) [
        | inl f ↦ inl f
        | inr (t, k) ↦ inr (m, sent, t, k, [], l, refl)
      ]
    ]

-- What the leader records for a node that subscribes with handlers, whichever of its acknowledgements
-- arrive, was recorded before, or is the number under which the leader sent a message of the topic,
-- in one of the rounds, that the node handed to the application just before it acknowledged it.
pub acked_by-handled :
    (n : Node) (rounds : List Round) (c : Client) (arrives : ℕ → Bool) (s : Server) (topic : Text)
    (q : ℕ)
    → n.has_handlers ≡ true
    → acked_by topic n.node_id (record_acks arrives (replication_subscribe_loop n rounds c).0 s)
      ≡ some q
    → (acked_by topic n.node_id s ≡ some q)
      ⊎ IsHandled (λ m. IsSent m rounds) n.node_id topic q (replication_subscribe_loop n rounds c).0
unfolding replication_subscribe_loop
acked_by-handled n rounds c arrives s topic q h = elim (Bool-cases n.can_subscribe) [
  | inl e ↦
      rw (replication_subscribe_loop, e)
        (paired-handled (λ m. IsSent m rounds) n.node_id topic q arrives
          (subscribe_loop n rounds c).0 s (loop-IsPaired n rounds c h))
  | inr e ↦ rw (replication_subscribe_loop, e) (λ k. inl k)
]
