-- ===== src/Grpc/Subscribing/Targets.antt =====
-- Whom a node subscribes to, and the connections that its subscriptions leave.
use go_cluster.Prelude.{
  Text, is_empty, ◌==◌, text_is_eq, text_eq_iff, ◌≡◌, ◌≢◌, refl, ap, ◌∙◌, Bool, true, false, none,
  some, List, [], ◌∷◌, All, All-append, ◌⊎◌, inl, inr, arith, Bool-cases, Option-cases,
}
use go_cluster.Result.{Result-cases}
use go_cluster.Grpc.Client.{Client, manager, get_conn, call_managed}
use go_cluster.Grpc.Calling.{refs, refs-call_managed}
use go_cluster.ReplServer.{RepMsg}
use go_cluster.Grpc.Subscribing.{
  Effect, subscribes, handles, acks, Session, Node, Round, receive, subscribe, leader_mgmt,
  subscribe_loop, replication_subscribe_loop,
}
use go_cluster.Grpc.Subscribing.Acking.{subscribed, loop_outcome}

-- The address belongs to a leader, other than the node, that one of the rounds knew.
abbrev pub IsLeaderAddr : Node → List Round → Text → Type 0
IsLeaderAddr n [] addr = ⊥
IsLeaderAddr n (r ∷ l) addr =
    ((id : Text) × (raft_addr : Text) × (r.leader ≡ some (id, raft_addr))
      × (id ≢ n.node_id)
      × (addr ≡ r.member_addr id)
      × (addr ≢ []))
    ⊎ IsLeaderAddr n l addr

abbrev pub IsWanted : Node → List Round → Effect → Type 0
IsWanted n l (subscribes addr) = IsLeaderAddr n l addr
IsWanted n l (handles t b) = Unit
IsWanted n l (acks a) = Unit

IsWanted-later :
    (n : Node) (r : Round) (l : List Round) (k : List Effect)
    → All (IsWanted n l) k
    → All (IsWanted n (r ∷ l)) k
IsWanted-later n r l [] h = tt
IsWanted-later n r l (subscribes a ∷ k) (h, hs) = (inr h, IsWanted-later n r l k hs)
IsWanted-later n r l (handles t b ∷ k) (h, hs) = (tt, IsWanted-later n r l k hs)
IsWanted-later n r l (acks a ∷ k) (h, hs) = (tt, IsWanted-later n r l k hs)

receive-IsWanted :
    (n : Node) (l : List Round) (b : Bool) (node : Text) (ms : List RepMsg)
    → All (IsWanted n l) (receive b node ms)
unfolding receive
receive-IsWanted n l b node [] = tt
receive-IsWanted n l true node (m ∷ ms) = (tt, (tt, receive-IsWanted n l true node ms))
receive-IsWanted n l false node (m ∷ ms) = (tt, receive-IsWanted n l false node ms)

subscribe-IsWanted :
    (n : Node) (l : List Round) (b : Bool) (addr node : Text) (w : Session) (c : Client)
    → All (IsWanted n l) (subscribe b addr node w c).0
unfolding subscribe
subscribe-IsWanted n l b addr node w c = elim (Result-cases (get_conn addr w.dialled w.now c).0) [
  | inr (x, e) ↦ rw (All, subscribe, e) tt
  | inl (fd, e) ↦ elim (Option-cases w.stream_error) [
    | inr (x, f) ↦ rw (All, subscribe, e, f) tt
    | inl f ↦ elim (Option-cases w.send_error) [
      | inr (x, g) ↦ rw (All, subscribe, e, f, g) tt
      | inl g ↦ rw (All, subscribe, e, f, g) (receive-IsWanted n l b node w.received)
    ]
  ]
]

-- The connections after a subscription are those after a call that meets the same.
subscribe-call :
    (b : Bool) (addr node : Text) (w : Session) (c : Client)
    → (subscribe b addr node w c).2
      ≡ (call_managed tt
          (record {
            dialled = w.dialled;
            now = w.now;
            later = w.later;
            invoke = λ fd req. (tt {0}, none);
          })
          addr
          (tt {0})
          c).1
unfolding subscribe call_managed
subscribe-call b addr node w c = elim (Result-cases (get_conn addr w.dialled w.now c).0) [
  | inr (x, e) ↦ rw (subscribe, call_managed, e) refl
  | inl (fd, e) ↦ elim (Option-cases w.stream_error) [
    | inr (x, f) ↦ rw (subscribe, call_managed, e, f) refl
    | inl f ↦ elim (Option-cases w.send_error) [
      | inr (x, g) ↦ rw (subscribe, call_managed, e, f, g) refl
      | inl g ↦ rw (subscribe, call_managed, e, f, g) refl
    ]
  ]
]

leader_mgmt-leader :
    (n : Node) (r : Round)
    → is_empty (leader_mgmt n r) ≡ false
    → (id : Text) × (raft_addr : Text) × (r.leader ≡ some (id, raft_addr))
      × (id ≢ n.node_id)
      × (leader_mgmt n r ≡ r.member_addr id)
      × (leader_mgmt n r ≢ [])
unfolding leader_mgmt
leader_mgmt-leader n r = elim (Bool-cases n.has_consensus) [
  | inr e ↦ rw (leader_mgmt, e) (λ h. ground (arith, h))
  | inl e ↦ elim (Option-cases r.leader) [
    | inl f ↦ rw (leader_mgmt, e, f) (λ h. ground (arith, h))
    | inr ((id, raft_addr), f) ↦ elim (Bool-cases (id == n.node_id)) [
      | inl g ↦ rw (leader_mgmt, e, f, g) (λ h. ground (arith, h))
      | inr g ↦
          rw (leader_mgmt, e, f, g)
            (λ h. (
              id,
              raft_addr,
              refl,
              (λ same. ground (arith, g, text_eq_iff id n.node_id, same)),
              refl,
              (λ none_there. ground (arith, h, ap is_empty none_there)),
            ))
    ]
  ]
]

module _ (n : Node) where
  round-IsWanted :
      (r : Round) (l : List Round) (c : Client)
      → is_empty (leader_mgmt n r) ≡ false
      → All (IsWanted n (r ∷ l)) (subscribes (leader_mgmt n r) ∷ (subscribed n r c).0)
  round-IsWanted r l c f = (
    inl (leader_mgmt-leader n r f),
    subscribe-IsWanted n (r ∷ l) n.has_handlers (leader_mgmt n r) n.node_id r.session c,
  )

  loop-IsWanted : (l : List Round) (c : Client) → All (IsWanted n l) (subscribe_loop n l c).0
  unfolding subscribe_loop
  loop-IsWanted [] c = tt
  loop-IsWanted (r ∷ l) c = elim (loop_outcome n r l c) [
    | inl e ↦ rw (All, e) tt
    | inr (inl e) ↦ rw (All, e) (IsWanted-later n r l (subscribe_loop n l c).0 (loop-IsWanted l c))
    | inr (inr (inl (f, e))) ↦ rw (All, e) (round-IsWanted r l c f)
    | inr (inr (inr (f, e))) ↦
        let next = (subscribed n r c).2 in
        let (a, b) = round-IsWanted r l c f in
        rw (All, e)
          (
            a,
            All-append (IsWanted n (r ∷ l)) (subscribed n r c).0 (subscribe_loop n l next).0 b
                (IsWanted-later n r l (subscribe_loop n l next).0 (loop-IsWanted l next)),
          )
  ]

  refs-subscribed :
      (r : Round) (c : Client) (t : Text)
      → refs t (manager (subscribed n r c).2) ≡ refs t (manager c)
  refs-subscribed r c t =
      ap (λ d. refs t (manager d))
        (subscribe-call n.has_handlers (leader_mgmt n r) n.node_id r.session c)
      ∙ refs-call_managed tt _ (leader_mgmt n r) tt c t

  refs-loop :
      (l : List Round) (c : Client) (t : Text)
      → refs t (manager (subscribe_loop n l c).1) ≡ refs t (manager c)
  unfolding subscribe_loop
  refs-loop [] c t = refl
  refs-loop (r ∷ l) c t = elim (loop_outcome n r l c) [
    | inl e ↦ ap (λ p. refs t (manager p.1)) e
    | inr (inl e) ↦ ap (λ p. refs t (manager p.1)) e ∙ refs-loop l c t
    | inr (inr (inl (f, e))) ↦ ap (λ p. refs t (manager p.1)) e ∙ refs-subscribed r c t
    | inr (inr (inr (f, e))) ↦
        ap (λ p. refs t (manager p.1)) e
        ∙ refs-loop l (subscribed n r c).2 t
        ∙ refs-subscribed r c t
  ]

-- Each subscription of a node goes to the address, not empty, of another node that was the leader of
-- the Raft group in one of the rounds; and when the loop has ended, the references to every cached
-- connection are what they were before it.
pub replication_subscribe_loop-IsWanted :
    (n : Node) (l : List Round) (c : Client) (t : Text)
    → All (IsWanted n l) (replication_subscribe_loop n l c).0
      × (refs t (manager (replication_subscribe_loop n l c).1) ≡ refs t (manager c))
unfolding replication_subscribe_loop
replication_subscribe_loop-IsWanted n l c t = elim (Bool-cases n.can_subscribe) [
  | inl e ↦ rw (All, replication_subscribe_loop, e) (loop-IsWanted n l c, refs-loop n l c t)
  | inr e ↦ rw (All, replication_subscribe_loop, e) (tt, refl)
]
