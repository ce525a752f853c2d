-- ===== src/ReplServer/Streams.antt =====
-- The subscribers of the server and the handlers of their streams, in any order.
use go_cluster.Prelude.{
  ℕ, Text, nat_eq, text_is_eq, Bool, true, false, Option, none, some, List, [], ◌∷◌, ◌==◌, ◌≡◌,
  refl, ap, sym, ◌∙◌, arith, or_zero, if◌then◌else◌, Option-cases, inl, inr,
}
use go_cluster.GoMap.{GoMap, lookup, insert, delete, has, lookup-insert, lookup-delete}
use go_cluster.ReplServer.Broadcasts.{broadcast_with_seq_lem}
use go_cluster.ReplServer.{
  RepMsg, RepAck, Server, start, stop, add_sub, remove_sub, ack, broadcast_with_seq,
}

-- The server, and the streams whose handler has not returned.
pub record System : Type 0 where
  pub server : Server
  pub open_streams : GoMap ℕ (Unit {0})

-- A stream is known by the address of its `repSub`. `enters` is `Subscribe` up to the wait for the
-- client, with the error of `RecvMsg` if there is one, and `leaves` its deferred `removeSub`.
pub data Action : Type 0 where
  starts stops : Action
  enters : ℕ → Option Text → Text → Action
  leaves : ℕ → Action
  broadcasts : (ℕ → Bool) → RepMsg → Action
  acknowledges : Option RepAck → Action

unfoldable pub step : Action → System → System
step starts s = record s { server = start s.server }
step stops s = record s { server = stop s.server }
step (enters sub (some e) node_id) s = s
step (enters sub none node_id) s = record {
  server = add_sub sub node_id s.server;
  open_streams = insert sub tt s.open_streams;
}
step (leaves sub) s = record {
  server = remove_sub sub s.server;
  open_streams = delete sub s.open_streams;
}
step (broadcasts sends msg) s = record s { server = (broadcast_with_seq sends msg s.server).1 }
step (acknowledges a) s = record s { server = ack a s.server }

unfoldable pub run : List Action → System → System
run [] s = s
run (a ∷ l) s = run l (step a s)

abbrev pub subscribed : ℕ → Server → Bool
subscribed sub s = has sub (or_zero [] s.subs)

-- Every subscriber has a handler that has not returned, so that messages are sent on live streams.
pub record IsLive (s : System) : Type 0 where
  pub at : (sub : ℕ) → subscribed sub s.server ≡ true → has sub s.open_streams ≡ true

subscribed-remove_sub :
    (sub j : ℕ) (s : Server)
    → subscribed j (remove_sub sub s) ≡ (if sub == j then false else subscribed j s)
unfolding remove_sub lookup
subscribed-remove_sub sub j s = elim (Option-cases s.subs) [
  | inl e ↦ rw (e, remove_sub) (ground arith)
  | inr (subs, e) ↦ rw (e, remove_sub) (ground (arith, lookup-delete sub j subs))
]

subscribed-broadcast :
    (sends : ℕ → Bool) (msg : RepMsg) (j : ℕ) (s : Server)
    → subscribed j (broadcast_with_seq sends msg s).1 ≡ true
    → subscribed j s ≡ true
unfolding broadcast_with_seq
subscribed-broadcast sends msg j s h = elim (Option-cases s.subs) [
  | inl e ↦ ap (λ l. has j (or_zero [] l)) (sym (unchanged e)) ∙ h
  | inr (subs, e) ↦ ground (arith, h, (broadcast_with_seq_lem sends msg s subs e).2 j)
]
  where
    unchanged : s.subs ≡ none → (broadcast_with_seq sends msg s).1.subs ≡ s.subs
    unchanged e = rw (e, broadcast_with_seq) e

subs-ack : (a : Option RepAck) (s : Server) → (ack a s).subs ≡ s.subs
unfolding ack
subs-ack none s = refl
subs-ack (some a) s = ground arith

step-IsLive : (a : Action) (s : System) → IsLive s → IsLive (step a s)
unfolding step start stop add_sub lookup
step-IsLive starts s h = record { at = λ sub e. ground arith }
step-IsLive stops s h = record { at = λ sub e. h.at sub e }
step-IsLive (enters sub (some x) node_id) s h = h
step-IsLive (enters sub none node_id) s h = record {
  at = λ j e. ground (
    arith,
    h.at j,
    lookup-insert sub j tt s.open_streams,
    lookup-insert sub j node_id (or_zero [] s.server.subs),
  );
}
step-IsLive (leaves sub) s h = record {
  at = λ j e.
      ground
        (arith, h.at j, subscribed-remove_sub sub j s.server, lookup-delete sub j s.open_streams);
}
step-IsLive (broadcasts sends msg) s h = record {
  at = λ j e. h.at j (subscribed-broadcast sends msg j s.server e);
}
step-IsLive (acknowledges a) s h = record {
  at = λ j e. h.at j (ap (λ l. has j (or_zero [] l)) (sym (subs-ack a s.server)) ∙ e);
}

-- However starts, stops, streams that come and go, broadcasts and acknowledgements interleave, every
-- subscriber is a stream whose handler has not returned.
pub run-IsLive : (l : List Action) (s : System) → IsLive s → IsLive (run l s)
unfolding run
run-IsLive [] s h = h
run-IsLive (a ∷ l) s h = run-IsLive l (step a s) (step-IsLive a s h)
