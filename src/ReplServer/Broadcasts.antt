-- ===== src/ReplServer/Broadcasts.antt =====
-- What `BroadcastWithSeq` does: who has the message, who stays subscribed, and the count.
use go_cluster.Prelude.{
  ℕ, Text, nat_eq, text_is_eq, eqb_iff, not, ◌&&◌, Bool, none, some, [], ◌∷◌, ◌≡◌, refl, arith,
  if◌then◌else◌, or_zero, length, contains,
}
use go_cluster.GoMap.{GoMap, lookup, insert, delete, has, lookup-delete}
use go_cluster.ReplServer.{Server, RepMsg, broadcast_loop, broadcast_with_seq}

module _ (sends : ℕ → Bool) where
  lookup-broadcast_loop :
      (sub : ℕ) (l subs : GoMap ℕ Text)
      → lookup sub (broadcast_loop sends l subs).1
        ≡ (if has sub l && not (sends sub) then none else lookup sub subs)
  unfolding lookup broadcast_loop
  lookup-broadcast_loop sub [] subs = refl
  lookup-broadcast_loop sub ((i, n) ∷ l) subs = ground (
    arith,
    eqb_iff i sub,
    lookup-delete i sub subs,
    lookup-broadcast_loop sub l subs,
    lookup-broadcast_loop sub l (delete i subs),
  )

  contains-broadcast_loop :
      (sub : ℕ) (l subs : GoMap ℕ Text)
      → contains sub (broadcast_loop sends l subs).2 ≡ (has sub l && sends sub)
  unfolding lookup broadcast_loop
  contains-broadcast_loop sub [] subs = refl
  contains-broadcast_loop sub ((i, n) ∷ l) subs = ground (
    arith,
    eqb_iff i sub,
    contains-broadcast_loop sub l subs,
    contains-broadcast_loop sub l (delete i subs),
  )

  count-broadcast_loop :
      (l subs : GoMap ℕ Text)
      → (broadcast_loop sends l subs).0 ≡ length (broadcast_loop sends l subs).2
  unfolding broadcast_loop
  count-broadcast_loop [] subs = refl
  count-broadcast_loop ((i, n) ∷ l) subs =
      ground (arith, count-broadcast_loop l subs, count-broadcast_loop l (delete i subs))

  -- A broadcast reaches exactly the subscribers to which the send succeeds and counts them; those
  -- to which it fails are unsubscribed, the others stay; the topic's last sequence number is that
  -- of the message, also when it is lower than before, and the acknowledgements stay.
  pub broadcast_with_seq_lem :
      (msg : RepMsg) (s : Server) (subs : GoMap ℕ Text)
      → s.subs ≡ some subs
      → ((broadcast_with_seq sends msg s).0 ≡ length (broadcast_with_seq sends msg s).2)
        × ((sub : ℕ)
            → contains sub (broadcast_with_seq sends msg s).2 ≡ (has sub subs && sends sub))
        × ((sub : ℕ)
            → lookup sub (or_zero [] (broadcast_with_seq sends msg s).1.subs)
              ≡ (if sends sub then lookup sub subs else none))
        × ((broadcast_with_seq sends msg s).1.seq ≡ insert msg.topic msg.seq s.seq)
        × ((broadcast_with_seq sends msg s).1.ack ≡ s.ack)
  unfolding broadcast_with_seq
  broadcast_with_seq_lem msg s subs h =
      rw (h, broadcast_with_seq)
        (
          count-broadcast_loop subs subs,
          λ sub. contains-broadcast_loop sub subs subs,
          λ sub. ground (arith, lookup-broadcast_loop sub subs subs),
          refl,
          refl,
        )
