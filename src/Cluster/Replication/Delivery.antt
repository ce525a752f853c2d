-- ===== src/Cluster/Replication/Delivery.antt =====
-- The retry loop together with the acknowledgements of the gRPC server.
use go_cluster.Prelude.{
  ℕ, ◌≤◌, ◌<◌, Text, nat_eq, text_is_eq, ◌≡◌, ◌≢◌, refl, ap, sym, subst, ◌∙◌, ◌∷◌, true, Option,
  none, some, [], arith, if◌then◌else◌, leb, or_zero, Bool-cases, inl, inr,
}
use go_cluster.GoMap.{GoMap, lookup}
use go_cluster.GoMap.Unique.{IsUnique}
use go_cluster.Cluster.World.{Setup, Cluster, asks_acked}
use go_cluster.Cluster.Leadership.{leads}
use go_cluster.Cluster.Disk.Restored.{buffered}
use go_cluster.Cluster.Replication.{acked_by_server, retry}
use go_cluster.Cluster.Replication.Retrying.{IsBelowLimit, acks_seen, retry_lem}
use go_cluster.ReplServer.{Server, min_ack, acked_all}
use go_cluster.ReplServer.Acks.{acked_by, min_ack-le, lookup-acked_all, min_ack_attained}

-- A message that does not stay is covered by the acknowledgements.
covered_by :
    (t : Text) (n : ℕ) (acked : GoMap Text ℕ) (old left : Option Text)
    → left ≡ (if leb n (or_zero 0 (lookup t acked)) then none else old)
    → left ≢ old
    → n ≤ or_zero 0 (lookup t acked)
covered_by t n acked old left e gone = elim (Bool-cases (leb n (or_zero 0 (lookup t acked)))) [
  | inl f ↦ ground (arith, f)
  | inr f ↦ absurd (gone (e ∙ rw f refl))
]

module _ (w : Setup) (srv : Server) where
  -- The cluster's server is the gRPC server in the state `srv` when the round asks it.
  abbrev pub IsServer : Cluster → Type 0
  IsServer s =
      (w.opts.server_acks ≡ true)
      × (w.env.acked (asks_acked ∷ (leads w s).1.calls) ≡ some (acked_all srv))

  acked_by_server-answer :
      (u : Cluster)
      → w.opts.server_acks ≡ true
      → (acked_by_server w u).0 ≡ or_zero [] (w.env.acked (asks_acked ∷ u.calls))
  unfolding acked_by_server
  acked_by_server-answer u on = simp (acked_by_server, on)

  acks_seen-acked_all : (s : Cluster) → IsServer s → acks_seen w s ≡ acked_all srv
  acks_seen-acked_all s (on, e) = acked_by_server-answer (leads w s).1 on ∙ ap (or_zero []) e

  acked_all-le :
      (t : Text) (n : ℕ) → 0 < n → n ≤ or_zero 0 (lookup t (acked_all srv)) → n ≤ min_ack t srv
  acked_all-le t n above h = ground (arith, lookup-acked_all t srv, h, above)

  -- A message, numbered from one, that a round on the leader removes has been acknowledged by a node,
  -- and every node that the server knows for its topic has acknowledged at least its number; all other
  -- messages stay. The buffer and the acknowledgements of a topic are maps, and no sequence number or acknowledgement is the last uint64.
  pub retry-acked_by :
      (t : Text) (n : ℕ) (s : Cluster)
      → (leads w s).0 ≡ true
      → IsServer s
      → IsUnique s.rep.buf
      → IsBelowLimit s.rep.seq
      → IsBelowLimit (acked_all srv)
      → IsUnique (or_zero [] (lookup t srv.ack))
      → 0 < n
      → buffered t n (retry w s).1.rep ≢ buffered t n s.rep
      → ((node : Text) × (v : ℕ) × (acked_by t node srv ≡ some v) × (n ≤ v))
        × ((node : Text) (v : ℕ) → acked_by t node srv ≡ some v → n ≤ v)
  retry-acked_by t n s led is u small ack_small v above gone =
      let seen = acks_seen-acked_all s is in
      let small' : IsBelowLimit (acks_seen w s) = subst IsBelowLimit (sym seen) ack_small in
      let kept = (retry_lem w t [] n s led u small small').0 in
      let covered = covered_by t n (acks_seen w s) (buffered t n s.rep) _ kept gone in
      let low = acked_all-le t n above (subst (λ m. n ≤ or_zero 0 (lookup t m)) seen covered) in
      let (node, e) = min_ack_attained t srv v (omega (arith, low, above)) in
      ((node, min_ack t srv, e, low), (λ other q f. omega (arith, low, min_ack-le t other q srv f)))
