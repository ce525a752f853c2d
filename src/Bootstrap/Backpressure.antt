-- ===== src/Bootstrap/Backpressure.antt =====
-- The window of `Publish` on a node whose management endpoint cannot count acknowledgements.
use go_cluster.Prelude.{
  ℕ, zero, suc, ◌^◌, ◌≤◌, ◌<◌, Text, ◌≡◌, ◌≢◌, refl, ap, ◌∙◌, false, arith, [], ◌∷◌, Bool-cases,
  Option-cases, inl, inr,
}
use go_cluster.Prelude.Int.{ℤ, pos, negsuc, positive_or}
use go_cluster.GoMap.{lookup}
use go_cluster.Cluster.World.{Setup, Options, Rep, Cluster, waits}
use go_cluster.Cluster.Disk.Restored.{last_seq}
use go_cluster.Cluster.Leadership.{leads}
use go_cluster.Cluster.Replication.{
  has_room, Wait, room, cancelled, out_of_fuel, published, acked_by_server, check_room, await_room,
  after_wait, publish,
}
use go_cluster.Cluster.Replication.Publishing.{rep-check_room, rep-leads}
use go_cluster.Bootstrap.{Config, is_grpc, cluster_options}

has_room-full :
    (window : ℤ) (cur : ℕ)
    → positive_or 1024 window ≤ cur
    → cur < 2 ^ 63
    → has_room window cur 0 ≡ false
unfolding has_room
has_room-full (pos zero) cur full small = ground arith
has_room-full (pos (suc n)) cur full small = ground arith
has_room-full (negsuc n) cur full small = ground arith

module _ (w : Setup) where
  acked_by_server-none : (s : Cluster) → w.opts.server_acks ≡ false → acked_by_server w s ≡ ([], s)
  unfolding acked_by_server
  acked_by_server-none s e = simp (acked_by_server, e)

  check_room-full :
      (topic : Text) (s : Cluster)
      → w.opts.server_acks ≡ false
      → positive_or 1024 w.opts.repl_window ≤ last_seq topic s.rep
      → last_seq topic s.rep < 2 ^ 63
      → (check_room w topic s).0 ≡ false
  unfolding check_room lookup
  check_room-full topic s no_acks full small =
      rw (check_room, acked_by_server-none s no_acks)
        (has_room-full w.opts.repl_window (last_seq topic s.rep) full small)

  abbrev IsFull : Text → Cluster → Type 0
  IsFull topic s =
      (positive_or 1024 w.opts.repl_window ≤ last_seq topic s.rep) × (last_seq topic s.rep < 2 ^ 63)

  await_room-full :
      (f : ℕ) (topic : Text) (s : Cluster)
      → w.opts.server_acks ≡ false
      → IsFull topic s
      → (await_room w f topic s).0 ≢ room
  unfolding await_room
  await_room-full zero topic s no_acks full = λ p. cc
  await_room-full (suc f) topic s no_acks (full, small) =
      let t : Cluster = (check_room w topic s).1 in
      let u : Cluster = record t { calls = waits ∷ t.calls } in
      let same : last_seq topic u.rep ≡ last_seq topic s.rep =
        ap (λ (r : Rep). last_seq topic r) (rep-check_room w topic s) in
      let later = await_room-full f topic u no_acks (omega (arith, same), omega (arith, same)) in
      elim (Option-cases (w.env.cancelled u.calls)) [
        | inl e ↦ rw (check_room-full topic s no_acks full small, await_room, e) later
        | inr (x, e) ↦ rw (check_room-full topic s no_acks full small, await_room, e) (λ p. cc)
      ]

  after_wait-stuck :
      (topic body : Text) (r : Wait) (s : Cluster)
      → r ≢ room
      → (after_wait w topic body r s).0 ≢ published
  after_wait-stuck topic body room s h = absurd (h refl)
  after_wait-stuck topic body (cancelled e) s h = λ p. cc
  after_wait-stuck topic body out_of_fuel s h = λ p. cc

  publish-full :
      (fuel : ℕ) (topic body : Text) (s : Cluster)
      → w.opts.server_acks ≡ false
      → IsFull topic s
      → (publish w fuel topic body s).0 ≢ published
  unfolding publish
  publish-full fuel topic body s no_acks (full, small) = elim (Bool-cases (leads w s).0) [
    | inr follows ↦ rw (publish, follows) (λ p. cc)
    | inl led ↦
        let t : Cluster = (leads w s).1 in
        let same : last_seq topic t.rep ≡ last_seq topic s.rep =
          ap (λ (r : Rep). last_seq topic r) (rep-leads w s) in
        rw (publish, led)
          (after_wait-stuck topic body (await_room w fuel topic t).0 (await_room w fuel topic t).1
            (await_room-full fuel topic t no_acks (omega (arith, same), omega (arith, same))))
  ]

-- On a node that `Build` assembles with another management protocol than gRPC, which is the default,
-- `Publish` never succeeds again for a topic once its sequence number has reached the window, 1024
-- unless it is set to something positive: it fails, or waits until its context ends, whatever the
-- other nodes have received. The number is below 2^63.
pub publish-window :
    (w : Setup) (cfg : Config) (fuel : ℕ) (topic body : Text) (s : Cluster)
    → w.opts ≡ cluster_options cfg
    → is_grpc cfg ≡ false
    → positive_or 1024 cfg.repl_window ≤ last_seq topic s.rep
    → last_seq topic s.rep < 2 ^ 63
    → (publish w fuel topic body s).0 ≢ published
unfolding cluster_options
publish-window w cfg fuel topic body s same other full small =
    publish-full w fuel topic body s (ap (λ (o : Options). o.server_acks) same ∙ other)
      (rw (ap (λ (o : Options). o.repl_window) same) full, small)
