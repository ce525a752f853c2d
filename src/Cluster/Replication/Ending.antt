-- ===== src/Cluster/Replication/Ending.antt =====
-- `Publish` returns when its context ends.
use Prim.Native.Nat.{◌≤◌}
use go_cluster.Prelude.{
  ℕ, zero, suc, ◌+◌, ◌<◌, Text, nat_eq, text_is_eq, true, ◌∷◌, ◌≡◌, refl, ◌≢◌, arith, ltb, length,
  is_some, Bool-cases, Option-cases, inl, inr,
}
use go_cluster.Cluster.World.{Setup, Cluster, History, M, ◌>>=◌, ask, waits}
use go_cluster.Cluster.Leadership.{leads}
use go_cluster.Cluster.Replication.{
  Wait, wait_more, room, cancelled, out_of_fuel, gave_up, check_room, await_room, after_wait,
  publish,
}
use go_cluster.Cluster.Replication.Publishing.{send_out_lem, length-check_room}

module _ (w : Setup) where
  after_room :
      (topic body : Text) (r : Wait) (t : Cluster)
      → r ≢ out_of_fuel
      → (after_wait w topic body r t).0 ≢ gave_up
  after_room topic body room t ne p = cc (send_out_lem w topic body t).0
  after_room topic body (cancelled e) t ne p = cc
  after_room topic body out_of_fuel t ne p = ne refl

  -- One more round of the wait, after a test that failed in the state `t`.
  again_ends :
      (k : ℕ) (t : Cluster) (rest : M Wait)
      → ((h : History) → k ≤ length h → is_some (w.env.cancelled h) ≡ true)
      → (length (waits ∷ t.calls) < k
          → (rest (record t { calls = waits ∷ t.calls })).0 ≢ out_of_fuel)
      → ((do c ← ask waits w.env.cancelled; wait_more w rest c) t).0 ≢ out_of_fuel
  again_ends k t rest stops more = elim (Option-cases (w.env.cancelled (waits ∷ t.calls))) [
    | inr (e, done) ↦ rw done (λ p. cc)
    | inl on ↦ rw on (
        more (elim (Bool-cases (ltb (length (waits ∷ t.calls)) k)) [
          | inl lt ↦ ground arith
          | inr ge ↦ absurd (ground (arith, stops (waits ∷ t.calls)))
        ]))
  ]

  -- The state after a wait.
  abbrev waited : Text → Cluster → Cluster
  waited topic s = record (check_room w topic s).1 {
    calls = waits ∷ (check_room w topic s).1.calls;
  }

  round_ends :
      (k f : ℕ) (topic : Text) (s : Cluster)
      → ((h : History) → k ≤ length h → is_some (w.env.cancelled h) ≡ true)
      → (length (waited topic s).calls < k
          → (await_room w f topic (waited topic s)).0 ≢ out_of_fuel)
      → (await_room w (suc f) topic s).0 ≢ out_of_fuel
  unfolding await_room
  round_ends k f topic s stops rest = elim (Bool-cases (check_room w topic s).0) [
    | inl has ↦ rw (has, await_room) (λ p. cc)
    | inr full ↦
        rw (full, await_room)
          (again_ends k (check_room w topic s).1 (await_room w f topic) stops rest)
  ]

  await_room_ends :
      (k f : ℕ) (topic : Text) (s : Cluster)
      → ((h : History) → k ≤ length h → is_some (w.env.cancelled h) ≡ true)
      → k < suc f + length s.calls
      → (await_room w (suc f) topic s).0 ≢ out_of_fuel
  await_room_ends k zero topic s stops enough =
      round_ends k zero topic s stops (λ lt. absurd (omega (arith, length-check_room w topic s)))
  await_room_ends k (suc f) topic s stops enough = round_ends k (suc f) topic s stops (λ lt.
      await_room_ends k f topic (waited topic s) stops (omega (arith, length-check_room w topic s)))

  -- With a context that is done at the latest after `k` calls to the components, `Publish`
  -- returns: it has published, or has an error. Fuel for `k + 1` rounds is enough.
  pub publish_ends :
      (k : ℕ) (topic body : Text) (s : Cluster)
      → ((h : History) → k ≤ length h → is_some (w.env.cancelled h) ≡ true)
      → (publish w (suc k) topic body s).0 ≢ gave_up
  unfolding publish
  publish_ends k topic body s stops = elim (Bool-cases (leads w s).0) [
    | inr follows ↦ rw (follows, publish) (λ p. cc)
    | inl led ↦
        rw (led, publish)
          (after_room topic body _ _ (await_room_ends k k topic (leads w s).1 stops (omega arith)))
  ]
