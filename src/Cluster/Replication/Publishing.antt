-- ===== src/Cluster/Replication/Publishing.antt =====
-- What `Publish` does to the sequence numbers and the buffer.
use Prim.Native.Nat.{◌≤◌}
use go_cluster.Cluster.Disk.Restored.{buffered, last_seq}
use go_cluster.Cluster.Replication.Storing.{store_message_lem}
use go_cluster.Prelude.{
  ◌+◌, ◌^◌, ◌<◌, some, ℕ, zero, suc, Text, ◌==◌, nat_eq, text_is_eq, false, ◌&&◌, List, [], ◌∷◌,
  ◌≡◌, refl, ap, ◌∙◌, ◌≢◌, arith, if◌then◌else◌, length, Bool-cases, inl, inr, ◌⊎◌,
}
use go_cluster.Membership.{MemberInfo}
use go_cluster.Cluster.World.{Setup, Rep, Cluster, waits, not_leader_error}
use go_cluster.Cluster.Leadership.{leads}
use go_cluster.Cluster.Replication.{
  Outcome, Wait, room, cancelled, out_of_fuel, published, failed, gave_up, store_message,
  check_room, await_room, apply_locally, persist, stream, fan_out, deliver, send_out, after_wait,
  publish,
}

pub published-cases : (o : Outcome) → (o ≡ published) ⊎ (o ≢ published)
published-cases published = inl refl
published-cases (failed e) = inr (λ p. cc)
published-cases gave_up = inr (λ p. cc)

module _ (w : Setup) where
  pub rep-leads : (s : Cluster) → (leads w s).1.rep ≡ s.rep
  unfolding leads
  rep-leads s = ground arith

  pub rep-check_room : (topic : Text) (s : Cluster) → (check_room w topic s).1.rep ≡ s.rep
  unfolding check_room
  rep-check_room topic s = ground arith

  pub length-check_room :
      (topic : Text) (s : Cluster) → length s.calls ≤ length (check_room w topic s).1.calls
  unfolding check_room
  length-check_room topic s = ground arith

  rep-await_room : (f : ℕ) (topic : Text) (s : Cluster) → (await_room w f topic s).1.rep ≡ s.rep
  unfolding await_room
  rep-await_room zero topic s = refl
  rep-await_room (suc f) topic s =
      let t : Cluster = (check_room w topic s).1 in
      let u : Cluster = record t { calls = waits ∷ t.calls } in
      ground (arith, rep-check_room topic s, rep-await_room f topic u)

  rep-fan_out :
      (topic body : Text) (ms : List MemberInfo) (s : Cluster)
      → (fan_out w topic body ms s).1.rep ≡ s.rep
  unfolding fan_out
  rep-fan_out topic body [] s = refl
  rep-fan_out topic body (m ∷ ms) s = elim (Bool-cases (m.id == w.opts.node_id)) [
    | inl own ↦ rw (own, fan_out) (rep-fan_out topic body ms s)
    | inr other ↦ rw (other, fan_out) (rep-fan_out topic body ms _)
  ]

  rep-apply_locally :
      (topic body : Text) (s : Cluster) → (apply_locally w topic body s).1.rep ≡ s.rep
  unfolding apply_locally
  rep-apply_locally topic body s = ground arith

  rep-persist : (topic body : Text) (n : ℕ) (s : Cluster) → (persist w topic body n s).1.rep ≡ s.rep
  unfolding persist
  rep-persist topic body n s = ground arith

  rep-stream : (topic body : Text) (n : ℕ) (s : Cluster) → (stream w topic body n s).1.rep ≡ s.rep
  unfolding stream
  rep-stream topic body n s = ground arith

  deliver_lem :
      (topic body : Text) (n : ℕ) (s : Cluster)
      → ((deliver w topic body n s).0 ≡ published) × ((deliver w topic body n s).1.rep ≡ s.rep)
  unfolding deliver
  deliver_lem topic body (suc n) s = (refl, refl)
  deliver_lem topic body zero s = elim (Bool-cases (w.opts.has_client && w.opts.has_membership)) [
    | inl both ↦ rw (both, deliver) (refl, rep-fan_out topic body _ _)
    | inr not_both ↦ rw (not_both, deliver) (refl, refl)
  ]

  pub send_out_lem :
      (topic body : Text) (s : Cluster)
      → ((send_out w topic body s).0 ≡ published)
        × ((send_out w topic body s).1.rep ≡ (store_message topic body s.rep).1)
  unfolding send_out
  send_out_lem topic body s = (
    (deliver_lem topic body _ _).0,
    (deliver_lem topic body _ _).1
        ∙ rep-stream topic body _ _
        ∙ rep-persist topic body _ _
        ∙ ap (λ (r : Rep). (store_message topic body r).1) (rep-apply_locally topic body s),
  )

  after_wait_lem :
      (topic body : Text) (r : Wait) (t : Cluster) (old : Rep)
      → t.rep ≡ old
      → ((after_wait w topic body r t).0 ≡ published
          → (after_wait w topic body r t).1.rep ≡ (store_message topic body old).1)
        × ((after_wait w topic body r t).0 ≢ published → (after_wait w topic body r t).1.rep ≡ old)
  after_wait_lem topic body room t old e = (
    λ _. (send_out_lem topic body t).1 ∙ ap (λ (r : Rep). (store_message topic body r).1) e,
    λ p. absurd (p (send_out_lem topic body t).0),
  )
  after_wait_lem topic body (cancelled msg) t old e = (λ p. cc, λ _. e)
  after_wait_lem topic body out_of_fuel t old e = (λ p. cc, λ _. e)

  pub publish_cases :
      (fuel : ℕ) (topic body : Text) (s : Cluster)
      → ((leads w s).0 ≡ false → (publish w fuel topic body s).0 ≡ failed not_leader_error)
        × ((publish w fuel topic body s).0 ≡ published
            → (publish w fuel topic body s).1.rep ≡ (store_message topic body s.rep).1)
        × ((publish w fuel topic body s).0 ≢ published
            → (publish w fuel topic body s).1.rep ≡ s.rep)
  unfolding publish
  publish_cases fuel topic body s = elim (Bool-cases (leads w s).0) [
    | inr follows ↦ rw (follows, publish) (λ _. refl, λ p. cc, λ _. rep-leads s)
    | inl led ↦
        let t : Cluster = (leads w s).1 in
        let done =
          after_wait_lem topic body (await_room w fuel topic t).0 (await_room w fuel topic t).1
            s.rep (rep-await_room fuel topic t ∙ rep-leads s) in
        rw (led, publish) (λ p. cc, done.0, done.1)
  ]

  -- Below the last uint64 of the topic. Where `Publish` returns nil, the topic's number is one more,
  -- the body stands in the buffer under it, and every other message and number is as before. With an
  -- error, no number and no message changes. A node that does not lead returns ErrNotLeader.
  pub publish_lem :
      (fuel : ℕ) (topic body : Text) (s : Cluster)
      → last_seq topic s.rep + 1 < 2 ^ 64
      → ((publish w fuel topic body s).0 ≡ published
          → ((t : Text) (n : ℕ)
              → buffered t n (publish w fuel topic body s).1.rep ≡ (
                  if topic == t && last_seq topic s.rep + 1 == n
                  then some body
                  else buffered t n s.rep))
            × ((t : Text)
                → last_seq t (publish w fuel topic body s).1.rep
                  ≡ (if topic == t then last_seq topic s.rep + 1 else last_seq t s.rep)))
        × ((publish w fuel topic body s).0 ≢ published
            → (publish w fuel topic body s).1.rep ≡ s.rep)
        × ((leads w s).0 ≡ false → (publish w fuel topic body s).0 ≡ failed not_leader_error)
  publish_lem fuel topic body s small =
      let (follows, stores, keeps) = publish_cases fuel topic body s in
      let (number, message, numbers) = store_message_lem topic body s.rep small in
      (
        λ p. (
          λ t n. ap (λ (r : Rep). buffered t n r) (stores p) ∙ message t n,
          λ t. ap (λ (r : Rep). last_seq t r) (stores p) ∙ numbers t,
        ),
        keeps,
        follows,
      )
