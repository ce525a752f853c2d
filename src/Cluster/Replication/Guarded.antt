-- ===== src/Cluster/Replication/Guarded.antt =====
-- Publication and retry change neither the replicated log nor the Raft configuration.
use go_cluster.Prelude.{
  ℕ, zero, suc, ◌+◌, ◌-◌, Text, ◌==◌, text_is_eq, nat_eq, leb, ◌&&◌, Option, none, some, List, [],
  ◌∷◌, refl, arith, if◌then◌else◌, or_zero,
}
use go_cluster.Prelude.Int.{inc_u64}
use go_cluster.GoMap.{GoMap, lookup}
use go_cluster.Membership.{MemberInfo}
use go_cluster.Cluster.World.{
  Setup, M, ◌>>=◌, ◌>>◌, pure, ask, waits, posts_app_sync, not_leader_error,
}
use go_cluster.Cluster.Leadership.{leads, members, mgmt_addr}
use go_cluster.Cluster.Leadership.Guarded.{
  KeepsGuarded, KeepsGuarded-pure, KeepsGuarded-ask, KeepsGuarded-same, KeepsGuarded-bind,
  KeepsGuarded-if, leads-KeepsGuarded, members-KeepsGuarded,
}
use go_cluster.Cluster.Replication.{
  Wait, room, cancelled, out_of_fuel, published, failed, gave_up, acked_by_server, check_room,
  wait_more, await_room, fan_out, persist, apply_locally, stream, deliver, assign, send_out,
  after_wait, publish, forget_file, cleanup, resend_one, resend, retry_topic, retry_topics, retry,
  get_buf, set_buf, current_seq,
}

module _ (w : Setup) where
  check_room-KeepsGuarded : (topic : Text) → KeepsGuarded w.env (check_room w topic)
  unfolding check_room
  check_room-KeepsGuarded topic = record { at = λ s h. ground arith }

  wait_more-KeepsGuarded :
      (again : M Wait) (o : Option Text)
      → KeepsGuarded w.env again
      → KeepsGuarded w.env (wait_more w again o)
  wait_more-KeepsGuarded again none k = k
  wait_more-KeepsGuarded again (some e) k = KeepsGuarded-pure w.env (cancelled e)

  await_room-KeepsGuarded : (f : ℕ) (topic : Text) → KeepsGuarded w.env (await_room w f topic)
  unfolding await_room
  await_room-KeepsGuarded zero topic = KeepsGuarded-pure w.env out_of_fuel
  await_room-KeepsGuarded (suc f) topic =
      KeepsGuarded-bind w.env (check_room w topic) _ (check_room-KeepsGuarded topic) λ enough.
        KeepsGuarded-if w.env enough (pure room)
          (do c ← ask waits w.env.cancelled; wait_more w (await_room w f topic) c)
          (KeepsGuarded-pure w.env room)
          (KeepsGuarded-bind w.env (ask waits w.env.cancelled) _
            (KeepsGuarded-ask w.env waits w.env.cancelled refl)
            λ c. wait_more-KeepsGuarded _ c (await_room-KeepsGuarded f topic))

  fan_out_one :
      (topic body : Text) (m : MemberInfo)
      → KeepsGuarded w.env (
          if m.id == w.opts.node_id then pure (tt {0}) else (do
            ask (posts_app_sync (mgmt_addr m) (record { topic = topic; body = body })) (λ h. tt {0})
            pure tt))
  fan_out_one topic body m = record { at = λ s h. ground arith }

  fan_out-KeepsGuarded :
      (topic body : Text) (ms : List MemberInfo) → KeepsGuarded w.env (fan_out w topic body ms)
  unfolding fan_out
  fan_out-KeepsGuarded topic body [] = KeepsGuarded-pure w.env tt
  fan_out-KeepsGuarded topic body (m ∷ ms) =
      KeepsGuarded-bind w.env _ (λ _. fan_out w topic body ms) (fan_out_one topic body m)
        λ _. fan_out-KeepsGuarded topic body ms

  deliver-KeepsGuarded : (topic body : Text) (n : ℕ) → KeepsGuarded w.env (deliver w topic body n)
  unfolding deliver
  deliver-KeepsGuarded topic body (suc n) = KeepsGuarded-pure w.env published
  deliver-KeepsGuarded topic body zero =
      KeepsGuarded-if w.env (w.opts.has_client && w.opts.has_membership)
        (do ms ← members w; fan_out w topic body ms; pure published) (pure published)
        (KeepsGuarded-bind w.env (members w) _ (members-KeepsGuarded w) λ ms.
          KeepsGuarded-bind w.env (fan_out w topic body ms) _ (fan_out-KeepsGuarded topic body ms)
            λ _. KeepsGuarded-pure w.env published)
        (KeepsGuarded-pure w.env published)

  apply_locally-KeepsGuarded : (topic body : Text) → KeepsGuarded w.env (apply_locally w topic body)
  unfolding apply_locally
  apply_locally-KeepsGuarded topic body = record { at = λ s h. ground arith }

  persist-KeepsGuarded : (topic body : Text) (n : ℕ) → KeepsGuarded w.env (persist w topic body n)
  unfolding persist
  persist-KeepsGuarded topic body n = record { at = λ s h. ground arith }

  stream-KeepsGuarded : (topic body : Text) (n : ℕ) → KeepsGuarded w.env (stream w topic body n)
  unfolding stream
  stream-KeepsGuarded topic body n = record { at = λ s h. ground arith }

  send_out-KeepsGuarded : (topic body : Text) → KeepsGuarded w.env (send_out w topic body)
  unfolding send_out
  send_out-KeepsGuarded topic body =
      KeepsGuarded-bind w.env (apply_locally w topic body) _ (apply_locally-KeepsGuarded topic body)
        λ _.
          KeepsGuarded-bind w.env (assign w topic body) _
            (KeepsGuarded-same w.env (assign w topic body) (λ s. refl))
            λ n.
              KeepsGuarded-bind w.env (persist w topic body n) _ (persist-KeepsGuarded topic body n)
                λ _.
                  KeepsGuarded-bind w.env (stream w topic body n) _
                    (stream-KeepsGuarded topic body n) (deliver-KeepsGuarded topic body)

  after_wait-KeepsGuarded :
      (topic body : Text) (r : Wait) → KeepsGuarded w.env (after_wait w topic body r)
  after_wait-KeepsGuarded topic body room = send_out-KeepsGuarded topic body
  after_wait-KeepsGuarded topic body (cancelled e) = KeepsGuarded-pure w.env (failed e)
  after_wait-KeepsGuarded topic body out_of_fuel = KeepsGuarded-pure w.env gave_up

  pub publish-KeepsGuarded :
      (fuel : ℕ) (topic body : Text) → KeepsGuarded w.env (publish w fuel topic body)
  unfolding publish
  publish-KeepsGuarded fuel topic body =
      KeepsGuarded-bind w.env (leads w) _ (leads-KeepsGuarded w) λ lead.
        KeepsGuarded-if w.env lead (do r ← await_room w fuel topic; after_wait w topic body r)
          (pure (failed not_leader_error))
          (KeepsGuarded-bind w.env (await_room w fuel topic) _ (await_room-KeepsGuarded fuel topic)
            (after_wait-KeepsGuarded topic body))
          (KeepsGuarded-pure w.env (failed not_leader_error))

  forget_file-KeepsGuarded : (topic : Text) (n : ℕ) → KeepsGuarded w.env (forget_file w topic n)
  unfolding forget_file
  forget_file-KeepsGuarded topic n = record { at = λ s h. ground arith }

  cleanup-KeepsGuarded :
      (topic : Text) (a : ℕ) (seqs : GoMap ℕ Text) → KeepsGuarded w.env (cleanup w topic a seqs)
  unfolding cleanup
  cleanup-KeepsGuarded topic a [] = KeepsGuarded-pure w.env []
  cleanup-KeepsGuarded topic a ((n, body) ∷ seqs) =
      KeepsGuarded-if w.env (leb n a) (do forget_file w topic n; cleanup w topic a seqs)
        (do rest ← cleanup w topic a seqs; pure ((n, body) ∷ rest))
        (KeepsGuarded-bind w.env (forget_file w topic n) _ (forget_file-KeepsGuarded topic n)
          λ _. cleanup-KeepsGuarded topic a seqs)
        (KeepsGuarded-bind w.env (cleanup w topic a seqs) _ (cleanup-KeepsGuarded topic a seqs)
          λ rest. KeepsGuarded-pure w.env ((n, body) ∷ rest))

  resend_one-KeepsGuarded :
      (topic : Text) (n : ℕ) (o : Option Text) → KeepsGuarded w.env (resend_one w topic n o)
  resend_one-KeepsGuarded topic n none = KeepsGuarded-pure w.env tt
  resend_one-KeepsGuarded topic n (some body) = record { at = λ s h. ground arith }

  resend-KeepsGuarded :
      (f n max : ℕ) (topic : Text) (seqs : GoMap ℕ Text)
      → KeepsGuarded w.env (resend w f n max topic seqs)
  unfolding resend
  resend-KeepsGuarded zero n max topic seqs = KeepsGuarded-pure w.env tt
  resend-KeepsGuarded (suc f) n max topic seqs =
      KeepsGuarded-if w.env (leb n max)
        (do resend_one w topic n (lookup n seqs); resend w f (inc_u64 n) max topic seqs) (pure tt)
        (KeepsGuarded-bind w.env (resend_one w topic n (lookup n seqs)) _
          (resend_one-KeepsGuarded topic n (lookup n seqs))
          λ _. resend-KeepsGuarded f (inc_u64 n) max topic seqs)
        (KeepsGuarded-pure w.env tt)

  retry_topic-KeepsGuarded :
      (acked : GoMap Text ℕ) (topic : Text) (seqs : GoMap ℕ Text)
      → KeepsGuarded w.env (retry_topic w acked topic seqs)
  unfolding retry_topic
  retry_topic-KeepsGuarded acked topic seqs =
      let a = or_zero 0 (lookup topic acked) in
      KeepsGuarded-bind w.env (cleanup w topic a seqs) _ (cleanup-KeepsGuarded topic a seqs) λ left.
        KeepsGuarded-bind w.env (current_seq w topic) _
          (KeepsGuarded-same w.env (current_seq w topic) (λ s. refl))
          λ max.
            KeepsGuarded-bind w.env
              (if w.opts.server_broadcasts
                then resend w (max + 1 - a) (inc_u64 a) max topic left
                else pure tt)
              (λ _. pure left)
              (KeepsGuarded-if w.env w.opts.server_broadcasts _ _
                (resend-KeepsGuarded (max + 1 - a) (inc_u64 a) max topic left)
                (KeepsGuarded-pure w.env tt))
              λ _. KeepsGuarded-pure w.env left

  retry_topics-KeepsGuarded :
      (acked : GoMap Text ℕ) (buf : GoMap Text (GoMap ℕ Text))
      → KeepsGuarded w.env (retry_topics w acked buf)
  unfolding retry_topics
  retry_topics-KeepsGuarded acked [] = KeepsGuarded-pure w.env []
  retry_topics-KeepsGuarded acked ((topic, seqs) ∷ buf) =
      KeepsGuarded-bind w.env (retry_topic w acked topic seqs) _
        (retry_topic-KeepsGuarded acked topic seqs)
        λ left.
          KeepsGuarded-bind w.env (retry_topics w acked buf) _ (retry_topics-KeepsGuarded acked buf)
            λ rest. KeepsGuarded-pure w.env ((topic, left) ∷ rest)

  acked_by_server-KeepsGuarded : KeepsGuarded w.env (acked_by_server w)
  unfolding acked_by_server
  acked_by_server-KeepsGuarded = record { at = λ s h. ground arith }

  pub retry-KeepsGuarded : KeepsGuarded w.env (retry w)
  unfolding retry
  retry-KeepsGuarded = KeepsGuarded-bind w.env (leads w) _ (leads-KeepsGuarded w) λ lead.
      KeepsGuarded-if w.env lead
        (do
          acked ← acked_by_server w
          buf ← get_buf w
          left ← retry_topics w acked buf
          set_buf w left)
        (pure tt)
        (KeepsGuarded-bind w.env (acked_by_server w) _ acked_by_server-KeepsGuarded λ acked.
          KeepsGuarded-bind w.env (get_buf w) _ (KeepsGuarded-same w.env (get_buf w) (λ s. refl))
            λ buf.
              KeepsGuarded-bind w.env (retry_topics w acked buf) _
                (retry_topics-KeepsGuarded acked buf)
                λ left. KeepsGuarded-same w.env (set_buf w left) (λ s. refl))
        (KeepsGuarded-pure w.env tt)
