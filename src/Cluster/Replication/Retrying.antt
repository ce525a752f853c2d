-- ===== src/Cluster/Replication/Retrying.antt =====
-- One round of the retry loop: which messages leave the buffer, and which are sent again.
use go_cluster.Prelude.{
  ℕ, ◌+◌, ◌^◌, ◌<◌, Text, ◌&&◌, nat_eq, text_is_eq, text_eq_iff, true, none, some, [], ◌∷◌, ◌≡◌,
  refl, ap, ◌∙◌, arith, leb, if◌then◌else◌, or_zero,
}
use go_cluster.GoMap.{GoMap, lookup}
use go_cluster.GoMap.Unique.{IsUnique}
use go_cluster.Cluster.World.{Setup, Rep, Cluster}
use go_cluster.Cluster.Leadership.{leads}
use go_cluster.Cluster.Disk.Restored.{buffered, last_seq, IsCovered}
use go_cluster.Cluster.Replication.{acked_by_server, retry_topic, retry_topics, retry}
use go_cluster.Cluster.Replication.RetryTopic.{sent, holds, retry_topic_lem}

-- No topic is at the last uint64.
abbrev pub IsBelowLimit : GoMap Text ℕ → Type 0
IsBelowLimit m = (topic : Text) → or_zero 0 (lookup topic m) + 1 < 2 ^ 64

-- The messages of a topic in the buffer.
abbrev pub messages : Text → GoMap Text (GoMap ℕ Text) → GoMap ℕ Text
messages topic buf = or_zero [] (lookup topic buf)

module _ (w : Setup) where
  retry_topics_lem :
      (acked : GoMap Text ℕ) (t x : Text) (n : ℕ) (buf : GoMap Text (GoMap ℕ Text)) (s : Cluster)
      → IsUnique buf
      → IsBelowLimit s.rep.seq
      → IsBelowLimit acked
      → (lookup n (messages t (retry_topics w acked buf s).0)
          ≡ (if leb n (or_zero 0 (lookup t acked)) then none else lookup n (messages t buf)))
        × ((retry_topics w acked buf s).1.rep ≡ s.rep)
        × (sent t n x (retry_topics w acked buf s).1.calls
            ≡ (if w.opts.server_broadcasts
                  && leb n (last_seq t s.rep)
                  && holds x (lookup n (messages t (retry_topics w acked buf s).0))
                then 1
                else 0)
              + sent t n x s.calls)
  unfolding retry_topics lookup
  retry_topics_lem acked t x n [] s u small ack_small = (ground arith, refl, ground arith)
  retry_topics_lem acked t x n ((topic, seqs) ∷ buf) s (fresh, u) small ack_small =
      let s1 : Cluster = (retry_topic w acked topic seqs s).1 in
      let (l1, r1, c1) =
        retry_topic_lem w acked topic t x n seqs s (small topic) (ack_small topic) in
      let small1 : IsBelowLimit s1.rep.seq = rw r1 small in
      let (l2, r2, c2) = retry_topics_lem acked t x n buf s1 u small1 ack_small in
      let same : last_seq t s1.rep ≡ last_seq t s.rep = ap (λ (r : Rep). last_seq t r) r1 in
      (ground (arith, text_eq_iff topic t), r2 ∙ r1, ground (arith, text_eq_iff topic t))

  leads-frame :
      (t x : Text) (n : ℕ) (s : Cluster)
      → ((leads w s).1.rep ≡ s.rep) × (sent t n x (leads w s).1.calls ≡ sent t n x s.calls)
  unfolding leads
  leads-frame t x n s = ground arith

  acked_by_server-frame :
      (t x : Text) (n : ℕ) (s : Cluster)
      → ((acked_by_server w s).1.rep ≡ s.rep)
        × (sent t n x (acked_by_server w s).1.calls ≡ sent t n x s.calls)
  unfolding acked_by_server
  acked_by_server-frame t x n s = ground arith

  -- The acknowledgements that a round reads.
  abbrev pub acks_seen : Cluster → GoMap Text ℕ
  acks_seen s = (acked_by_server w (leads w s).1).0

  -- A round on the leader, where the buffer is a map and no sequence number or acknowledgement is
  -- the last uint64: in every topic the acknowledged messages leave the buffer and all others stay;
  -- the sequence numbers do not change; and a server that can broadcast sends the body `x` under
  -- the number `n` exactly once if that is the message that stays there, up to the topic's last
  -- number, and never otherwise. A server that cannot broadcast sends nothing.
  pub retry_lem :
      (t x : Text) (n : ℕ) (s : Cluster)
      → (leads w s).0 ≡ true
      → IsUnique s.rep.buf
      → IsBelowLimit s.rep.seq
      → IsBelowLimit (acks_seen s)
      → (buffered t n (retry w s).1.rep
          ≡ (if leb n (or_zero 0 (lookup t (acks_seen s))) then none else buffered t n s.rep))
        × ((retry w s).1.rep.seq ≡ s.rep.seq)
        × (sent t n x (retry w s).1.calls
            ≡ (if w.opts.server_broadcasts
                  && leb n (last_seq t s.rep)
                  && holds x (buffered t n (retry w s).1.rep)
                then 1
                else 0)
              + sent t n x s.calls)
  unfolding retry
  retry_lem t x n s led u small ack_small =
      let s1 : Cluster = (leads w s).1 in
      let s2 : Cluster = (acked_by_server w s1).1 in
      let (r1, c1) = leads-frame t x n s in
      let (r2, c2) = acked_by_server-frame t x n s1 in
      let same : s2.rep ≡ s.rep = r2 ∙ r1 in
      let u2 : IsUnique s2.rep.buf = rw same u in
      let small2 : IsBelowLimit s2.rep.seq = rw same small in
      let (l3, r3, c3) = retry_topics_lem (acks_seen s) t x n s2.rep.buf s2 u2 small2 ack_small in
      let old : buffered t n s2.rep ≡ buffered t n s.rep = ap (λ (r : Rep). buffered t n r) same in
      let last : last_seq t s2.rep ≡ last_seq t s.rep = ap (λ (r : Rep). last_seq t r) same in
      rw (led, retry) (ground arith, ap (λ (r : Rep). r.seq) (r3 ∙ same), ground arith)

  -- A round on a leader whose server can broadcast, where the buffer is a map with no message beyond
  -- the last number of its topic and no sequence number or acknowledgement is the last uint64: a
  -- message that no acknowledgement covers is still in the buffer, and was sent exactly once.
  pub retry_resends :
      (t : Text) (n : ℕ) (body : Text) (s : Cluster)
      → (leads w s).0 ≡ true
      → w.opts.server_broadcasts ≡ true
      → IsUnique s.rep.buf
      → IsCovered s.rep
      → IsBelowLimit s.rep.seq
      → IsBelowLimit (acks_seen s)
      → buffered t n s.rep ≡ some body
      → or_zero 0 (lookup t (acks_seen s)) < n
      → (buffered t n (retry w s).1.rep ≡ some body)
        × (sent t n body (retry w s).1.calls ≡ 1 + sent t n body s.calls)
  retry_resends t n body s led can u covered small ack_small found above =
      let (l, q, c) = retry_lem t body n s led u small ack_small in
      ground (arith, text_eq_iff body body, covered.at t n body found)
