-- ===== src/Cluster/Replication/Covering.antt =====
-- The buffer over the life of a node: restorations, publications and retry rounds in any order.
use go_cluster.Prelude.{
  ℕ, zero, suc, ◌+◌, ◌^◌, ◌<◌, ◌≤◌, Text, nat_eq, text_is_eq, text_eq_iff, Bool, true, false, none,
  some, List, [], ◌∷◌, ◌≡◌, refl, sym, ◌∙◌, subst, arith, leb, if◌then◌else◌, or_zero, Bool-cases,
  inl, inr,
}
use go_cluster.GoMap.{GoMap, lookup}
use go_cluster.Cluster.World.{Setup, Rep, Cluster, pure}
use go_cluster.Cluster.Leadership.{leads}
use go_cluster.Cluster.Disk.{restore_buffer_from_disk}
use go_cluster.Cluster.Disk.Restored.{last_seq, IsCovered, restore_buffer_from_disk-IsCovered}
use go_cluster.Cluster.Replication.{
  acked_by_server, resend, retry_topic, retry_topics, retry, publish,
}
use go_cluster.Cluster.Replication.Storing.{store_message-IsCovered}
use go_cluster.Cluster.Replication.Publishing.{publish_cases, published-cases, rep-leads}
use go_cluster.Cluster.Replication.RetryTopic.{lookup-cleanup, cleanup-frame, resend_one-frame}
use go_cluster.Cluster.Replication.Retrying.{messages}

-- What changes the buffer: the restoration of a directory, `Publish`, and a retry round.
pub data Change : Type 0 where
  restores : Text → Change
  publishes : ℕ → Text → Text → Change
  retries : Change

module _ (w : Setup) where
  unfoldable pub step : Change → Cluster → Cluster
  step (restores dir) s = (restore_buffer_from_disk w dir s).1
  step (publishes fuel topic body) s = (publish w fuel topic body s).1
  step retries s = (retry w s).1

  unfoldable pub run : List Change → Cluster → Cluster
  run [] s = s
  run (c ∷ cs) s = run cs (step c s)

  -- No publication finds the number of its topic at the last uint64.
  unfoldable pub IsLow : List Change → Cluster → Type 0
  IsLow [] s = Unit
  IsLow (publishes fuel topic body ∷ cs) s =
      (last_seq topic s.rep + 1 < 2 ^ 64) × IsLow cs (step (publishes fuel topic body) s)
  IsLow (restores dir ∷ cs) s = IsLow cs (step (restores dir) s)
  IsLow (retries ∷ cs) s = IsLow cs (step retries s)

  rep-resend :
      (f lo max : ℕ) (topic : Text) (seqs : GoMap ℕ Text) (s : Cluster)
      → (resend w f lo max topic seqs s).1.rep ≡ s.rep
  unfolding resend
  rep-resend zero lo max topic seqs s = refl
  rep-resend (suc f) lo max topic seqs s = elim (Bool-cases (leb lo max)) [
    | inr stop ↦ rw (stop, resend) refl
    | inl more ↦
        rw (more, resend)
          (rep-resend f _ max topic seqs _
            ∙ (resend_one-frame w topic topic [] lo 0 (lookup lo seqs) s).0)
  ]

  rep-resend_if :
      (b : Bool) (f lo max : ℕ) (topic : Text) (seqs : GoMap ℕ Text) (s : Cluster)
      → ((if b then resend w f lo max topic seqs else pure tt) s).1.rep ≡ s.rep
  rep-resend_if true f lo max topic seqs s = rep-resend f lo max topic seqs s
  rep-resend_if false f lo max topic seqs s = refl

  retry_topic-kept :
      (acked : GoMap Text ℕ) (topic : Text) (n : ℕ) (seqs : GoMap ℕ Text) (s : Cluster)
      → (lookup n (retry_topic w acked topic seqs s).0
          ≡ (if leb n (or_zero 0 (lookup topic acked)) then none else lookup n seqs))
        × ((retry_topic w acked topic seqs s).1.rep ≡ s.rep)
  unfolding retry_topic
  retry_topic-kept acked topic n seqs s = (
    lookup-cleanup w topic (or_zero 0 (lookup topic acked)) n seqs s,
    rep-resend_if w.opts.server_broadcasts _ _ _ topic _ _
        ∙ (cleanup-frame w topic topic [] (or_zero 0 (lookup topic acked)) 0 seqs s).0,
  )

  retry_topics-kept :
      (acked : GoMap Text ℕ) (t : Text) (n : ℕ) (body : Text) (buf : GoMap Text (GoMap ℕ Text))
      (s : Cluster)
      → (lookup n (messages t (retry_topics w acked buf s).0) ≡ some body
          → lookup n (messages t buf) ≡ some body)
        × ((retry_topics w acked buf s).1.rep ≡ s.rep)
  unfolding retry_topics lookup
  retry_topics-kept acked t n body [] s = (λ e. e, refl)
  retry_topics-kept acked t n body ((topic, seqs) ∷ buf) s =
      let (l1, r1) = retry_topic-kept acked topic n seqs s in
      let (l2, r2) = retry_topics-kept acked t n body buf (retry_topic w acked topic seqs s).1 in
      (ground (arith, text_eq_iff topic t), r2 ∙ r1)

  rep-acked_by_server : (s : Cluster) → (acked_by_server w s).1.rep ≡ s.rep
  unfolding acked_by_server
  rep-acked_by_server s = ground arith

  retry-IsCovered : (s : Cluster) → IsCovered s.rep → IsCovered (retry w s).1.rep
  unfolding retry
  retry-IsCovered s h = elim (Bool-cases (leads w s).0) [
    | inr follows ↦ rw (follows, retry) (subst IsCovered (sym (rep-leads w s)) h)
    | inl led ↦
        let s1 : Cluster = (leads w s).1 in
        let s2 : Cluster = (acked_by_server w s1).1 in
        let acked = (acked_by_server w s1).0 in
        let same : s2.rep ≡ s.rep = rep-acked_by_server s1 ∙ rep-leads w s in
        let h2 : IsCovered s2.rep = subst IsCovered (sym same) h in
        rw (led, retry)
          (record {
            at = λ t n body found.
                let (kept, frame) = retry_topics-kept acked t n body s2.rep.buf s2 in
                subst (λ (r : Rep). n ≤ last_seq t r) (sym frame) (h2.at t n body (kept found));
          })
  ]

  publish-IsCovered :
      (fuel : ℕ) (topic body : Text) (s : Cluster)
      → last_seq topic s.rep + 1 < 2 ^ 64
      → IsCovered s.rep
      → IsCovered (publish w fuel topic body s).1.rep
  publish-IsCovered fuel topic body s low h =
      let (follows, stores, keeps) = publish_cases w fuel topic body s in
      elim (published-cases (publish w fuel topic body s).0) [
        | inl p ↦ subst IsCovered (sym (stores p)) (store_message-IsCovered topic body s.rep low h)
        | inr p ↦ subst IsCovered (sym (keeps p)) h
      ]

  -- Whatever a node restores from its directory, publishes and sends again, in any order and with any
  -- acknowledgements, no message in its buffer is beyond the last sequence number of its topic, as long as no publication
  -- finds that number at the last uint64.
  pub run-IsCovered :
      (cs : List Change) (s : Cluster) → IsLow cs s → IsCovered s.rep → IsCovered (run cs s).rep
  unfolding IsLow run step
  run-IsCovered [] s low h = h
  run-IsCovered (restores dir ∷ cs) s low h =
      run-IsCovered cs (restore_buffer_from_disk w dir s).1 low
        (restore_buffer_from_disk-IsCovered w dir s h)
  run-IsCovered (publishes fuel topic body ∷ cs) s (small, low) h =
      run-IsCovered cs (publish w fuel topic body s).1 low
        (publish-IsCovered fuel topic body s small h)
  run-IsCovered (retries ∷ cs) s low h = run-IsCovered cs (retry w s).1 low (retry-IsCovered s h)
