-- ===== src/Cluster/Replication/RetryTopic.antt =====
-- A retry round on one topic: what is cleaned up, and what is sent again.
use go_cluster.Prelude.{
  ℕ, zero, suc, ◌+◌, ◌-◌, ◌^◌, ◌<◌, Text, ◌&&◌, ◌==◌, nat_eq, text_is_eq, eqb_iff, Bool, true,
  false, Option, none, some, [], ◌∷◌, ◌≡◌, refl, ap, ◌∙◌, arith, leb, if◌then◌else◌, or_zero,
  Bool-cases, inl, inr,
}
use go_cluster.Prelude.Int.{inc_u64}
use go_cluster.GoMap.{GoMap, lookup}
use go_cluster.Cluster.World.{Setup, Rep, Cluster, Call, History, pure, broadcasts}
use go_cluster.Cluster.Disk.Restored.{last_seq}
use go_cluster.Cluster.Replication.{forget_file, cleanup, resend_one, resend, retry_topic}

-- How often a broadcast of the body under the number `n` of the topic is among the calls.
abbrev broadcast_of : Text → ℕ → Text → Call → ℕ
broadcast_of topic n body (broadcasts t b m) = if t == topic && m == n && b == body then 1 else 0
broadcast_of topic n body c = 0

abbrev pub sent : Text → ℕ → Text → History → ℕ
sent topic n body [] = 0
sent topic n body (c ∷ h) = broadcast_of topic n body c + sent topic n body h

-- There is a message, and its body is the given one.
abbrev pub holds : Text → Option Text → Bool
holds body none = false
holds body (some b) = b == body

module _ (w : Setup) where
  -- The messages above `a` stay, those up to `a` go.
  pub lookup-cleanup :
      (topic : Text) (a n : ℕ) (seqs : GoMap ℕ Text) (s : Cluster)
      → lookup n (cleanup w topic a seqs s).0 ≡ (if leb n a then none else lookup n seqs)
  unfolding cleanup lookup
  lookup-cleanup topic a n [] s = ground arith
  lookup-cleanup topic a n ((m, body) ∷ seqs) s = elim (Bool-cases (leb m a)) [
    | inl gone ↦ rw (gone, cleanup) (lookup-cleanup topic a n seqs _ ∙ ground (arith, eqb_iff m n))
    | inr kept ↦ rw (kept, cleanup) (ground (arith, eqb_iff m n, lookup-cleanup topic a n seqs s))
  ]

  forget_file-frame :
      (topic t x : Text) (m n : ℕ) (s : Cluster)
      → ((forget_file w topic m s).1.rep ≡ s.rep)
        × (sent t n x (forget_file w topic m s).1.calls ≡ sent t n x s.calls)
  unfolding forget_file
  forget_file-frame topic t x m n s = ground arith

  pub cleanup-frame :
      (topic t x : Text) (a n : ℕ) (seqs : GoMap ℕ Text) (s : Cluster)
      → ((cleanup w topic a seqs s).1.rep ≡ s.rep)
        × (sent t n x (cleanup w topic a seqs s).1.calls ≡ sent t n x s.calls)
  unfolding cleanup
  cleanup-frame topic t x a n [] s = (refl, refl)
  cleanup-frame topic t x a n ((m, body) ∷ seqs) s = elim (Bool-cases (leb m a)) [
    | inl gone ↦
        let (r1, c1) = forget_file-frame topic t x m n s in
        let (r2, c2) = cleanup-frame topic t x a n seqs (forget_file w topic m s).1 in
        rw (gone, cleanup) (r2 ∙ r1, c2 ∙ c1)
    | inr kept ↦ rw (kept, cleanup) (cleanup-frame topic t x a n seqs s)
  ]

  pub resend_one-frame :
      (topic t x : Text) (m n : ℕ) (o : Option Text) (s : Cluster)
      → ((resend_one w topic m o s).1.rep ≡ s.rep)
        × (sent t n x (resend_one w topic m o s).1.calls
            ≡ (if topic == t && (m == n) && holds x o then 1 else 0) + sent t n x s.calls)
  resend_one-frame topic t x m n none s = (refl, ground arith)
  resend_one-frame topic t x m n (some body) s = (refl, ground arith)

  -- With enough fuel and a last number below the last uint64, the loop sends each buffered message
  -- from `lo` up to `max` once, and no other.
  resend-frame :
      (f lo max n : ℕ) (topic t x : Text) (seqs : GoMap ℕ Text) (s : Cluster)
      → max + 1 < 2 ^ 64
      → max < lo + f
      → ((resend w f lo max topic seqs s).1.rep ≡ s.rep)
        × (sent t n x (resend w f lo max topic seqs s).1.calls
            ≡ (if topic == t && leb lo n && leb n max && holds x (lookup n seqs) then 1 else 0)
              + sent t n x s.calls)
  unfolding resend
  resend-frame zero lo max n topic t x seqs s small fuel = (refl, ground arith)
  resend-frame (suc f) lo max n topic t x seqs s small fuel = elim (Bool-cases (leb lo max)) [
    | inl more ↦
        let next : inc_u64 lo ≡ lo + 1 = unfold inc_u64 in ground arith in
        let (r1, c1) = resend_one-frame topic t x lo n (lookup lo seqs) s in
        let (r2, c2) =
          resend-frame f (inc_u64 lo) max n topic t x seqs
            (resend_one w topic lo (lookup lo seqs) s).1 small (omega arith) in
        rw (more, resend) (r2 ∙ r1, ground arith)
    | inr stop ↦ rw (stop, resend) (refl, ground arith)
  ]

  resend_if-frame :
      (b : Bool) (f lo max n : ℕ) (topic t x : Text) (seqs : GoMap ℕ Text) (s : Cluster)
      → max + 1 < 2 ^ 64
      → max < lo + f
      → (((if b then resend w f lo max topic seqs else pure tt) s).1.rep ≡ s.rep)
        × (sent t n x ((if b then resend w f lo max topic seqs else pure tt) s).1.calls
            ≡ (if topic == t && b && leb lo n && leb n max && holds x (lookup n seqs) then 1 else 0)
              + sent t n x s.calls)
  resend_if-frame true f lo max n topic t x seqs s small fuel =
      let (r, c) = resend-frame f lo max n topic t x seqs s small fuel in (r, ground arith)
  resend_if-frame false f lo max n topic t x seqs s small fuel = (refl, ground arith)

  -- One topic: acknowledged messages leave the buffer; with a server that can broadcast, each
  -- message that stays, up to the last number, is sent once, and nothing else is.
  pub retry_topic_lem :
      (acked : GoMap Text ℕ) (topic t x : Text) (n : ℕ) (seqs : GoMap ℕ Text) (s : Cluster)
      → last_seq topic s.rep + 1 < 2 ^ 64
      → or_zero 0 (lookup topic acked) + 1 < 2 ^ 64
      → (lookup n (retry_topic w acked topic seqs s).0
          ≡ (if leb n (or_zero 0 (lookup topic acked)) then none else lookup n seqs))
        × ((retry_topic w acked topic seqs s).1.rep ≡ s.rep)
        × (sent t n x (retry_topic w acked topic seqs s).1.calls
            ≡ (if topic == t
                  && w.opts.server_broadcasts
                  && leb n (last_seq topic s.rep)
                  && holds x (lookup n (retry_topic w acked topic seqs s).0)
                then 1
                else 0)
              + sent t n x s.calls)
  unfolding retry_topic
  retry_topic_lem acked topic t x n seqs s small ack_small =
      let a = or_zero 0 (lookup topic acked) in
      let left = (cleanup w topic a seqs s).0 in
      let t1 : Cluster = (cleanup w topic a seqs s).1 in
      let (r1, c1) = cleanup-frame topic t x a n seqs s in
      let l1 = lookup-cleanup topic a n seqs s in
      let max : ℕ = last_seq topic t1.rep in
      let same : max ≡ last_seq topic s.rep = ap (λ (r : Rep). last_seq topic r) r1 in
      let next : inc_u64 a ≡ a + 1 = unfold inc_u64 in omega arith in
      let (r2, c2) =
        resend_if-frame w.opts.server_broadcasts (max + 1 - a) (inc_u64 a) max n topic t x left t1
          (omega arith) (omega arith) in
      (l1, r2 ∙ r1, ground arith)
