-- ===== src/HttpServer/Draining.antt =====
-- The attempts of a POST of httpjson/client.go: its one request has a body, which is read once.
use go_cluster.Prelude.{
  ℕ, zero, suc, ◌+◌, ◌-◌, ◌<◌, Text, codes, nat_eq, ◌==◌, Bool, true, false, ◌||◌, Option, none,
  some, ◌≡◌, ◌≢◌, refl, ap, ◌∙◌, arith, ltb, Bool-cases, inl, inr,
}
use go_cluster.Result.{Result, ok, err, Error}
use go_cluster.HttpClient.{Http, Response, Attempts, Reply, post}
use go_cluster.HttpClient.Retries.{is_ok, post-merged, post-fails}
use go_cluster.HttpServer.{Answer}
use go_cluster.HttpServer.Exchange.{
  Fate, delivered, unsent, lost_request, lost_reply, reply_of, merged-lost,
}

-- A POST uses one request for its attempts. The first attempt that is sent reads the body to its end,
-- and net/http refuses to send the request again; the text stands for that of its error.
abbrev pub drained : Text
drained = codes "http: Body length 0"

abbrev pub is_sent : Fate → Bool
is_sent (unsent e) = false
is_sent _ = true

-- An attempt before `n` has read the body.
abbrev pub read_before : (ℕ → Fate) → ℕ → Bool
read_before fate zero = false
read_before fate (suc n) = is_sent (fate n) || read_before fate n

abbrev pub IsUnsent : Fate → Type 0
IsUnsent x = (e : Text) × (x ≡ unsent e)

-- The fate of an attempt that the server answers, with the error of a reply that is lost.
abbrev pub answered : Option Text → Fate
answered none = delivered
answered (some e) = lost_reply e

-- A later attempt finds the body read.
read_before-later :
    (fate : ℕ → Fate) (n d : ℕ) → read_before fate n ≡ true → read_before fate (d + n) ≡ true
read_before-later fate n zero h = let z : 0 + n ≡ n = omega arith in rw z h
read_before-later fate n (suc d) h =
    let z : suc d + n ≡ suc (d + n) = omega arith in
    rw z (ground (arith, read_before-later fate n d h))

module _ {S : Type 0} (answer : S → Answer × S) (fate : ℕ → Fate) where
  abbrev reply_at : Bool → Fate → S → Result Reply
  reply_at true x s = err drained
  reply_at false delivered s = ok (reply_of (answer s).0)
  reply_at false (unsent e) s = err e
  reply_at false (lost_request e) s = err e
  reply_at false (lost_reply e) s = err e

  abbrev after : Bool → Fate → S → S
  after true x s = s
  after false delivered s = (answer s).1
  after false (unsent e) s = s
  after false (lost_request e) s = s
  after false (lost_reply e) s = (answer s).1

  -- The attempts of a POST. One of them at most reaches the server.
  abbrev pub post_attempts : (ℕ → Option Text) → S → Attempts
  post_attempts cancelled s = record {
    reply = λ i. reply_at (read_before fate i) (fate i) s;
    cancelled = cancelled;
  }

  -- The server's state in front of an attempt of a POST.
  abbrev pub posted : ℕ → S → S
  posted zero s = s
  posted (suc n) s = after (read_before fate n) (fate n) (posted n s)

  abbrev pub AllUnsent : (ℕ → Option Text) → ℕ → Type 0
  AllUnsent cancelled n = (k : ℕ) → k < n → IsUnsent (fate k) × (cancelled k ≡ none)

  unsent_before :
      (n : ℕ) (s : S)
      → ((k : ℕ) → k < n → IsUnsent (fate k))
      → (read_before fate n ≡ false) × (posted n s ≡ s)
  unsent_before zero s h = (refl, refl)
  unsent_before (suc n) s h =
      let (p, q) = unsent_before n s (λ k low. h k (omega arith)) in
      let (e, x) = h n (omega arith) in (rw (x, p) refl, rw (x, p) q)

  posted-later : (n d : ℕ) (s : S) → read_before fate n ≡ true → posted (d + n) s ≡ posted n s
  posted-later n zero s h = let z : 0 + n ≡ n = omega arith in rw z refl
  posted-later n (suc d) s h =
      let z : suc d + n ≡ suc (d + n) = omega arith in
      rw z (rw (read_before-later fate n d h) (posted-later n d s h))

  sent_at : (n : ℕ) (lost : Option Text) → fate n ≡ answered lost → read_before fate (suc n) ≡ true
  sent_at n none here = rw here refl
  sent_at n (some e) here = rw here refl

  after-answered :
      (n : ℕ) (lost : Option Text) (s : S)
      → read_before fate n ≡ false
      → fate n ≡ answered lost
      → posted n s ≡ s
      → posted (suc n) s ≡ (answer s).1
  after-answered n none s p here q = rw (p, here, q) refl
  after-answered n (some e) s p here q = rw (p, here, q) refl

  -- The state after the three attempts, if one is answered and none before it is sent.
  posted-answered :
      (n : ℕ) (lost : Option Text) (s : S)
      → n < 3
      → ((k : ℕ) → k < n → IsUnsent (fate k))
      → fate n ≡ answered lost
      → posted 3 s ≡ (answer s).1
  posted-answered n lost s few before here =
      let (p, q) = unsent_before n s before in
      let all : 3 ≡ (2 - n) + suc n = omega (arith, few) in
      ap (λ k. posted k s) all
      ∙ posted-later (suc n) (2 - n) s (sent_at n lost here)
      ∙ after-answered n lost s p here q

  reply-unsent :
      (k : ℕ) (s : S)
      → IsUnsent (fate k)
      → (e : Text) × (reply_at (read_before fate k) (fate k) s ≡ err e)
  reply-unsent k s (e, x) = elim (Bool-cases (read_before fate k)) [
    | inl p ↦ (drained, rw p refl)
    | inr p ↦ (e, rw (p, x) refl)
  ]

  -- The response, if the answer came back, and an error if it was lost.
  abbrev pub IsResult : {R : Type 0} → R → Option Text → R × Error → Type 0
  IsResult resp none r = r ≡ (resp, none)
  IsResult resp (some e) r = r.1 ≢ none

  reply-answered :
      (n : ℕ) (s : S)
      → read_before fate n ≡ false
      → fate n ≡ delivered
      → reply_at (read_before fate n) (fate n) s ≡ ok (reply_of (answer s).0)
  reply-answered n s p here = rw (p, here) refl

  reply-lost :
      (n : ℕ) (s : S) (e : Text)
      → ((k : ℕ) → k < n → IsUnsent (fate k))
      → fate n ≡ lost_reply e
      → (k : ℕ) → is_ok (reply_at (read_before fate k) (fate k) s) ≡ false
  reply-lost n s e before here k = elim (Bool-cases (read_before fate k)) [
    | inl p ↦ rw p refl
    | inr p ↦ elim (Bool-cases (ltb k n)) [
      | inl low ↦ ap is_ok (reply-unsent k s (before k (ground (arith, low)))).1
      | inr high ↦ elim (Bool-cases (k == n)) [
        | inl same ↦
            let at : k ≡ n = ground (arith, same) in
            let x : fate k ≡ lost_reply e = ap fate at ∙ here in rw (p, x) refl
        | inr other ↦
            let all : k ≡ (k - suc n) + suc n = ground (arith, high, other) in
            absurd (
              ground (
                arith,
                p,
                ap (read_before fate) all,
                read_before-later fate (suc n) (k - suc n) (sent_at n (some e) here),
              ))
      ]
    ]
  ]

  -- No attempt is sent before `n`, and the server answers that one: where its answer, with status
  -- 200, comes back, the call returns its response; where the answer is lost, the call fails. In both
  -- cases the server has answered once.
  pub post-exchange :
      {R : Type 0} (http : Http) (res : Response R) (kind target b : Text)
      (cancelled : ℕ → Option Text) (s : S) (n : ℕ) (lost : Option Text) (body : Text)
      (is_json : Bool) (s' : S)
      → http.new_request target ≡ none
      → n < 3
      → AllUnsent cancelled n
      → fate n ≡ answered lost
      → answer s ≡ (record { code = 200; is_json = is_json; body = body }, s')
      → IsResult
          (res.decode_into body res.zero_value)
          lost
          (post http res kind (post_attempts cancelled s) target (ok b))
        × (posted 3 s ≡ s')
  post-exchange http res kind target b cancelled s n none body is_json s' built few before here e =
      let a = post_attempts cancelled s in
      let r : Reply = record { code = 200; body = body; read_error = none } in
      let p = (unsent_before n s (λ k low. (before k low).0)).0 in
      let reply : a.reply n ≡ ok r = reply-answered n s p here ∙ ap (λ q. ok (reply_of q.0)) e in
      let lost : (k : ℕ) → k < n → (x : Text) × (a.reply k ≡ err x) =
        (λ k low. reply-unsent k s (before k low).0) in
      (
        post-merged http res kind a target b n built few
              (λ k low. (ap is_ok (lost k low).1, (before k low).1)) (ap is_ok reply)
            ∙ ap (λ t. (t, none))
                (merged-lost res a r n 0 n res.zero_value (omega arith) lost reply),
        posted-answered n none s few (λ k low. (before k low).0) here ∙ ap (λ q. q.1) e,
      )
  post-exchange http res kind target b cancelled s n (some x) body is_json s' built few before here
        e =
      (
        post-fails http res kind (post_attempts cancelled s) target (ok b)
            (λ k low. reply-lost n s x (λ j l. (before j l).0) here k),
        posted-answered n (some x) s few (λ k low. (before k low).0) here ∙ ap (λ q. q.1) e,
      )
