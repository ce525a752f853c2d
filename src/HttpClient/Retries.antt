-- ===== src/HttpClient/Retries.antt =====
-- The retries of the client.
use go_cluster.Prelude.{
  ℕ, zero, suc, ◌+◌, ◌≤◌, ◌<◌, Text, ◌==◌, nat_eq, Bool, true, false, none, some, Option-cases,
  Bool-cases, inl, inr, ◌≡◌, ◌≢◌, refl, arith, is_empty, subst, codes, ◌++◌, ◌∙◌,
}
use go_cluster.Result.{Result, ok, err, Error, Result-cases}
use go_cluster.Cluster.Disk.{format_uint}
use go_cluster.HttpClient.{Http, Response, Attempts, Reply, attempt_post, reply_error, post}

-- The attempt was answered with status 200.
abbrev pub is_ok : Result Reply → Bool
is_ok (ok r) = r.code == 200
is_ok (err e) = false

-- What a variable holds after the replies to `n` attempts from the `i`-th on, decoded one over the
-- other.
unfoldable pub merged : {R : Type 0} → Response R → Attempts → ℕ → ℕ → R → R
merged res a zero i out = out
merged res a (suc n) i out =
    merged res a n (suc i) (elim (a.reply i) [ ok r ↦ res.decode_into r.body out | err e ↦ out ])

module _ {R : Type 0} (http : Http) (res : Response R) (kind : Text) (a : Attempts) where
  reply_error-ok :
      (r : Reply) (out : R) → (r.code == 200) ≡ true → reply_error http res kind r out ≡ none
  unfolding reply_error
  reply_error-ok r out e = rw e refl

  reply_error-failed :
      (r : Reply) (out : R)
      → (r.code == 200) ≡ false
      → (e : Text) × (reply_error http res kind r out ≡ some e)
  unfolding reply_error
  reply_error-failed r out e = elim (Bool-cases (is_empty (res.error out))) [
    | inl f ↦
        (kind ++ codes " status " ++ format_uint r.code ++ codes ": " ++ r.body, rw (e, f) refl)
    | inr f ↦ (http.errorf (res.error out), rw (e, f) refl)
  ]

  attempt_post-success :
      (fuel i : ℕ) (out : R) (last : Error)
      → is_ok (a.reply i) ≡ true
      → attempt_post http res kind a (suc fuel) i out last ≡ (merged res a 1 i out, none)
  unfolding attempt_post merged
  attempt_post-success fuel i out last = elim (Result-cases (a.reply i)) [
    | inl (r, e) ↦ rw e (λ h. ground (arith, reply_error-ok r (res.decode_into r.body out) h))
    | inr (x, e) ↦ rw e (λ h. cc)
  ]

  attempt_post-failure :
      (fuel i : ℕ) (out : R) (last : Error)
      → is_ok (a.reply i) ≡ false
      → (e : Text) × ((a.cancelled i ≡ none
            → attempt_post http res kind a (suc fuel) i out last
              ≡ attempt_post http res kind a fuel (suc i) (merged res a 1 i out) (some e))
          × ((c : Text)
              → a.cancelled i ≡ some c
              → (attempt_post http res kind a (suc fuel) i out last).1 ≡ some e))
  unfolding attempt_post merged
  attempt_post-failure fuel i out last = elim (Result-cases (a.reply i)) [
    | inl (r, e) ↦ rw e (λ h.
        let (x, f) = reply_error-failed r (res.decode_into r.body out) h in
        (x, (ground (arith, f), ground (arith, f))))
    | inr (x, e) ↦ rw e (λ h. (x, (ground arith, ground arith)))
  ]

  attempt_post-merged :
      (fuel n i j : ℕ) (out : R) (last : Error)
      → n < fuel
      → i + n ≡ j
      → ((k : ℕ) → i ≤ k → k < j → (is_ok (a.reply k) ≡ false) × (a.cancelled k ≡ none))
      → is_ok (a.reply j) ≡ true
      → attempt_post http res kind a fuel i out last ≡ (merged res a (suc n) i out, none)
  unfolding merged
  attempt_post-merged zero n i j out last more at before success = ground arith
  attempt_post-merged (suc f) zero i j out last more at before success =
      attempt_post-success f i out last
        (subst (λ k. is_ok (a.reply k) ≡ true) (omega (arith, at)) success)
  attempt_post-merged (suc f) (suc n) i j out last more at before success =
      let (failed, live) = before i (omega arith) (omega (arith, at)) in
      let (e, (next, stop)) = attempt_post-failure f i out last failed in
      next live
      ∙ attempt_post-merged f n (suc i) j (merged res a 1 i out) (some e) (omega arith)
          (omega (arith, at)) (λ k low high. before k (omega arith) high) success

  attempt_post-fails :
      (fuel i : ℕ) (out : R) (last : Error)
      → (fuel ≡ 0 → last ≢ none)
      → ((k : ℕ) → i ≤ k → k < i + fuel → is_ok (a.reply k) ≡ false)
      → (attempt_post http res kind a fuel i out last).1 ≢ none
  unfolding attempt_post
  attempt_post-fails zero i out last bad fails = bad refl
  attempt_post-fails (suc f) i out last bad fails =
      let (e, (next, stop)) =
        attempt_post-failure f i out last (fails i (omega arith) (omega arith)) in
      elim (Option-cases (a.cancelled i)) [
        | inl live ↦ rw (next live) (
            attempt_post-fails f (suc i) (merged res a 1 i out) (some e) (λ p q. cc)
              (λ k low high. fails k (omega arith) (omega arith)))
        | inr (c, done) ↦ rw (stop c done) (λ p. cc)
      ]

  -- A POST whose body was encoded and whose request was built succeeds where one of its three
  -- attempts, the first that is answered with status 200, comes before the context is done. Its
  -- response is what decoding every reply so far leaves, one over the other.
  pub post-merged :
      (target b : Text) (n : ℕ)
      → http.new_request target ≡ none
      → n < 3
      → ((k : ℕ) → k < n → (is_ok (a.reply k) ≡ false) × (a.cancelled k ≡ none))
      → is_ok (a.reply n) ≡ true
      → post http res kind a target (ok b) ≡ (merged res a (suc n) 0 res.zero_value, none)
  unfolding post
  post-merged target b n built few before success =
      rw (post, built)
        (attempt_post-merged 3 n 0 n res.zero_value none few (omega arith) (λ k low. before k)
          success)

  -- A POST none of whose three attempts is answered with status 200 returns an error, whatever
  -- the replies, the bodies and the context are.
  pub post-fails :
      (target : Text) (body : Result Text)
      → ((k : ℕ) → k < 3 → is_ok (a.reply k) ≡ false)
      → (post http res kind a target body).1 ≢ none
  unfolding post
  post-fails target (err e) fails = λ p. cc
  post-fails target (ok b) fails = elim (Option-cases (http.new_request target)) [
    | inl built ↦
        rw (post, built)
          (attempt_post-fails 3 0 res.zero_value none (λ p. ground arith)
            (λ k low high. fails k (omega arith)))
    | inr (e, refused) ↦ rw (post, refused) (λ p. cc)
  ]
