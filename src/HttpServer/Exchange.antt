-- ===== src/HttpServer/Exchange.antt =====
-- The HTTP client of httpjson/client.go against this server, over a network that loses requests and
-- replies.
use go_cluster.Prelude.{
  ℕ, zero, suc, ◌+◌, ◌<◌, Text, nat_eq, text_is_eq, ◌≡◌, refl, ◌∙◌, Option, none, subst, arith,
}
use go_cluster.Result.{ok, err}
use go_cluster.HttpClient.{Response, Attempts, Reply}
use go_cluster.HttpClient.Retries.{merged}
use go_cluster.HttpServer.{Answer}

-- What becomes of an attempt, with the error that `Do` returns. An attempt that is not sent, as when
-- there is no connection, leaves the body of the request unread.
pub data Fate : Type 0 where
  delivered : Fate
  unsent lost_request lost_reply : Text → Fate

abbrev pub reply_of : Answer → Reply
reply_of a = record { code = a.code; body = a.body; read_error = none }

abbrev pub IsLost : Fate → Type 0
IsLost delivered = ⊥
IsLost (unsent e) = Unit
IsLost (lost_request e) = Unit
IsLost (lost_reply e) = Unit

-- `f` applied a number of times.
abbrev pub times : {S : Type 0} → (S → S) → ℕ → S → S
times f zero s = s
times f (suc n) s = f (times f n s)

-- How many of the first attempts reach the server.
abbrev pub arrived : (ℕ → Fate) → ℕ → ℕ
arrived fate zero = 0
arrived fate (suc n) =
    let before = arrived fate n in
    elim (fate n) [
      | delivered ↦ suc before
      | unsent e ↦ before
      | lost_request e ↦ before
      | lost_reply e ↦ suc before
    ]

merged-err :
    {R : Type 0} (res : Response R) (a : Attempts) (n i : ℕ) (x : Text) (out : R)
    → a.reply i ≡ err x
    → merged res a (suc n) i out ≡ merged res a n (suc i) out
unfolding merged
merged-err res a n i x out f = rw (merged, f) refl

arrived-delivered :
    (fate : ℕ → Fate) (n : ℕ) → fate n ≡ delivered → arrived fate (suc n) ≡ suc (arrived fate n)
arrived-delivered fate n e = rw (arrived, e) refl

-- Attempts without a reply leave the variable of the response as it is.
pub merged-lost :
    {R : Type 0} (res : Response R) (a : Attempts) (r : Reply) (n i j : ℕ) (out : R)
    → i + n ≡ j
    → ((k : ℕ) → k < j → (e : Text) × (a.reply k ≡ err e))
    → a.reply j ≡ ok r
    → merged res a (suc n) i out ≡ res.decode_into r.body out
unfolding merged
merged-lost res a r zero i j out at lost e =
    let same : j ≡ i = omega (arith, at) in rw (merged, subst (λ k. a.reply k ≡ ok r) same e) refl
merged-lost res a r (suc n) i j out at lost e =
    let (x, f) = lost i (omega (arith, at)) in
    merged-err res a (suc n) i x out f
    ∙ merged-lost res a r n (suc i) j out (omega (arith, at)) lost e

module _ {S : Type 0} (answer : S → Answer × S) (fate : ℕ → Fate) where
  -- The server's state in front of an attempt.
  abbrev pub state_before : ℕ → S → S
  state_before n = times (λ s. (answer s).1) (arrived fate n)

  -- The attempts of a request without a body, as the client sees them.
  abbrev pub attempts : (ℕ → Option Text) → S → Attempts
  attempts cancelled s = record {
    reply = λ i. elim (fate i) [
      | delivered ↦ ok (reply_of (answer (state_before i s)).0)
      | unsent e ↦ err e
      | lost_request e ↦ err e
      | lost_reply e ↦ err e
    ];
    cancelled = cancelled;
  }

  pub lost_is_not_ok :
      (cancelled : ℕ → Option Text) (s : S) (k : ℕ)
      → IsLost (fate k)
      → (e : Text) × ((attempts cancelled s).reply k ≡ err e)
  lost_is_not_ok cancelled s k h = go (fate k) refl h
    where
      go :
          (f : Fate) → fate k ≡ f → IsLost f → (e : Text) × ((attempts cancelled s).reply k ≡ err e)
      go delivered e h = absurd h
      go (unsent x) e h = (x, rw e refl)
      go (lost_request x) e h = (x, rw e refl)
      go (lost_reply x) e h = (x, rw e refl)
