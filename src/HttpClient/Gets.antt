-- ===== src/HttpClient/Gets.antt =====
-- The retries of `GetStatus`.
use go_cluster.Prelude.{
  ℕ, zero, suc, ◌+◌, ◌<◌, Text, codes, ◌==◌, nat_eq, true, false, none, some, Bool, ◌≡◌, refl, ◌∙◌,
  subst, arith, ◌++◌, inl, inr,
}
use go_cluster.Result.{ok, Error, Result-cases}
use go_cluster.HttpClient.{Http, Attempts, Reply, attempt_get, get_status, url}
use go_cluster.HttpClient.Retries.{is_ok}
use go_cluster.Cluster.Disk.{format_uint}

module _ (a : Attempts) where
  attempt_get-again :
      (fuel i : ℕ) (last : Error)
      → is_ok (a.reply i) ≡ false
      → a.cancelled i ≡ none
      → (e : Text) × (attempt_get a (suc fuel) i last ≡ attempt_get a fuel (suc i) (some e))
  unfolding attempt_get
  attempt_get-again fuel i last bad on = elim (Result-cases (a.reply i)) [
    | inr (x, e) ↦ (x, rw (attempt_get, e, on) refl)
    | inl (r, e) ↦ (
      codes "status " ++ format_uint r.code ++ codes ": " ++ r.body,
      rw (attempt_get, e, subst (λ p. is_ok p ≡ false) e bad, on) refl,
    )
  ]

  attempt_get-answered :
      (n fuel i j : ℕ) (r : Reply) (last : Error)
      → i + n ≡ j
      → n < fuel
      → ((k : ℕ) → k < j → (is_ok (a.reply k) ≡ false) × (a.cancelled k ≡ none))
      → a.reply j ≡ ok r
      → (r.code == 200) ≡ true
      → attempt_get a fuel i last ≡ (r.body, r.read_error)
  unfolding attempt_get
  attempt_get-answered n zero i j r last at enough before e good = absurd (omega (arith, enough))
  attempt_get-answered zero (suc fuel) i j r last at enough before e good =
      let same : j ≡ i = omega (arith, at) in
      rw (attempt_get, subst (λ k. a.reply k ≡ ok r) same e, good) refl
  attempt_get-answered (suc n) (suc fuel) i j r last at enough before e good =
      let (bad, on) = before i (omega (arith, at)) in
      let (x, f) = attempt_get-again fuel i last bad on in
      f
      ∙ attempt_get-answered n fuel (suc i) j r (some x) (omega (arith, at)) (omega (arith, enough))
          before e good

-- The first attempt with status 200 gives the result, if it is one of three and the context is not
-- done before.
pub get_status-answered :
    (http : Http) (is_tls : Bool) (a : Attempts) (addr : Text) (n : ℕ) (r : Reply)
    → http.new_request (url is_tls addr (codes "/status")) ≡ none
    → n < 3
    → ((k : ℕ) → k < n → (is_ok (a.reply k) ≡ false) × (a.cancelled k ≡ none))
    → a.reply n ≡ ok r
    → (r.code == 200) ≡ true
    → get_status http is_tls a addr ≡ (r.body, r.read_error)
unfolding get_status
get_status-answered http is_tls a addr n r built few before e good =
    rw (get_status, built) (attempt_get-answered a n 3 0 n r none (omega arith) few before e good)
