-- ===== src/Cli/Status.antt =====
-- The command `status` against the node that it names.
use go_cluster.Prelude.{
  ℕ, ◌<◌, Text, codes, ◌==◌, nat_eq, text_is_eq, ◌++◌, true, false, Option, none, some, [], ◌∷◌,
  ◌≡◌, refl, ap, ◌∙◌, if◌then◌else◌, Bool-cases, Option-cases, eqb_iff, inl, inr,
}
use mathlib.Core.List.{append-nil}
use go_cluster.Result.{ok}
use go_cluster.HttpClient.{Http, Reply, url}
use go_cluster.HttpClient.Retries.{is_ok}
use go_cluster.HttpClient.Gets.{get_status-answered}
use go_cluster.HttpServer.{Request, Web, serve, serve_status}
use go_cluster.HttpServer.Exchange.{Fate, delivered, IsLost, attempts, state_before, lost_is_not_ok}
use go_cluster.Cluster.World.{Setup, Cluster}
use go_cluster.Cluster.Requests.{status_local_json}
use go_cluster.Cluster.Serving.{Codecs, http_handlers}
use go_cluster.Cli.{StatusFlags, last_byte, lacks_newline, newline, status}

-- The text with the newline that it may lack.
abbrev pub as_line : Text → Text
as_line s = s ++ (if lacks_newline s then newline else [])

last_byte-newline : (s : Text) → last_byte (s ++ newline) ≡ some 10
unfolding last_byte
last_byte-newline [] = refl
last_byte-newline (c ∷ []) = refl
last_byte-newline (c ∷ d ∷ s) = last_byte-newline (d ∷ s)

last_byte-as_line : (s : Text) → last_byte (as_line s) ≡ some 10
unfolding lacks_newline last_byte
last_byte-as_line s = elim (Option-cases (last_byte s)) [
  | inl e ↦ rw (as_line, lacks_newline, e) (last_byte-newline s)
  | inr (c, e) ↦ elim (Bool-cases (c == 10)) [
    | inl at ↦ rw (as_line, lacks_newline, e, at, append-nil) (e ∙ ap some ((eqb_iff c 10).0 at))
    | inr other ↦ rw (as_line, lacks_newline, e, other) (last_byte-newline s)
  ]
]

abbrev pub status_request : Request
status_request = record { method = codes "GET"; path = codes "/status"; body = [] }

module _ (w : Setup) (web : Web Cluster) (codecs : Codecs) where
  serve-status :
      (t t' : Cluster) (b : Text)
      → status_local_json w t ≡ (ok b, t')
      → serve web (http_handlers w codecs) status_request t
        ≡ (record { code = 200; is_json = true; body = b }, t')
  unfolding serve serve_status http_handlers
  serve-status t t' b e = rw (serve, serve_status, ap (λ p. p.0) e, ap (λ p. p.1) e) refl

  -- A `status` of which the first requests or replies are lost and the next of the three attempts is
  -- answered by a node that can encode its status prints this status, with a newline at the end if it
  -- has none, and succeeds.
  pub status-served :
      (f : StatusFlags) (http : Http) (fate : ℕ → Fate) (cancelled : ℕ → Option Text) (s : Cluster)
      (n : ℕ) (b : Text) (s' : Cluster)
      → http.new_request (url false f.addr (codes "/status")) ≡ none
      → n < 3
      → ((k : ℕ) → k < n → IsLost (fate k) × (cancelled k ≡ none))
      → fate n ≡ delivered
      → status_local_json w
          (state_before (serve web (http_handlers w codecs) status_request) fate n s)
        ≡ (ok b, s')
      → (status f http
            (attempts (serve web (http_handlers w codecs) status_request) fate cancelled s)
          ≡ record { printed = as_line b; error = none })
        × (last_byte (as_line b) ≡ some 10)
  unfolding status
  status-served f http fate cancelled s n b s' built few before here e =
      let answer = serve web (http_handlers w codecs) status_request in
      let a = attempts answer fate cancelled s in
      let r : Reply = record { code = 200; body = b; read_error = none } in
      let reply : a.reply n ≡ ok r =
        rw (here, serve-status (state_before answer fate n s) s' b e) refl in
      let got =
        get_status-answered http false a f.addr n r built few
          (λ k low. (
            ap is_ok (lost_is_not_ok answer fate cancelled s k (before k low).0).1,
            (before k low).1,
          ))
          reply refl in
      (rw (status, ap (λ p. p.1) got, ap (λ p. p.0) got) refl, last_byte-as_line b)
