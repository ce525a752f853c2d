-- ===== src/HttpServer/Posting.antt =====
-- A POST that reaches the server at the first attempt, for any of the four functions.
use go_cluster.Prelude.{
  ℕ, Text, codes, nat_eq, text_is_eq, ◌≡◌, refl, ap, ◌∙◌, true, none, some, Option, arith,
}
use go_cluster.Result.{ok, Error}
use go_cluster.HttpClient.{Http, Response, post}
use go_cluster.HttpServer.{Request, Answer, Codec, Handler, Web, serve_post, json_answer}
use go_cluster.HttpServer.Exchange.{Fate, delivered}
use go_cluster.HttpServer.Draining.{post_attempts, posted, post-exchange}

abbrev pub post_request : Text → Text → Request
post_request path b = record { method = codes "POST"; path = path; body = b }

module _ {S Req R : Type 0} (web : Web S) (name path : Text) (codec : Codec Req R)
    (on_error : R → Text → R) (f : Req → S → (R × Error) × S) where
  serve_post-ok :
      (handler : Handler S Req R) (b : Text) (req : Req) (resp : R) (s s' : S)
      → handler ≡ some f
      → codec.decode b ≡ ok req
      → f req s ≡ ((resp, none), s')
      → serve_post web name codec on_error handler (post_request path b) s
        ≡ (json_answer 200 (codec.encode resp), s')
  unfolding serve_post
  serve_post-ok handler b req resp s s' has d e =
      rw (serve_post, has, d, ap (λ p. p.0.1) e, ap (λ p. p.0.0) e, ap (λ p. p.1) e) refl

  -- The client gets the response, and the function has run once.
  pub post-serve_post :
      (http : Http) (res : Response R) (kind target b : Text) (serves : Request → S → Answer × S)
      (handler : Handler S Req R) (fate : ℕ → Fate) (cancelled : ℕ → Option Text) (req : Req)
      (resp : R) (s s' : S)
      → ((t : S)
          → serves (post_request path b) t
            ≡ serve_post web name codec on_error handler (post_request path b) t)
      → http.new_request target ≡ none
      → handler ≡ some f
      → codec.decode b ≡ ok req
      → res.decode_into (codec.encode resp) res.zero_value ≡ resp
      → fate 0 ≡ delivered
      → f req s ≡ ((resp, none), s')
      → (post http res kind
            (post_attempts (serves (post_request path b)) fate cancelled s)
            target
            (ok b)
          ≡ (resp, none))
        × (posted (serves (post_request path b)) fate 3 s ≡ s')
  post-serve_post http res kind target b serves handler fate cancelled req resp s s' routed built
        has d back first e =
      let (p, q) =
        post-exchange (serves (post_request path b)) fate http res kind target b cancelled s 0 none
          (codec.encode resp) true s' built (omega arith) (λ k low. ground arith) first
          (routed s ∙ serve_post-ok handler b req resp s s' has d e) in
      (p ∙ ap (λ r. (r, none)) back, q)
