-- ===== src/HttpServer/AppWrite.antt =====
-- `PostAppWrite` of httpjson/client.go against the handler of `/appwrite`.
use go_cluster.Prelude.{
  ℕ, ◌<◌, Text, codes, nat_eq, text_is_eq, ◌≡◌, refl, ap, ◌∙◌, Bool, true, Option, none, some,
}
use go_cluster.Result.{ok, Error}
use go_cluster.Json.{Json}
use go_cluster.Transport.{AppWriteRequest, AppWriteResponse}
use go_cluster.HttpClient.{Http, Response, post_app_write, url}
use go_cluster.HttpServer.{Request, Handlers, Web, serve_app_write, serve}
use go_cluster.HttpServer.Exchange.{Fate}
use go_cluster.HttpServer.Draining.{
  post_attempts, AllUnsent, answered, IsResult, posted, post-exchange,
}

-- The request of `PostAppWrite`, as the server gets it.
abbrev pub app_write_request : Text → Request
app_write_request b = record { method = codes "POST"; path = codes "/appwrite"; body = b }

module _ {S : Type 0} (web : Web S) (h : Handlers S) where
  serve-app_write :
      (b : Text) (s : S)
      → serve web h (app_write_request b) s ≡ serve_app_write web h (app_write_request b) s
  unfolding serve
  serve-app_write b s = refl

  serve_app_write-ok :
      (b : Text) (f : AppWriteRequest → S → (AppWriteResponse × Error) × S) (req : AppWriteRequest)
      (resp : AppWriteResponse) (s s' : S)
      → h.app_write ≡ some f
      → h.app_write_codec.decode b ≡ ok req
      → f req s ≡ ((resp, none), s')
      → serve web h (app_write_request b) s
        ≡ (record { code = 200; is_json = true; body = h.app_write_codec.encode resp }, s')
  unfolding serve_app_write
  serve_app_write-ok b f req resp s s' has d e =
      serve-app_write b s
      ∙ rw (serve_app_write, has, d, ap (λ p. p.0.1) e, ap (λ p. p.0.0) e, ap (λ p. p.1) e) refl

  module _ (http : Http) (res : Response AppWriteResponse) (json : Json AppWriteRequest)
      (is_tls : Bool) (addr : Text) (fate : ℕ → Fate) (cancelled : ℕ → Option Text) (s : S)
      (b : Text) (f : AppWriteRequest → S → (AppWriteResponse × Error) × S)
      (req : AppWriteRequest) where
    -- The client's call, with the server at the other end of the network.
    abbrev pub call : AppWriteResponse × Error
    call =
        post_app_write http is_tls
          (post_attempts (serve web h (app_write_request b)) fate cancelled s) res json addr req

    pub post_app_write-serve :
        (n : ℕ) (lost : Option Text) (resp : AppWriteResponse) (s' : S)
        → http.new_request (url is_tls addr (codes "/appwrite")) ≡ none
        → json.marshal req ≡ ok b
        → h.app_write ≡ some f
        → h.app_write_codec.decode b ≡ ok req
        → res.decode_into (h.app_write_codec.encode resp) res.zero_value ≡ resp
        → n < 3
        → AllUnsent (serve web h (app_write_request b)) fate cancelled n
        → fate n ≡ answered lost
        → f req s ≡ ((resp, none), s')
        → IsResult (serve web h (app_write_request b)) fate resp lost call
          × (posted (serve web h (app_write_request b)) fate 3 s ≡ s')
    unfolding post_app_write
    post_app_write-serve n lost resp s' built enc has d back few before here e =
        let (p, q) =
          post-exchange (serve web h (app_write_request b)) fate http res (codes "appwrite")
            (url is_tls addr (codes "/appwrite")) b cancelled s n lost
            (h.app_write_codec.encode resp) true s' built few before here
            (serve_app_write-ok b f req resp s s' has d e) in
        (rw (post_app_write, enc, ← back) p, q)
