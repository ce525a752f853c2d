-- ===== src/Cluster/Serving/Forwarding.antt =====
-- A write that a follower forwards, over either transport.
use go_cluster.Prelude.{
  ℕ, Text, codes, is_empty, ◌≡◌, ◌≢◌, refl, ap, sym, ◌∙◌, Bool, true, false, Option, none, some, [],
  ◌∷◌, arith, Bool-cases, inl, inr,
}
use go_cluster.Result.{Result, ok, err, Error}
use go_cluster.Json.{Json}
use go_cluster.Transport.{AppWriteRequest, AppWriteResponse}
use go_cluster.Cluster.World.{Setup, Cluster, History, handles_write, posts_app_write}
use go_cluster.Cluster.Requests.{
  handle_app_write, write_outcome, app_write, forward_write, own_status, leader_mgmt,
}
use go_cluster.Cluster.Leadership.{leads}
use go_cluster.Cluster.Requests.Replies.{leads_now, asked, write_outcome-handle_app_write}
use go_cluster.Cluster.Serving.{Codecs, grpc_service, http_handlers, without_error}
use go_cluster.Grpc.Client.{Call, post_app_write}
use go_cluster.Grpc.Calling.{write_result, delivered, post_app_write-handle_app_write}
use go_cluster.HttpClient.{Http, Response, url}
use go_cluster.HttpServer.{Web}
use go_cluster.HttpServer.Exchange.{Fate}
use go_cluster.HttpServer.Exchange
use go_cluster.HttpServer.AppWrite.{call, post_app_write-serve}

-- A Go pair of a value and an error, as its callers read it.
abbrev pub received : AppWriteResponse × Error → Result AppWriteResponse
received (r, none) = ok r
received (r, some e) = err e

-- A gRPC call that reaches the leader and carries its response back; the client's `fmt.Errorf` leaves
-- the message of the response as it is, which has no verbs.
pub record GrpcPath (w : Setup) (s : Cluster) (req : AppWriteRequest) : Type 0 where
  pub errorf : Text → Text
  pub keeps : errorf (handle_app_write w req s).0.error ≡ (handle_app_write w req s).0.error
  pub carrier : Call AppWriteRequest AppWriteResponse
  pub fd : ℕ
  pub before : AppWriteResponse
  pub dialled : carrier.dialled ≡ ok fd
  pub invoked : carrier.invoke fd req ≡ delivered (grpc_service w) s before fd req

-- An HTTP call whose first attempt is delivered. The codecs of both sides carry the request and the
-- leader's response.
pub record HttpPath (w : Setup) (s : Cluster) (req : AppWriteRequest) : Type 0 where
  pub web : Web Cluster
  pub codecs : Codecs
  pub http : Http
  pub response : Response AppWriteResponse
  pub json : Json AppWriteRequest
  pub is_tls : Bool
  pub addr : Text
  pub fate : ℕ → Fate
  pub cancelled : ℕ → Option Text
  pub body : Text
  pub built : http.new_request (url is_tls addr (codes "/appwrite")) ≡ none
  pub marshalled : json.marshal req ≡ ok body
  pub decoded : codecs.app_write.decode body ≡ ok req
  pub carried :
      response.decode_into
        (codecs.app_write.encode (handle_app_write w req s).0)
        response.zero_value
      ≡ (handle_app_write w req s).0
  pub first : fate 0 ≡ Exchange.delivered

module _ (w : Setup) (s : Cluster) (req : AppWriteRequest) where
  abbrev pub over_grpc : GrpcPath w s req → Result AppWriteResponse
  over_grpc p = received (post_app_write p.errorf p.carrier req).0

  abbrev pub over_http : HttpPath w s req → Result AppWriteResponse
  over_http p = received (
      call p.web (http_handlers w p.codecs) p.http p.response p.json p.is_tls p.addr p.fate
        p.cancelled s p.body (λ r t. without_error (handle_app_write w r t)) req)

  write_outcome-received :
      (w' : Setup) (errorf : Text → Text) (r : AppWriteResponse)
      → errorf r.error ≡ r.error
      → write_outcome w' (received (write_result errorf r)) ≡ write_outcome w' (ok r)
  write_outcome-received w' errorf r keeps = elim (Bool-cases (is_empty r.error)) [
    | inl e ↦ rw e (rw e refl)
    | inr e ↦ rw e (ap err keeps)
  ]

  write_outcome-over_grpc :
      (w' : Setup) (p : GrpcPath w s req)
      → write_outcome w' (over_grpc p) ≡ write_outcome w' (ok (handle_app_write w req s).0)
  unfolding grpc_service
  write_outcome-over_grpc w' p =
      ap (λ r. write_outcome w' (received r.0))
        (post_app_write-handle_app_write (grpc_service w) s p.errorf p.carrier req p.fd p.before _
          refl p.dialled p.invoked (λ x e. cc))
      ∙ write_outcome-received w' p.errorf (handle_app_write w req s).0 p.keeps

  over_http-handle_app_write :
      (p : HttpPath w s req) → over_http p ≡ ok (handle_app_write w req s).0
  unfolding http_handlers
  over_http-handle_app_write p =
      ap received
        (post_app_write-serve p.web (http_handlers w p.codecs) p.http p.response p.json p.is_tls
          p.addr p.fate p.cancelled s p.body (λ r t. without_error (handle_app_write w r t)) req 0
          none (handle_app_write w req s).0 (handle_app_write w req s).1 p.built p.marshalled refl
          p.decoded p.carried (omega arith) (λ k low. ground arith) p.first refl).0

module _ (w : Setup) (s : Cluster) (w' : Setup) (op body : Text) (led : leads_now w s ≡ true)
    (handlers : w.opts.has_handlers ≡ true)
    (named : w.env.handler_write (handles_write op body ∷ asked w s) ≢ err []) where
  result_over_grpc :
      (p : GrpcPath w s (record { op = op; body = body }))
      → (app_write w op body s).0
        ≡ some (write_outcome w' (over_grpc w s (record { op = op; body = body }) p))
  result_over_grpc p =
      write_outcome-handle_app_write w s w' op body led handlers named
      ∙ ap some (sym (write_outcome-over_grpc w s (record { op = op; body = body }) w' p))

  result_over_http :
      (q : HttpPath w s (record { op = op; body = body }))
      → (app_write w op body s).0
        ≡ some (write_outcome w' (over_http w s (record { op = op; body = body }) q))
  result_over_http q =
      write_outcome-handle_app_write w s w' op body led handlers named
      ∙ ap (λ r. some (write_outcome w' r))
          (sym (over_http-handle_app_write w s (record { op = op; body = body }) q))

-- A node that does not lead and finds an address of the leader.
pub record IsFollower (w : Setup) (s : Cluster) : Type 0 where
  pub has_consensus : w.opts.has_consensus ≡ true
  pub has_client : w.opts.has_client ≡ true
  pub follows : leads_now w s ≡ false
  pub finds : is_empty (leader_mgmt w (leads w s).1).0 ≡ false

-- What the follower's client returns for a request to any address, whenever it is asked.
abbrev pub Answers : Setup → AppWriteRequest → Result AppWriteResponse → Type 0
Answers w req r = (addr : Text) (h : History) → w.env.app_write (posts_app_write addr req ∷ h) ≡ r

-- The follower's client reaches the leader, over gRPC or over HTTP.
pub data IsConnected (w : Setup) (s : Cluster) (w' : Setup) (req : AppWriteRequest) : Type 0 where
  by_grpc : (p : GrpcPath w s req) → Answers w' req (over_grpc w s req p) → IsConnected w s w' req
  by_http : (q : HttpPath w s req) → Answers w' req (over_http w s req q) → IsConnected w s w' req

app_write-follower :
    (w : Setup) (s : Cluster) (op body : Text) (r : Result AppWriteResponse)
    → IsFollower w s
    → Answers w (record { op = op; body = body }) r
    → (app_write w op body s).0 ≡ some (write_outcome w r)
unfolding app_write forward_write own_status leads
app_write-follower w s op body r f answers = ground (
  arith,
  f.has_consensus,
  f.has_client,
  f.follows,
  f.finds,
  answers (leader_mgmt w (leads w s).1).0 (leader_mgmt w (leads w s).1).1.calls,
)

pub app_write-forwarded :
    (w : Setup) (s : Cluster) (w' : Setup) (s' : Cluster) (op body : Text)
    → leads_now w s ≡ true
    → w.opts.has_handlers ≡ true
    → w.env.handler_write (handles_write op body ∷ asked w s) ≢ err []
    → IsFollower w' s'
    → IsConnected w s w' (record { op = op; body = body })
    → (app_write w' op body s').0 ≡ (app_write w op body s).0
app_write-forwarded w s w' s' op body led handlers named f (by_grpc p answers) =
    app_write-follower w' s' op body _ f answers
    ∙ sym (result_over_grpc w s w' op body led handlers named p)
app_write-forwarded w s w' s' op body led handlers named f (by_http q answers) =
    app_write-follower w' s' op body _ f answers
    ∙ sym (result_over_http w s w' op body led handlers named q)
