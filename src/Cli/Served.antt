-- ===== src/Cli/Served.antt =====
-- The commands `join` and `leave` against the node that they name, over either protocol.
use go_cluster.Prelude.{
  ℕ, Text, codes, is_empty, ◌==◌, text_is_eq, ◌≡◌, refl, ap, ◌∙◌, Bool, true, false, Option, none,
  some, is_some,
}
use go_cluster.Prelude.Int.{ℤ}
use go_cluster.Result.{Result, ok, err, Error}
use go_cluster.Transport.{JoinRequest, JoinResponse, LeaveRequest, LeaveResponse}
use go_cluster.HttpClient.{url}
use go_cluster.HttpClient as HttpClient
use go_cluster.HttpServer.{Request, Answer, Codec, Web, serve, serve_join, serve_leave, serve_post}
use go_cluster.HttpServer.Exchange.{Fate, delivered}
use go_cluster.HttpServer.Draining.{post_attempts}
use go_cluster.HttpServer.Posting.{post_request, post-serve_post}
use go_cluster.GoMap.{lookup}
use go_cluster.ConnManager.{get, install, reuse}
use go_cluster.Grpc.Calling.{with_conn, call_managed-get, get_dialled}
use go_cluster.ConnManager as ConnManager
use go_cluster.Grpc.Client.{Client, Call, call_managed, use_tls, new_client}
use go_cluster.Grpc.Client as GrpcClient
use go_cluster.Grpc.Management as Management
use go_cluster.Cluster.World.{Setup, Cluster}
use go_cluster.Cluster.Requests.{handle_join, handle_leave}
use go_cluster.Cluster.Serving.{Codecs, grpc_service, http_handlers, without_error}
use go_cluster.Tls as Tls
use go_cluster.Cli.{
  Remote, Output, JoinFlags, LeaveFlags, reported, client_tls, post_join, post_leave, join, leave,
}

-- What `Invoke` leaves in the response, which held `before`.
abbrev pub invoked_result : {R : Type 0} → R → Result R → R × Error
invoked_result before (ok r) = (r, none)
invoked_result before (err e) = (before, some e)

-- A request that reaches its node at the first attempt over HTTP: the codecs of both sides carry the
-- request and the response `resp`. `serves` is the node's server.
pub record ByHttp {Req R : Type 0} (path : Text) (codec : Codec Req R)
    (serves : Request → Cluster → Answer × Cluster) (s : Cluster) (resp : R) (r : Remote Req R)
    (is_tls : Bool) (addr : Text) (req : Req) : Type 0 where
  pub body : Text
  pub fate : ℕ → Fate
  pub cancelled : ℕ → Option Text
  pub built : r.http.new_request (url is_tls addr path) ≡ none
  pub marshalled : r.json.marshal req ≡ ok body
  pub decoded : codec.decode body ≡ ok req
  pub back : r.response.decode_into (codec.encode resp) r.response.zero_value ≡ resp
  pub answered : r.attempts ≡ post_attempts (serves (post_request path body)) fate cancelled s
  pub first : fate 0 ≡ delivered

-- A request that reaches its node over gRPC; `service` is the result of the method.
pub record ByGrpc {Req R : Type 0} (service : Result R) (r : Remote Req R) (req : Req)
    : Type 0 where
  pub fd : ℕ
  pub before : R
  pub dialled : r.call.dialled ≡ ok fd
  pub invoked : r.call.invoke fd req ≡ invoked_result before service

-- A request that its node gets over the protocol of the flags.
pub data Carried {Req R : Type 0} (proto path : Text) (codec : Codec Req R)
    (serves : Request → Cluster → Answer × Cluster) (service : Result R) (s : Cluster) (resp : R)
    (r : Remote Req R) (is_tls : Bool) (addr : Text) (req : Req) : Type 0 where
  by_http :
      (proto == codes "grpc") ≡ false
      → ByHttp path codec serves s resp r is_tls addr req
      → Carried proto path codec serves service s resp r is_tls addr req
  by_grpc :
      (proto == codes "grpc") ≡ true
      → ByGrpc service r req
      → Carried proto path codec serves service s resp r is_tls addr req

-- The output of a command that has got a response.
abbrev pub shows : {R : Type 0} → (R → Text × Error) → R → Output
shows encode resp = record { printed = (encode resp).0; error = (encode resp).1 }

call_managed-invoke :
    {Req R : Type 0} (zero_value : R) (w : Call Req R) (addr : Text) (req : Req) (is_tls : Bool)
    (timeout : ℤ) (fd : ℕ) (resp : R)
    → w.dialled ≡ ok fd
    → w.invoke fd req ≡ (resp, none)
    → (call_managed zero_value w addr req (use_tls is_tls (new_client timeout))).0 ≡ (resp, none)
unfolding use_tls new_client install reuse lookup ConnManager.new
call_managed-invoke zero_value w addr req is_tls timeout fd resp dial e =
    ap (λ r. r.0)
      (call_managed-get zero_value w addr req (use_tls is_tls (new_client timeout))
        ∙ ap (with_conn zero_value w addr req (use_tls is_tls (new_client timeout)))
            (get_dialled addr w.dialled w.now fd _ refl dial))
    ∙ e

module _ {Cert : Type 0} (disk : Tls.Disk Cert) (w : Setup) (s : Cluster) (web : Web Cluster)
    (codecs : Codecs) where
  -- `req` stands for the request that the flags describe.
  abbrev pub JoinCarried : JoinFlags → Bool → Remote JoinRequest JoinResponse → JoinRequest → Type 0
  JoinCarried f is_tls r req =
      Carried f.mgmt_proto (codes "/join") codecs.join (serve web (http_handlers w codecs))
        (Management.handle_join (grpc_service w) (ok req) none s).0 s (handle_join w req s).0 r
        is_tls f.addr req

  serve-join :
      (b : Text) (t : Cluster)
      → serve web (http_handlers w codecs) (post_request (codes "/join") b) t
        ≡ serve_post web
            (codes "join")
            codecs.join
            (λ resp e. resp)
            (some (λ r u. without_error (handle_join w r u)))
            (post_request (codes "/join") b)
            t
  unfolding serve serve_join http_handlers
  serve-join b t = refl

  post_join-handle_join :
      (f : JoinFlags) (is_tls : Bool) (r : Remote JoinRequest JoinResponse) (req : JoinRequest)
      → JoinCarried f is_tls r req
      → post_join disk f is_tls r req ≡ ((handle_join w req s).0, none)
  unfolding post_join HttpClient.post_join GrpcClient.post_join Management.handle_join
      Management.handle Management.join grpc_service
  post_join-handle_join f is_tls r req (by_http proto p) =
      rw (proto, post_join, p.marshalled, p.answered)
        (post-serve_post web (codes "join") (codes "/join") codecs.join (λ resp e. resp)
          (λ r u. without_error (handle_join w r u)) r.http r.response (codes "join")
          (url is_tls f.addr (codes "/join")) p.body (serve web (http_handlers w codecs))
          (some (λ r u. without_error (handle_join w r u))) p.fate p.cancelled req
          (handle_join w req s).0 s (handle_join w req s).1 (serve-join p.body) p.built refl
          p.decoded p.back p.first refl).0
  post_join-handle_join f is_tls r req (by_grpc proto p) =
      rw (proto, post_join)
        (call_managed-invoke _ r.call f.addr req is_tls f.timeout p.fd (handle_join w req s).0
          p.dialled p.invoked)

  -- A `join` with its flags and a TLS configuration that can be made, whose request reaches a node,
  -- over HTTP or over gRPC, writes that node's response, and fails only if the writing does: a node
  -- that does not lead rejects the join, and the command succeeds all the same.
  pub join-handle_join :
      (f : JoinFlags) (r : Remote JoinRequest JoinResponse) (cfg : Option (Tls.Config Cert))
      → is_empty f.id ≡ false
      → is_empty f.raft_addr ≡ false
      → client_tls disk f.tls ≡ ok cfg
      → JoinCarried f (is_some cfg) r (record { id = f.id; raft_addr = f.raft_addr })
      → join disk f r
        ≡ shows r.encode (handle_join w (record { id = f.id; raft_addr = f.raft_addr }) s).0
  join-handle_join f r cfg id addr tls c =
      let req : JoinRequest = record { id = f.id; raft_addr = f.raft_addr } in
      unfold join in
      rw (join, id, addr, tls)
        (ap (reported (codes "join") r.encode) (post_join-handle_join f (is_some cfg) r req c))

  abbrev pub LeaveCarried :
      LeaveFlags → Bool → Remote LeaveRequest LeaveResponse → LeaveRequest → Type 0
  LeaveCarried f is_tls r req =
      Carried f.mgmt_proto (codes "/leave") codecs.leave (serve web (http_handlers w codecs))
        (Management.handle_leave (grpc_service w) (ok req) none s).0 s (handle_leave w req s).0 r
        is_tls f.addr req

  serve-leave :
      (b : Text) (t : Cluster)
      → serve web (http_handlers w codecs) (post_request (codes "/leave") b) t
        ≡ serve_post web
            (codes "leave")
            codecs.leave
            (λ resp e. resp)
            (some (λ r u. without_error (handle_leave w r u)))
            (post_request (codes "/leave") b)
            t
  unfolding serve serve_leave http_handlers
  serve-leave b t = refl

  post_leave-handle_leave :
      (f : LeaveFlags) (is_tls : Bool) (r : Remote LeaveRequest LeaveResponse) (req : LeaveRequest)
      → LeaveCarried f is_tls r req
      → post_leave disk f is_tls r req ≡ ((handle_leave w req s).0, none)
  unfolding post_leave HttpClient.post_leave GrpcClient.post_leave Management.handle_leave
      Management.handle Management.leave grpc_service
  post_leave-handle_leave f is_tls r req (by_http proto p) =
      rw (proto, post_leave, p.marshalled, p.answered)
        (post-serve_post web (codes "leave") (codes "/leave") codecs.leave (λ resp e. resp)
          (λ r u. without_error (handle_leave w r u)) r.http r.response (codes "leave")
          (url is_tls f.addr (codes "/leave")) p.body (serve web (http_handlers w codecs))
          (some (λ r u. without_error (handle_leave w r u))) p.fate p.cancelled req
          (handle_leave w req s).0 s (handle_leave w req s).1 (serve-leave p.body) p.built refl
          p.decoded p.back p.first refl).0
  post_leave-handle_leave f is_tls r req (by_grpc proto p) =
      rw (proto, post_leave)
        (call_managed-invoke _ r.call f.addr req is_tls f.timeout p.fd (handle_leave w req s).0
          p.dialled p.invoked)

  -- A `leave` with an ID and a TLS configuration that can be made, whose request reaches a node, over
  -- HTTP or over gRPC, writes that node's response, and fails only if the writing does.
  pub leave-handle_leave :
      (f : LeaveFlags) (r : Remote LeaveRequest LeaveResponse) (cfg : Option (Tls.Config Cert))
      → is_empty f.id ≡ false
      → client_tls disk f.tls ≡ ok cfg
      → LeaveCarried f (is_some cfg) r (record { id = f.id })
      → leave disk f r ≡ shows r.encode (handle_leave w (record { id = f.id }) s).0
  leave-handle_leave f r cfg id tls c =
      unfold leave in
      rw (leave, id, tls)
        (ap (reported (codes "leave") r.encode)
          (post_leave-handle_leave f (is_some cfg) r (record { id = f.id }) c))
