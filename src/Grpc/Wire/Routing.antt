-- ===== src/Grpc/Wire/Routing.antt =====
-- A call of a client, over the wire, is a call of the method that it means.
use go_cluster.Prelude.{Text, codes, ◌≡◌, refl, ap, ◌∙◌, none, some, ◌++◌, All}
use go_cluster.Result.{Result, ok, err, Error}
use go_cluster.Json.{Json}
use go_cluster.ReplServer.{Server}
use go_cluster.ReplServer
use go_cluster.Grpc.Management
use go_cluster.Grpc.Management.{
  Mgmt, handle, handle_get_status, handle_join, handle_leave, handle_app_write, handle_app_sync,
}
use go_cluster.Grpc.Wire.{
  Rpc, get_status, join, leave, app_write, app_sync, ack, Request, Response, Codecs, full_method,
  MethodDesc, ServiceDesc, on_app, encoded_by, handle_ack, handler_of, method_desc,
  management_service, replication_service, received, invoke,
}

-- The client sees an error of a handler as the status error that gRPC makes of its text.
abbrev pub as_status : {A X : Type 0} → (Text → Text) → Result A × X → Result A × X
as_status status_error (ok a, x) = (ok a, x)
as_status status_error (err e, x) = (err (status_error e), x)

-- What gRPC documents of a registered service: a request for `/service/method` is answered by the
-- method's handler, on a network that loses neither the request nor the reply.
abbrev pub IsServed :
    {X : Type 0} → (Text → Text) → (Text → Text → X → Result Text × X) → ServiceDesc X → Type 0
IsServed {X} status_error exchange d =
    All
      (λ (meth : MethodDesc X).
        (body : Text) (x : X)
        → exchange (codes "/" ++ d.service_name ++ codes "/" ++ meth.name) body x
          ≡ as_status status_error (meth.handler body x))
      d.methods

-- `a` is encoded, and decoded to itself.
abbrev pub Carries : {A : Type 0} → Json A → A → Type 0
Carries json a = (b : Text) × (json.marshal a ≡ ok b) × (json.unmarshal b ≡ ok a)

-- The method that a call means, on the server.
abbrev pub performed :
    {S : Type 0} → Mgmt S → (r : Rpc) → Request r → S × Server → Result (Response r) × (S × Server)
performed m get_status req x = on_app (Management.get_status m req) x
performed m join req x = on_app (Management.join m (some req)) x
performed m leave req x = on_app (Management.leave m (some req)) x
performed m app_write req x = on_app (Management.app_write m (some req)) x
performed m app_sync req x = on_app (Management.app_sync m (some req)) x
performed m ack req (s, server) = (ok tt, (s, ReplServer.ack (some req) server))

abbrev pub outcome : {A : Type 0} → (Text → Text) → A → Result A → A × Error
outcome status_error before (ok out) = (out, none)
outcome status_error before (err e) = (before, some (status_error e))

module _ {S : Type 0} (c : Codecs) (m : Mgmt S) where
  handler_of-ok :
      (r : Rpc) (req : Request r) (x : S × Server)
      → handler_of c m r (ok req) x ≡ performed m r req x
  unfolding handler_of handle_get_status handle_join handle_leave handle_app_write handle_app_sync
      handle handle_ack
  handler_of-ok get_status req x = refl
  handler_of-ok join req x = refl
  handler_of-ok leave req x = refl
  handler_of-ok app_write req x = refl
  handler_of-ok app_sync req x = refl
  handler_of-ok ack req x = refl

module _ {S : Type 0} (c : Codecs) (m : Mgmt S) (status_error : Text → Text)
    (exchange : Text → Text → S × Server → Result Text × (S × Server))
    (manages : IsServed status_error exchange (management_service c m))
    (replicates : IsServed status_error exchange (replication_service c m)) where
  -- The name that the client gives is the one that is registered.
  exchange-full_method :
      (r : Rpc) (body : Text) (x : S × Server)
      → exchange (full_method r) body x
        ≡ as_status status_error
            (encoded_by (c.response r) (handler_of c m r ((c.request r).unmarshal body) x))
  unfolding management_service replication_service method_desc
  exchange-full_method get_status body x = manages.0 body x
  exchange-full_method join body x = manages.1.0 body x
  exchange-full_method leave body x = manages.1.1.0 body x
  exchange-full_method app_write body x = manages.1.1.1.0 body x
  exchange-full_method app_sync body x = manages.1.1.1.1.0 body x
  exchange-full_method ack body x = replicates.0 body x

  received-encoded_by :
      (r : Rpc) (before : Response r) (p : Result (Response r) × (S × Server))
      → ((out : Response r) → p.0 ≡ ok out → Carries (c.response r) out)
      → (received (c.response r) before (as_status status_error (encoded_by (c.response r) p)).0
          ≡ outcome status_error before p.0)
        × ((as_status status_error (encoded_by (c.response r) p)).1 ≡ p.1)
  unfolding received
  received-encoded_by r before (err e, x) carried = (refl, refl)
  received-encoded_by r before (ok out, x) carried =
      let (b, written, read) = carried out refl in
      (rw (received, written, read) refl, rw written refl)

  -- On a network that loses nothing, with a codec that carries the request and the response: each
  -- call of a client, management or acknowledgement, has the response and the effect of the method
  -- that it means; the error of a method that fails is the status error that gRPC makes of it.
  pub invoke-performed :
      (r : Rpc) (before : Response r) (req : Request r) (x : S × Server)
      → Carries (c.request r) req
      → ((out : Response r) → (performed m r req x).0 ≡ ok out → Carries (c.response r) out)
      → invoke c exchange r before req x
        ≡ (outcome status_error before (performed m r req x).0, (performed m r req x).1)
  unfolding invoke
  invoke-performed r before req x (body, written, read) carried =
      let served =
        exchange-full_method r body x
        ∙ rw read (
            ap (λ p. as_status status_error (encoded_by (c.response r) p))
              (handler_of-ok c m r req x)) in
      let (answer, effect) = received-encoded_by r before (performed m r req x) carried in
      rw (invoke, written, served)
        (ap (λ a. (a, (as_status status_error (encoded_by (c.response r) (performed m r req x))).1))
            answer
          ∙ ap (λ y. (outcome status_error before (performed m r req x).0, y)) effect)
