-- ===== src/Grpc/Wire.antt =====
-- pkg/transport/grpc, as calls look on a connection: the descriptors of the services (server.go), the
-- methods that the clients name (client.go, replication_client.go), and the codec (jsoncodec.go).
-- Routing by gRPC and the network are the parameter `exchange`; encoding/json is the codecs.
pub mod Routing
mod Tests
use go_cluster.Prelude.{Text, codes, ◌≡◌, refl, ap, ◌∙◌, none, some, List, [], ◌∷◌, ◌++◌, All}
use go_cluster.Result.{Result, ok, err, Error, Result-cases}
use go_cluster.Json.{Json}
use go_cluster.Transport.{
  JoinRequest, JoinResponse, LeaveRequest, LeaveResponse, AppWriteRequest, AppWriteResponse,
  AppSyncRequest, AppSyncResponse,
}
use go_cluster.ReplServer.{RepAck, Server}
use go_cluster.ReplServer
use go_cluster.Grpc.Management
use go_cluster.Grpc.Management.{
  Mgmt, handle, handle_get_status, handle_join, handle_leave, handle_app_write, handle_app_sync,
}

-- The calls with one request and one response.
pub data Rpc : Type 0 where
  get_status join leave app_write app_sync ack : Rpc

abbrev pub Request : Rpc → Type 0
Request get_status = Unit
Request join = JoinRequest
Request leave = LeaveRequest
Request app_write = AppWriteRequest
Request app_sync = AppSyncRequest
Request ack = RepAck

-- A `statusBlob` is its bytes.
abbrev pub Response : Rpc → Type 0
Response get_status = Text
Response join = JoinResponse
Response leave = LeaveResponse
Response app_write = AppWriteResponse
Response app_sync = AppSyncResponse
Response ack = Unit

-- `jsonCodec` at the messages.
pub record Codecs : Type 0 where
  pub request : (r : Rpc) → Json (Request r)
  pub response : (r : Rpc) → Json (Response r)

-- The method that a client gives to `Invoke`.
abbrev pub full_method : Rpc → Text
full_method get_status = codes "/cluster.v1.Management/GetStatus"
full_method join = codes "/cluster.v1.Management/Join"
full_method leave = codes "/cluster.v1.Management/Leave"
full_method app_write = codes "/cluster.v1.Management/AppWrite"
full_method app_sync = codes "/cluster.v1.Management/AppSync"
full_method ack = codes "/cluster.v1.Replication/Ack"

-- A method as gRPC registers it: from the bytes of a request to those of a response.
pub record MethodDesc (X : Type 0) : Type 0 where
  pub name : Text
  pub handler : Text → X → Result Text × X

pub record ServiceDesc (X : Type 0) : Type 0 where
  pub service_name : Text
  pub methods : List (MethodDesc X)
  pub streams : List Text

abbrev encoded_by : {A X : Type 0} → Json A → Result A × X → Result Text × X
encoded_by json (err e, x) = (err e, x)
encoded_by json (ok a, x) = (json.marshal a, x)

-- A state of the application next to the replication part of the server.
abbrev pub on_app : {A S : Type 0} → (S → Result A × S) → S × Server → Result A × (S × Server)
on_app f (s, server) = let (r, s') = f s in (r, (s', server))

-- `Ack`, on the decoded request, without an interceptor.
unfoldable pub handle_ack :
    {S : Type 0} → Result RepAck → S × Server → Result (Unit {0}) × (S × Server)
unfolding ReplServer.ack
handle_ack (err e) x = (err e, x)
handle_ack (ok a) (s, server) = (ok tt, (s, ReplServer.ack (some a) server))

module _ {S : Type 0} (c : Codecs) (m : Mgmt S) where
  -- The handler of a call, on what `dec` makes of the request.
  unfoldable pub handler_of :
      (r : Rpc) → Result (Request r) → S × Server → Result (Response r) × (S × Server)
  unfolding handle_get_status handle_join handle_leave handle_app_write handle_app_sync handle_ack
  handler_of get_status req x = on_app (handle_get_status m req none) x
  handler_of join req x = on_app (handle_join m req none) x
  handler_of leave req x = on_app (handle_leave m req none) x
  handler_of app_write req x = on_app (handle_app_write m req none) x
  handler_of app_sync req x = on_app (handle_app_sync m req none) x
  handler_of ack req x = handle_ack req x

  -- An entry of a descriptor.
  unfoldable pub method_desc : Text → Rpc → MethodDesc (S × Server)
  unfolding handler_of
  method_desc name r = record {
    name = name;
    handler = λ body x. encoded_by (c.response r) (handler_of r ((c.request r).unmarshal body) x);
  }

  -- `_Management_serviceDesc`
  unfoldable pub management_service : ServiceDesc (S × Server)
  unfolding method_desc
  management_service = record {
    service_name = codes "cluster.v1.Management";
    methods =
        method_desc (codes "GetStatus") get_status
        ∷ method_desc (codes "Join") join
        ∷ method_desc (codes "Leave") leave
        ∷ method_desc (codes "AppWrite") app_write
        ∷ method_desc (codes "AppSync") app_sync
        ∷ [];
    streams = [];
  }

  -- `_Replication_serviceDesc`
  unfoldable pub replication_service : ServiceDesc (S × Server)
  unfolding method_desc
  replication_service = record {
    service_name = codes "cluster.v1.Replication";
    methods = method_desc (codes "Ack") ack ∷ [];
    streams = codes "Subscribe" ∷ [];
  }

-- What `Invoke` with the JSON codec makes of the bytes or of the status error that come back;
-- `before` is what the response holds.
unfoldable pub received : {A : Type 0} → Json A → A → Result Text → A × Error
received json before (err e) = (before, some e)
received json before (ok b) = elim (json.unmarshal b) [
  | err e ↦ (before, some e)
  | ok a ↦ (a, none)
]

unfoldable pub invoke :
    {X : Type 0}
    → Codecs
    → (Text → Text → X → Result Text × X)
    → (r : Rpc) → Response r
    → Request r
    → X
    → (Response r × Error) × X
unfolding received
invoke c exchange r before req x = elim ((c.request r).marshal req) [
  | err e ↦ ((before, some e), x)
  | ok body ↦
      let (back, x') = exchange (full_method r) body x in (received (c.response r) before back, x')
]
