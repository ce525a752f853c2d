-- ===== src/Grpc/Wire/Tests.antt =====
-- A leave request over a network that routes by the names of the descriptors.
use go_cluster.Prelude.{
  ℕ, nat_eq, Bool, Text, codes, text_is_eq, ◌==◌, true, false, none, some, List, [], ◌∷◌, ◌++◌, ◌≡◌,
  refl, if◌then◌else◌,
}
use go_cluster.Result.{Result, ok, err}
use go_cluster.Json.{Json}
use go_cluster.Transport.{LeaveRequest, LeaveResponse}
use go_cluster.ReplServer.{Server, new_server}
use go_cluster.Grpc.Management.{Mgmt}
use go_cluster.Grpc.Wire.{
  Rpc, get_status, join, leave, app_write, app_sync, ack, Request, Response, Codecs, MethodDesc,
  ServiceDesc, management_service, replication_service, invoke, method_desc,
}
use go_cluster.Grpc.Wire.Routing.{as_status, Carries, outcome, performed, invoke-performed}

abbrev mute : {A : Type 0} → Json A
mute = record { marshal = λ a. ok []; unmarshal = λ b. err [] }

abbrev request : (r : Rpc) → Json (Request r)
request get_status = mute
request join = mute
request leave = record { marshal = λ q. ok q.id; unmarshal = λ b. ok (record { id = b }) }
request app_write = mute
request app_sync = mute
request ack = mute

-- A leave response is a digit in front of its error.
abbrev digit : Bool → ℕ
digit true = b'1'
digit false = b'0'

abbrev decode_leave : Text → Result LeaveResponse
decode_leave [] = err (codes "empty")
decode_leave (d ∷ e) = ok (record { accepted = d == b'1'; error = e })

abbrev response : (r : Rpc) → Json (Response r)
response get_status = mute
response join = mute
response leave = record { marshal = λ a. ok (digit a.accepted ∷ a.error); unmarshal = decode_leave }
response app_write = mute
response app_sync = mute
response ack = mute

abbrev codecs : Codecs
codecs = record { request = request; response = response }

-- The state is the ID of the last node that asked to leave.
abbrev service : Mgmt Text
service = record {
  status = λ s. (err [], s);
  join = λ q s. (err [], s);
  leave = some (λ q s. (err (codes "not leader"), q.id));
  app_write = none;
  app_sync = none;
}

abbrev find_method : {X : Type 0} → Text → List (MethodDesc X) → Text → X → Result Text × X
find_method name [] body x = (err (codes "unimplemented"), x)
find_method name (d ∷ ds) body x =
    if name == d.name then d.handler body x else find_method name ds body x

-- The part of a path behind the service's.
abbrev behind : Text → Text → Text
behind [] path = path
behind (a ∷ prefix) [] = []
behind (a ∷ prefix) (b ∷ path) = behind prefix path

-- gRPC puts its code in front of the text.
abbrev status_error : Text → Text
status_error e = codes "rpc error: code = Unknown desc = " ++ e

abbrev served : {X : Type 0} → List (ServiceDesc X) → Text → Text → X → Result Text × X
served [] path body x = (err (codes "unimplemented"), x)
served (d ∷ ds) path body x =
    let prefix = codes "/" ++ d.service_name ++ codes "/" in
    if path == prefix ++ behind prefix path
    then as_status status_error (find_method (behind prefix path) d.methods body x)
    else served ds path body x

abbrev exchange : Text → Text → Text × Server → Result Text × (Text × Server)
exchange = served (management_service codecs service ∷ replication_service codecs service ∷ [])

abbrev before : LeaveResponse
before = record { accepted = true; error = [] }

abbrev node_b : LeaveRequest
node_b = record { id = codes "b" }

carried :
    (accepted : Bool) (e : Text)
    → Carries (response leave) (record { accepted = accepted; error = e })
carried true e = (b'1' ∷ e, refl, refl)
carried false e = (b'0' ∷ e, refl, refl)

invoke-performed_example : invoke codecs exchange leave before node_b ([], new_server) ≡ (
  outcome status_error before (performed service leave node_b ([], new_server)).0,
  (performed service leave node_b ([], new_server)).1,
)
unfolding management_service replication_service method_desc
invoke-performed_example =
    invoke-performed codecs service status_error exchange
      (λ b x. refl, (λ b x. refl, (λ b x. refl, (λ b x. refl, (λ b x. refl, tt)))))
      (λ b x. refl, tt) leave before node_b ([], new_server) (codes "b", refl, refl)
      (λ out e. carried out.accepted out.error)
