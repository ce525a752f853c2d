-- ===== src/Cluster/Serving/Tests.antt =====
-- A write that the leader handles, forwarded over either transport.
use go_cluster.Prelude.{true, none, codes, ◌≡◌, refl, [], ◌∷◌, text_is_eq}
use go_cluster.Result.{Result, ok, err}
use go_cluster.Transport.{AppWriteRequest, AppWriteResponse}
use go_cluster.Cluster.World.{Setup, History, fresh, posts_app_write}
use go_cluster.Cluster.Scenario.{leader_setup, follower_setup}
use go_cluster.Cluster.Requests.{handle_app_write, app_write, leader_mgmt}
use go_cluster.Cluster.Leadership.{leads, lookup_member_addr, find_addr, mgmt_addr}
use go_cluster.GoMap.{lookup}
use go_cluster.Cluster.Serving.{grpc_service}
use go_cluster.Cluster.Serving.Forwarding.{
  GrpcPath, HttpPath, over_http, IsFollower, IsConnected, received, app_write-forwarded,
}
use go_cluster.Grpc.Client.{Call, post_app_write}
use go_cluster.Grpc.Calling.{delivered}
use go_cluster.Json.{Json}
use go_cluster.Cluster.Serving.Scenario.{web, codecs}
use go_cluster.HttpClient.{Http, Response}
use go_cluster.HttpServer.Exchange

abbrev put : AppWriteRequest
put = record { op = codes "put"; body = codes "x" }

abbrev unset : AppWriteResponse
unset = record { body = []; error = [] }

abbrev carrier : Call AppWriteRequest AppWriteResponse
carrier = record {
  dialled = ok 7;
  now = 1;
  later = 2;
  invoke = delivered (grpc_service leader_setup) fresh unset;
}

abbrev by_grpc : GrpcPath leader_setup fresh put
by_grpc = record {
  errorf = λ t. t;
  keeps = refl;
  carrier = carrier;
  fd = 7;
  before = unset;
  dialled = refl;
  invoked = refl;
}

-- The follower's client posts a write over the carrier.
abbrev answer : History → Result AppWriteResponse
answer (posts_app_write addr req ∷ h) = received (post_app_write (λ t. t) carrier req).0
answer _ = err []

abbrev follower : Setup
follower = record follower_setup { env = record follower_setup.env { app_write = answer } }

abbrev http : Http
http = record { new_request = λ u. none; errorf = λ t. t }

abbrev response : Response AppWriteResponse
response = record {
  zero_value = unset;
  decode_into = λ b out. record out { body = b };
  error = λ r. r.error;
}

abbrev json : Json AppWriteRequest
json = record { marshal = λ r. ok r.body; unmarshal = λ b. err [] }

carried :
    response.decode_into
      (codecs.app_write.encode (handle_app_write leader_setup put fresh).0)
      response.zero_value
    ≡ (handle_app_write leader_setup put fresh).0
unfolding handle_app_write leads
carried = refl

abbrev by_http : HttpPath leader_setup fresh put
by_http = record {
  web = web;
  codecs = codecs;
  http = http;
  response = response;
  json = json;
  is_tls = true;
  addr = codes "b";
  fate = λ k. Exchange.delivered;
  cancelled = λ k. none;
  body = codes "x";
  built = refl;
  marshalled = refl;
  decoded = refl;
  carried = carried;
  first = refl;
}

abbrev follower_http : Setup
follower_http = record follower_setup {
  env = record follower_setup.env { app_write = λ h. over_http leader_setup fresh put by_http };
}

follower_http-IsFollower : IsFollower follower_http fresh
unfolding leader_mgmt lookup_member_addr leads lookup find_addr mgmt_addr
follower_http-IsFollower = record {
  has_consensus = refl;
  has_client = refl;
  follows = refl;
  finds = refl;
}

-- The same over HTTP.
forwarded_http :
    (app_write follower_http (codes "put") (codes "x") fresh).0
    ≡ (app_write leader_setup (codes "put") (codes "x") fresh).0
forwarded_http =
    app_write-forwarded leader_setup fresh follower_http fresh (codes "put") (codes "x") refl refl
      (λ e. cc) follower_http-IsFollower (IsConnected.by_http by_http (λ addr h. refl))
