-- ===== src/HttpServer/Tests.antt =====
-- A write to a server that counts its writes, that is not reached at first.
use go_cluster.Prelude.{ℕ, zero, suc, Text, codes, some, none, [], false, Option}
use go_cluster.Result.{ok, err, Error}
use go_cluster.Json.{Json}
use go_cluster.Transport.{AppWriteRequest, AppWriteResponse}
use go_cluster.HttpClient.{Http, Response}
use go_cluster.HttpServer.{Handlers, Web, Codec}
use go_cluster.HttpServer.Exchange.{Fate, delivered, unsent}

abbrev web : Web ℕ
web = record {
  error_body = λ t. t;
  metrics = λ r s. (record { code = 200; is_json = false; body = [] }, s);
  not_found = λ r. record { code = 404; is_json = false; body = [] };
}

-- A message is its text.
abbrev codec : {Req R : Type 0} → (Text → Req) → (R → Text) → Codec Req R
codec read write = record { decode = λ b. ok (read b); encode = write }

abbrev count : Error → AppWriteRequest → ℕ → (AppWriteResponse × Error) × ℕ
count e req n = ((record { body = req.body; error = [] }, e), suc n)

abbrev handlers : Error → Handlers ℕ
handlers e = record {
  status = λ s. (ok [], s);
  join = none;
  leave = none;
  app_write = some (count e);
  app_sync = none;
  join_codec = codec (λ b. record { id = b; raft_addr = [] }) (λ r. r.leader);
  leave_codec = codec (λ b. record { id = b }) (λ r. r.error);
  app_write_codec = codec (λ b. record { op = codes "op"; body = b }) (λ r. r.body);
  app_sync_codec = codec (λ b. record { topic = b; body = [] }) (λ r. r.error);
}

abbrev http : Http
http = record { new_request = λ u. none; errorf = λ t. t }

abbrev response : Response AppWriteResponse
response = record {
  zero_value = record { body = []; error = [] };
  decode_into = λ b out. record out { body = b };
  error = λ r. r.error;
}

abbrev json : Json AppWriteRequest
json = record { marshal = λ r. ok r.body; unmarshal = λ b. err [] }

abbrev request : AppWriteRequest
request = record { op = codes "op"; body = codes "x" }

-- There is no connection at first.
abbrev fate : ℕ → Fate
fate zero = unsent (codes "refused")
fate (suc n) = delivered

-- The context is never done.
abbrev cancelled_never : ℕ → Option Text
cancelled_never k = none
