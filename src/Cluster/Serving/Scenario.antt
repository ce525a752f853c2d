-- ===== src/Cluster/Serving/Scenario.antt =====
-- A management endpoint over HTTP whose messages are texts, for the witnesses.
use go_cluster.Prelude.{Text, codes, false, []}
use go_cluster.Result.{ok}
use go_cluster.Cluster.World.{Cluster}
use go_cluster.Cluster.Serving.{Codecs}
use go_cluster.HttpServer.{Web, Codec}

abbrev pub web : Web Cluster
web = record {
  error_body = λ t. t;
  metrics = λ r s. (record { code = 200; is_json = false; body = [] }, s);
  not_found = λ r. record { code = 404; is_json = false; body = [] };
}

-- A message is its text.
abbrev pub codec : {Req R : Type 0} → (Text → Req) → (R → Text) → Codec Req R
codec read write = record { decode = λ b. ok (read b); encode = write }

abbrev pub codecs : Codecs
codecs = record {
  join = codec (λ b. record { id = b; raft_addr = codes "b:1" }) (λ r. r.leader);
  leave = codec (λ b. record { id = b }) (λ r. r.error);
  app_write = codec (λ b. record { op = codes "put"; body = b }) (λ r. r.body);
  app_sync = codec (λ b. record { topic = b; body = [] }) (λ r. r.error);
}
