-- ===== src/Cli/Tests.antt =====
-- The commands against the scenario's nodes.
use go_cluster.Prelude.{
  ℕ, zero, suc, ◌<◌, Text, codes, ◌≡◌, refl, false, some, none, [], arith, Option,
}
use go_cluster.Result.{ok, err}
use go_cluster.Transport.{JoinRequest, JoinResponse}
use go_cluster.HttpClient.{Http}
use go_cluster.HttpServer.{serve}
use go_cluster.HttpServer.Draining.{post_attempts}
use go_cluster.HttpServer.Exchange.{Fate, delivered, lost_reply, IsLost, attempts, state_before}
use go_cluster.HttpServer.Posting.{post_request}
use go_cluster.Bootstrap.Scenario.{disk}
use go_cluster.Cluster.World.{Cluster, fresh}
use go_cluster.Cluster.Leadership.{leads}
use go_cluster.Cluster.Requests.{handle_join, status_local_json}
use go_cluster.Cluster.Scenario.{leader_setup, follower_setup}
use go_cluster.Cluster.Serving.{http_handlers}
use go_cluster.Cluster.Serving.Scenario.{web, codecs}
use go_cluster.Cli.{
  JoinFlags, Remote, join_flags, status_flags, join, status, last_byte, client_tls,
}
use go_cluster.Cli.Served.{by_http, shows, join-handle_join}
use go_cluster.Cli.Status.{status_request, as_line, status-served}

abbrev http : Http
http = record { new_request = λ u. none; errorf = λ t. t }

abbrev join_b : JoinFlags
join_b = record join_flags { id = codes "b"; raft_addr = codes "b:1" }

abbrev request : JoinRequest
request = record { id = codes "b"; raft_addr = codes "b:1" }

-- A message is its text; the node that is asked does not lead.
abbrev join_remote : Remote JoinRequest JoinResponse
join_remote = record {
  http = http;
  response = record {
    zero_value = record { accepted = false; leader = []; error = [] };
    decode_into = λ b out. record out { leader = b; error = codes "not leader" };
    error = λ r. r.error;
  };
  json = record { marshal = λ r. ok r.id; unmarshal = λ b. err [] };
  attempts =
      post_attempts
        (serve web (http_handlers follower_setup codecs) (post_request (codes "/join") (codes "b")))
        (λ k. delivered) (λ k. none) fresh;
  call = record {
    dialled = err [];
    now = 1;
    later = 2;
    invoke = λ fd r. (record { accepted = false; leader = []; error = [] }, some []);
  };
  encode = λ r. (r.error, none);
}

abbrev first_attempt : ℕ → Fate
first_attempt zero = lost_reply (codes "EOF")
first_attempt (suc n) = delivered

first_attempt-IsLost :
    (k : ℕ) → k < 1 → IsLost (first_attempt k) × (◌≡◌ {A = Option Text} none none)
first_attempt-IsLost zero low = (tt, refl)
first_attempt-IsLost (suc k) low = ground arith

join_rejected :
    join_remote.response.decode_into
      (codecs.join.encode (handle_join follower_setup request fresh).0)
      join_remote.response.zero_value
    ≡ (handle_join follower_setup request fresh).0
unfolding handle_join leads
join_rejected = refl

join-handle_join_example :
    join disk join_b join_remote
    ≡ shows join_remote.encode (handle_join follower_setup request fresh).0
join-handle_join_example =
    join-handle_join disk follower_setup fresh web codecs join_b join_remote none refl refl
      (unfold client_tls in refl)
      (by_http refl (record {
        body = codes "b";
        fate = λ k. delivered;
        cancelled = λ k. none;
        built = refl;
        marshalled = refl;
        decoded = refl;
        back = join_rejected;
        answered = refl;
        first = refl;
      }))

-- The state of the node that is asked the second time.
abbrev asked_once : Cluster
asked_once =
    state_before (serve web (http_handlers leader_setup codecs) status_request) first_attempt 1
      fresh

marshalled :
    status_local_json leader_setup asked_once
    ≡ (ok [], (status_local_json leader_setup asked_once).1)
unfolding status_local_json
marshalled = refl

status-served_example :
    (status status_flags http (
        attempts
          (serve web (http_handlers leader_setup codecs) status_request)
          first_attempt
          (λ k. none)
          fresh)
      ≡ record { printed = as_line []; error = none })
    × (last_byte (as_line []) ≡ some 10)
status-served_example =
    status-served leader_setup web codecs status_flags http first_attempt (λ k. none) fresh 1 [] _
      refl (omega arith) first_attempt-IsLost refl marshalled
