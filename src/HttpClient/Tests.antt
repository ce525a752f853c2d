-- ===== src/HttpClient/Tests.antt =====
-- Replies to three attempts, and the theorems of the client applied.
use go_cluster.Prelude.{ℕ, Text, codes, ◌==◌, nat_eq, none, ◌≡◌, refl, arith, if◌then◌else◌, []}
use go_cluster.Result.{ok}
use go_cluster.HttpClient.{Http, Response, Attempts, post}
use go_cluster.HttpClient.Retries.{merged, post-merged}

abbrev http : Http
http = record { new_request = λ u. none; errorf = λ t. t }

-- A response that is the text of its body.
abbrev response : Response Text
response = record { zero_value = []; decode_into = λ b out. b; error = λ out. [] }

-- The first attempt is answered with 503, the second with `code`; no context is ever done.
abbrev attempts : ℕ → Attempts
attempts code = record {
  reply = λ i.
      ok (record { code = (if i == 0 then 503 else code); body = codes "x"; read_error = none });
  cancelled = λ i. none;
}

post-merged_example :
    post http response (codes "join") (attempts 200) (codes "u") (ok (codes "b"))
    ≡ (merged response (attempts 200) 2 0 [], none)
post-merged_example =
    post-merged http response (codes "join") (attempts 200) (codes "u") (codes "b") 1 refl
      (omega arith) (λ k low. (ground arith, refl)) refl
