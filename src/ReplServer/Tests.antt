-- ===== src/ReplServer/Tests.antt =====
-- A server with two subscribers and two acknowledgements, and the theorems of the server applied.
use go_cluster.Prelude.{
  ℕ, ◌-◌, ◌^◌, leb, arith, List, codes, nat_eq, text_is_eq, ◌==◌, Bool, ◌&&◌, true, none, some, [],
  ◌∷◌, ◌≡◌, refl, if◌then◌else◌, or_zero, length, contains,
}
use go_cluster.GoMap.{lookup, insert, has}
use go_cluster.ReplServer.{
  Server, RepMsg, RepAck, broadcast_with_seq, ack, min_ack, min_loop, new_server,
}
use go_cluster.ReplServer.Gauges.{Gauges, gauge, node_gauge, ack_metered}
use go_cluster.ReplServer.Lag.{ack_metered_lem}
use go_cluster.ReplServer.Streams.{
  System, Action, IsLive, starts, stops, enters, leaves, broadcasts, run, run-IsLive,
}
use go_cluster.ReplServer.Broadcasts.{broadcast_with_seq_lem}

abbrev server : Server
server = record {
  running = true;
  subs = some ((1, codes "b") ∷ (2, codes "c") ∷ []);
  seq = (codes "t", 4) ∷ [];
  ack = (codes "t", (codes "b", 3) ∷ (codes "c", 2) ∷ []) ∷ [];
}

-- Only the subscriber 2 can be reached.
abbrev reaches : ℕ → Bool
reaches n = n == 2

abbrev msg : RepMsg
msg = record { topic = codes "t"; body = codes "x"; seq = 5 }

abbrev late : RepAck
late = record { topic = codes "t"; seq = 1; node_id = codes "b" }

broadcast_with_seq_lem_example :
    ((broadcast_with_seq reaches msg server).0 ≡ length (broadcast_with_seq reaches msg server).2)
    × ((sub : ℕ)
        → contains sub (broadcast_with_seq reaches msg server).2
          ≡ (has sub ((1, codes "b") ∷ (2, codes "c") ∷ []) && reaches sub))
    × ((sub : ℕ)
        → lookup sub (or_zero [] (broadcast_with_seq reaches msg server).1.subs)
          ≡ (if reaches sub then lookup sub ((1, codes "b") ∷ (2, codes "c") ∷ []) else none))
    × ((broadcast_with_seq reaches msg server).1.seq ≡ insert (codes "t") 5 server.seq)
    × ((broadcast_with_seq reaches msg server).1.ack ≡ server.ack)
broadcast_with_seq_lem_example =
    broadcast_with_seq_lem reaches msg server ((1, codes "b") ∷ (2, codes "c") ∷ []) refl

-- A node is ahead of the last number, which a retry round has set back.
abbrev ahead : RepAck
ahead = record { topic = codes "t"; seq = 9; node_id = codes "b" }

abbrev gauges : Gauges
gauges = record {
  broadcast_total = [];
  ack_total = [];
  ack_per_node_total = [];
  seq = [];
  ack_seq = [];
  lag = [];
  ack_seq_per_node = [];
  lag_per_node = [];
}

last_is_4 : gauge (codes "t") server.seq ≡ 4
unfolding lookup
last_is_4 = refl

least_is_2 : min_ack (codes "t") (ack (some ahead) server) ≡ 2
unfolding min_ack min_loop ack insert lookup
least_is_2 = refl

ack_metered_lem_example :
    (gauge (codes "t") (ack_metered ahead server gauges).1.lag
      ≡ gauge (codes "t") server.seq - min_ack (codes "t") (ack (some ahead) server))
    × (node_gauge (codes "t") (codes "b") (ack_metered ahead server gauges).1.lag_per_node ≡ (
        if leb 9 (gauge (codes "t") server.seq)
        then gauge (codes "t") server.seq - 9
        else 2 ^ 64 - (9 - gauge (codes "t") server.seq)))
ack_metered_lem_example =
    ack_metered_lem ahead server gauges refl refl (omega arith) (omega (arith, last_is_4))
      (omega (arith, last_is_4, least_is_2))

abbrev before_start : System
before_start = record { server = new_server; open_streams = [] }

before_start-IsLive : IsLive before_start
unfolding lookup
before_start-IsLive = record { at = λ sub e. ground (arith, e) }

abbrev traffic : List Action
traffic =
    starts
    ∷ enters 1 none (codes "b")
    ∷ enters 2 none (codes "c")
    ∷ broadcasts reaches msg
    ∷ leaves 1
    ∷ stops
    ∷ []

run-IsLive_example : IsLive (run traffic before_start)
run-IsLive_example = run-IsLive traffic before_start before_start-IsLive
