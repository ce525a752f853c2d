-- ===== src/Memberlist/Tests.antt =====
-- A gossip instance that never changes, and the theorems of the membership layer applied.
use go_cluster.Prelude.{codes, false, none, some, List, [], ◌∷◌, ◌++◌, ◌≡◌, refl, arith}
use go_cluster.Prelude.Int.{pos}
use go_cluster.Result.{ok}
use go_cluster.Memberlist.{begin_leave, end_leave, Library, GossipNode, Config, Impl}
use go_cluster.Memberlist
use go_cluster.Channel.{close}
use go_cluster.Memberlist.Safety.{
  System, Action, IsSound, starts, stops, begins_leave, ends_leave, sees_join, sees_leave, step,
  run, run-IsSound,
}

abbrev config : Config
config = record {
  name = [];
  bind_addr = [];
  bind_port = pos 0;
  advertise_addr = [];
  advertise_port = pos 0;
  probe_interval = pos 0;
  probe_timeout = pos 0;
  suspicion_mult = pos 0;
  meta = [];
}

abbrev gossip_node : GossipNode
gossip_node = record { name = codes "b"; addr = codes "b"; port = 1; meta = codes "{}" }

abbrev library : Library
library = record {
  Memberlist = Unit;
  default_config = config;
  create = λ c. ok tt;
  join = λ seeds l. (none, l);
  local_node = λ l. gossip_node;
  members = λ l. gossip_node ∷ [];
  leave = λ l. l;
  health_score = λ l. pos 0;
  split_host_port = λ s. ok (s, s);
  join_host_port = λ a b. a ++ b;
  scan_int = λ s. ok (pos 7946);
  decode_meta = λ b. some [];
  encode_meta = λ m. codes "{}";
}

abbrev layer : Impl library
layer = record {
  opts = record {
    node_id = codes "a";
    bind = codes ":7946";
    advertise = [];
    meta = some [];
    probe_interval = pos 0;
    probe_timeout = pos 0;
    suspicion_mult = pos 0;
  };
  ml = none;
  evts = record { capacity = 64; items = []; closed = false };
  closed = false;
}

abbrev idle : System library
idle = record { impl = layer; leaving = none }

abbrev actions : List Action
actions =
    starts
    ∷ sees_join 1 gossip_node
    ∷ begins_leave
    ∷ ends_leave
    ∷ stops
    ∷ sees_leave 2 gossip_node
    ∷ stops
    ∷ []

-- A notification comes after the stop, and the end of the context stops the layer again.
run-IsSound_example :
    (x : System library) × (run library actions idle ≡ some x) × IsSound library x.impl
run-IsSound_example =
    run-IsSound library false actions idle
      (record {
        sound = record { closing = refl; fits = omega arith };
        known = λ p. absurd (ground (arith, p));
        same = λ c p. cc;
      })
      (refl, (refl, tt))

-- A stop in the middle of a leave makes the library panic.
leave_after_shutdown : run library (starts ∷ begins_leave ∷ stops ∷ ends_leave ∷ []) idle ≡ none
unfolding run step Memberlist.start Memberlist.configured Memberlist.endpoint begin_leave end_leave
    Memberlist.stop close
leave_after_shutdown = refl
