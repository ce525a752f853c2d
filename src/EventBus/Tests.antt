-- ===== src/EventBus/Tests.antt =====
-- A bus with one subscriber, and the theorems of the bus applied.
use go_cluster.Prelude.{nat_eq, none, some, [], ◌∷◌, ◌≡◌}
use go_cluster.EventBus.{Event, Bus, member_join, subscribe, empty}
use go_cluster.EventBus.Interleaving.{System, start, subscribes, cancels, closes, publishes, run}
use go_cluster.EventBus.Safety.{IsSafe, start-IsSafe, run-IsSafe}

abbrev event : Event
event = record { kind = member_join; at = 1; leader = none; member = none; term = 0 }

abbrev one_sub : Bus
one_sub = subscribe 0 empty

-- The subscriber is cancelled between two publications, and its channel closed after the second.
run-IsSafe_example :
    (s : System) × (run
        (subscribes ∷ publishes event ∷ cancels 0 ∷ publishes event ∷ closes 0 ∷ [])
        start
      ≡ some s)
    × IsSafe s
run-IsSafe_example =
    run-IsSafe (subscribes ∷ publishes event ∷ cancels 0 ∷ publishes event ∷ closes 0 ∷ []) start
      start-IsSafe
