-- ===== src/ConnManager/Tests.antt =====
-- A cache with one connection that is out, and the theorems of the cache applied.
use go_cluster.Prelude.{codes, text_is_eq, false, List, [], ◌∷◌, ◌⊎◌, ◌≡◌, refl, arith}
use go_cluster.GoMap.{lookup}
use go_cluster.Prelude.Int.{pos}
use go_cluster.ConnManager.{new, close, install}
use go_cluster.ConnManager.Ownership
use go_cluster.ConnManager.Ownership.{IsOwned, count, cached, run-owned}
use go_cluster.ConnManager.Counting.{
  System, IsCounted, looks, installs, releases, ticks, run, run-IsCounted,
}

abbrev system : System
system = record {
  manager = record {
    ttl = 10;
    conns = (codes "b:1", record { cc = 7; last_used = 0; ref = 1 }) ∷ [];
    closing = false;
    dropped = [];
  };
  held = (codes "b:1", 1) ∷ [];
}

system-IsCounted : IsCounted system
unfolding lookup
system-IsCounted = record { unique = (refl, tt); counts = λ t. ground arith }

-- Two goroutines dial the same target.
run-IsCounted_example : IsCounted (
    run
      (looks (codes "c:1") 1
        ∷ looks (codes "c:1") 1
        ∷ installs (codes "c:1") 8 2
        ∷ installs (codes "c:1") 9 3
        ∷ releases (codes "c:1") 4
        ∷ ticks 99
        ∷ [])
      system)
run-IsCounted_example =
    run-IsCounted
      (looks (codes "c:1") 1
        ∷ looks (codes "c:1") 1
        ∷ installs (codes "c:1") 8 2
        ∷ installs (codes "c:1") 9 3
        ∷ releases (codes "c:1") 4
        ∷ ticks 99
        ∷ [])
      system system-IsCounted

-- A connection is installed after `Close`.
abbrev late : List Ownership.Action
late =
    Ownership.installs (codes "c:1") 8 2
    ∷ Ownership.closes
    ∷ Ownership.installs (codes "c:1") 9 3
    ∷ []

abbrev none_dialled : Ownership.System
none_dialled = record { manager = new (pos 0); dialled = [] }

none_dialled-IsOwned : IsOwned none_dialled
unfolding new
none_dialled-IsOwned = record { at = λ fd. omega arith }

dialled_once : count 8 (Ownership.run late none_dialled).dialled ≡ 1
unfolding Ownership.run Ownership.step close install lookup new
dialled_once = refl

run-owned_example :
    ((count 8 (cached (Ownership.run late none_dialled).manager.conns) ≡ 1)
      × (count 8 (Ownership.run late none_dialled).manager.dropped ≡ 0))
    ⊎ ((count 8 (cached (Ownership.run late none_dialled).manager.conns) ≡ 0)
        × (count 8 (Ownership.run late none_dialled).manager.dropped ≡ 1))
run-owned_example = run-owned late none_dialled 8 none_dialled-IsOwned dialled_once
