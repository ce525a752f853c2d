-- ===== src/Cluster/Election/Counting.antt =====
-- How many elections start, when a tick and a leader change interleave between their two steps.
use go_cluster.Prelude.{
  ℕ, ◌+◌, ◌≤◌, nat_eq, Bool, true, false, not, ◌&&◌, List, [], ◌∷◌, if◌then◌else◌,
}
use go_cluster.Consensus.{LeaderInfo}
use go_cluster.EventBus.{Event, EventType, leader_changed, election_start}
use go_cluster.Cluster.World.{Setup, Cluster, fresh}
use go_cluster.Cluster.Election.{settle_leader, watch_leader, publish_start, publish_change}

-- The node, with a tick that is about to publish an election and an observer that is about to set the
-- flags. Each runs in one goroutine.
pub record System : Type 0 where
  pub node : Cluster
  pub starting : Bool
  pub settling : Bool

pub data Action : Type 0 where
  looks starts settles : Action
  announces : LeaderInfo → Action

module _ (w : Setup) where
  unfoldable pub step : Action → System → System
  step looks x =
      if x.starting
      then x
      else record x { node = (watch_leader w x.node).1; starting = (watch_leader w x.node).0 }
  step starts x =
      if x.starting then record x { node = (publish_start w x.node).1; starting = false } else x
  step (announces li) x =
      if x.settling then x else record x { node = (publish_change w li x.node).1; settling = true }
  step settles x =
      if x.settling then record x { node = (settle_leader x.node).1; settling = false } else x

  unfoldable pub run : List Action → System → System
  run [] x = x
  run (a ∷ l) x = run l (step a x)

abbrev pub idle : System
idle = record { node = fresh; starting = false; settling = false }

abbrev pub start_of : EventType → ℕ
start_of election_start = 1
start_of _ = 0

abbrev pub change_of : EventType → ℕ
change_of leader_changed = 1
change_of _ = 0

-- The elections that have started, and the leader changes, among the published events.
abbrev pub elections : List Event → ℕ
elections [] = 0
elections (e ∷ es) = start_of e.kind + elections es

abbrev pub changes : List Event → ℕ
changes [] = 0
changes (e ∷ es) = change_of e.kind + changes es

abbrev one_if : Bool → ℕ
one_if true = 1
one_if false = 0

-- Each election that has started, is about to, or may start, stands for a leader change of its own.
pub record IsBalanced (x : System) : Type 0 where
  pub balance :
      elections x.node.events
        + one_if x.starting
        + one_if (x.node.had_leader && not x.node.in_progress)
        + one_if x.settling
      ≤ changes x.node.events
