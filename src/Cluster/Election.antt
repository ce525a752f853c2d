-- ===== src/Cluster/Election.antt =====
-- The election events: one tick of `electionWatchLoop`, and the observer of leader changes. The flags
-- are read and written under a mutex, the events are published outside it, so a tick and a change
-- are two steps each. The callbacks of the application are not modelled.
pub mod Counting
use go_cluster.Prelude.{
  Text, ℕ, Bool, true, false, not, ◌&&◌, Option, none, some, if◌then◌else◌, is_some,
}
use go_cluster.Consensus.{LeaderInfo}
use go_cluster.EventBus.{Event, leader_changed, election_start}
use go_cluster.Cluster.World.{Setup, Cluster, M, ◌>>=◌, ◌>>◌, pure, ask, emit, modify}
use go_cluster.Cluster.Leadership.{ask_leader}

-- The part of a tick under the mutex: an election begins, if a leader was there, none is, and none
-- is being elected yet.
unfoldable pub note_leader : Bool → M Bool
note_leader there s =
    if s.had_leader && (not there && not s.in_progress)
    then (true, record s { in_progress = true })
    else (false, s)

-- The part of a leader change under the mutex.
abbrev pub settle_leader : M (Unit {0})
settle_leader = modify (λ s. record s { in_progress = false; had_leader = true })

module _ (w : Setup) where
  -- A tick up to the end of the mutex: whether an election begins.
  unfoldable pub watch_leader : M Bool
  unfolding note_leader
  watch_leader =
      if w.opts.has_consensus
      then (do found ← ask_leader w; note_leader (is_some found))
      else pure false

  abbrev pub start_event : Cluster → Event
  start_event s = record {
    kind = election_start;
    at = w.env.now s.calls;
    leader = none;
    member = none;
    term = 0;
  }

  unfoldable pub publish_start : M (Unit {0})
  publish_start s = emit (start_event s) s

  unfoldable pub election_tick : M (Unit {0})
  unfolding watch_leader publish_start
  election_tick = do begins ← watch_leader; if begins then publish_start else pure tt

  abbrev pub change_event : LeaderInfo → Cluster → Event
  change_event li s = record {
    kind = leader_changed;
    at = w.env.now s.calls;
    leader = some li;
    member = none;
    term = li.term;
  }

  unfoldable pub publish_change : LeaderInfo → M (Unit {0})
  publish_change li s = emit (change_event li s) s

  -- A leader change from `LeaderCh`.
  unfoldable pub leader_change : LeaderInfo → M (Unit {0})
  unfolding publish_change
  leader_change li = do publish_change li; settle_leader
