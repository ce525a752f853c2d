-- ===== src/Cluster/Tests.antt =====
-- The theorems of the facade applied.
use go_cluster.Prelude.{
  Text, ℕ, List, map, ◌==◌, ◌&&◌, ◌+◌, ◌≤◌, codes, nat_eq, text_is_eq, true, false, none, some, [],
  ◌∷◌, ◌≡◌, ◌≢◌, refl, arith, if◌then◌else◌, or_zero, leb,
}
use go_cluster.GoMap.{lookup}
use go_cluster.Consensus.{LeaderInfo}
use go_cluster.Cluster.World.{
  Setup, Rep, Cluster, DirEntry, fresh, asks_is_leader, asks_members, applies, not_leader_error,
}
use go_cluster.Cluster.Leadership.{leads, react, apply_add_node, membership_event}
use go_cluster.Cluster.Leadership.Guarded.{just_led}
use go_cluster.Cluster.Leadership.Events.{add_command}
use go_cluster.Cluster.Disk.{sanitize_topic, file_name, restore_entry}
use go_cluster.Cluster.Disk.Restored.{buffered, last_seq, IsCovered, restore_entry-file_name}
use go_cluster.Cluster.Replication.{
  Outcome, published, failed, gave_up, acked_by_server, publish, retry,
}
use go_cluster.Cluster.Replication.Publishing.{publish_lem}
use go_cluster.Cluster.Replication.Ending.{publish_ends}
use go_cluster.Cluster.Replication.Retrying.{IsBelowLimit, acks_seen, retry_lem}
use go_cluster.Cluster.Replication.RetryTopic.{sent, holds}
use go_cluster.Cluster.Lifecycle.{start}
use go_cluster.Cluster.Lifecycle.Once.{start-start}
use go_cluster.EventBus
use go_cluster.EventBus.{leader_changed, election_start}
use go_cluster.Cluster.Election.{watch_leader, note_leader, publish_start, publish_change}
use go_cluster.Cluster.Election.Counting.{Action, looks, starts, announces, settles, idle, step}
use go_cluster.Cluster.Election.Counting.{run as run_election}
use go_cluster.Cluster.Run.{sees_member, perform, run, run-just_led}
use go_cluster.Cluster.Scenario.{
  member_b, env_of, leader_setup, follower_setup, two_stored, join_of_b,
}

run-just_led_example : just_led (env_of true) (asks_is_leader ∷ asks_is_leader ∷ []) ≡ true
unfolding run perform membership_event leads react apply_add_node
run-just_led_example =
    run-just_led leader_setup (sees_member join_of_b ∷ []) (asks_members ∷ [])
      (asks_is_leader ∷ asks_is_leader ∷ []) (applies (add_command leader_setup member_b)) refl refl

abbrev entry : DirEntry
entry = record { name = file_name (codes "a/b") 12; is_dir = false }

abbrev restored : Rep
restored = (restore_entry leader_setup (codes "d") entry fresh).1.rep

restore_entry-file_name_example :
    (buffered (sanitize_topic (codes "a/b")) 12 restored ≡ some (codes "body"))
    × (12 ≤ last_seq (sanitize_topic (codes "a/b")) restored)
    × (last_seq (sanitize_topic (codes "a/b")) fresh.rep
        ≤ last_seq (sanitize_topic (codes "a/b")) restored)
restore_entry-file_name_example =
    restore_entry-file_name leader_setup (codes "d") (codes "a/b") 12 (codes "body") entry fresh
      (λ e. cc) (omega arith) refl refl refl

two_stored-IsCovered : IsCovered two_stored.rep
unfolding lookup
two_stored-IsCovered = record { at = λ topic n body found. ground arith }

abbrev publish_x : Outcome × Cluster
publish_x = publish leader_setup 4 (codes "t") (codes "x") fresh

publish_lem_example :
    (publish_x.0 ≡ published
      → ((t : Text) (n : ℕ)
          → buffered t n publish_x.1.rep ≡ (
              if codes "t" == t && last_seq (codes "t") fresh.rep + 1 == n
              then some (codes "x")
              else buffered t n fresh.rep))
        × ((t : Text)
            → last_seq t publish_x.1.rep ≡ (
                if codes "t" == t
                then last_seq (codes "t") fresh.rep + 1
                else last_seq t fresh.rep)))
    × (publish_x.0 ≢ published → publish_x.1.rep ≡ fresh.rep)
    × ((leads leader_setup fresh).0 ≡ false → publish_x.0 ≡ failed not_leader_error)
unfolding lookup
publish_lem_example = publish_lem leader_setup 4 (codes "t") (codes "x") fresh (omega arith)

publish_ends_example : (publish leader_setup 4 (codes "t") (codes "x") fresh).0 ≢ gave_up
publish_ends_example =
    publish_ends leader_setup 3 (codes "t") (codes "x") fresh (λ h late. ground arith)

seq-IsBelowLimit : IsBelowLimit two_stored.rep.seq
unfolding lookup
seq-IsBelowLimit topic = ground arith

acks-IsBelowLimit : IsBelowLimit (acks_seen leader_setup two_stored)
unfolding lookup leads acked_by_server
acks-IsBelowLimit topic = ground arith

retry_lem_example :
    (buffered (codes "t") 2 (retry leader_setup two_stored).1.rep ≡ (
      if leb 2 (or_zero 0 (lookup (codes "t") (acks_seen leader_setup two_stored)))
      then none
      else buffered (codes "t") 2 two_stored.rep))
    × ((retry leader_setup two_stored).1.rep.seq ≡ two_stored.rep.seq)
    × (sent (codes "t") 2 (codes "y") (retry leader_setup two_stored).1.calls
        ≡ (if true
              && leb 2 (last_seq (codes "t") two_stored.rep)
              && holds (codes "y") (buffered (codes "t") 2 (retry leader_setup two_stored).1.rep)
            then 1
            else 0)
          + 0)
unfolding leads lookup
retry_lem_example =
    retry_lem leader_setup (codes "t") (codes "y") 2 two_stored refl (refl, tt) seq-IsBelowLimit
      acks-IsBelowLimit

start-start_example :
    start leader_setup (start leader_setup fresh).1 ≡ (none, (start leader_setup fresh).1)
start-start_example = start-start leader_setup fresh

abbrev leader_info : LeaderInfo
leader_info = record { id = codes "b"; addr = codes "b:1"; term = 7 }

-- A tick sees the flags between the two steps of a leader change, so two elections start one after
-- the other.
abbrev overlapping : List Action
overlapping =
    announces leader_info
    ∷ settles
    ∷ announces leader_info
    ∷ looks
    ∷ starts
    ∷ settles
    ∷ looks
    ∷ starts
    ∷ []

abbrev lost_setup : Setup
lost_setup = record follower_setup { env = record follower_setup.env { leader = λ h. none } }

events-overlapping :
    map (λ (e : EventBus.Event). e.kind) (run_election lost_setup overlapping idle).node.events
    ≡ leader_changed ∷ leader_changed ∷ election_start ∷ election_start ∷ []
unfolding run_election step note_leader watch_leader publish_start publish_change
events-overlapping = refl
