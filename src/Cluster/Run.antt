-- ===== src/Cluster/Run.antt =====
-- The node as a whole: the methods that an application calls, the handlers that peers call, and one
-- round of each background goroutine, in any order. Two of them do not overlap here.
use go_cluster.Prelude.{ℕ, Text, List, [], ◌∷◌, ◌++◌, ◌≡◌, true, arith}
use go_cluster.Membership
use go_cluster.Consensus.{LeaderInfo}
use go_cluster.Transport.{JoinRequest, LeaveRequest, AppWriteRequest, AppSyncRequest}
use go_cluster.Cluster.World.{Setup, Cluster, Call, History, fresh}
use go_cluster.Cluster.Leadership.{membership_event, reconcile_members}
use go_cluster.Cluster.Leadership.Guarded.{
  Guarded, KeepsGuarded, commands, just_led, membership_event-KeepsGuarded,
  reconcile_members-KeepsGuarded,
}
use go_cluster.Cluster.Lifecycle.{start, stop}
use go_cluster.Cluster.Lifecycle.Guarded.{start-KeepsGuarded, stop-KeepsGuarded}
use go_cluster.Cluster.Requests.{
  handle_join, handle_leave, handle_app_write, handle_app_sync, join, app_write, status,
}
use go_cluster.Cluster.Requests.Guarded.{
  handle_join-KeepsGuarded, handle_leave-KeepsGuarded, handle_app_write-KeepsGuarded,
  handle_app_sync-KeepsGuarded, join-KeepsGuarded, app_write-KeepsGuarded, status-KeepsGuarded,
}
use go_cluster.Cluster.Replication.{publish, retry}
use go_cluster.Cluster.Replication.Guarded.{publish-KeepsGuarded, retry-KeepsGuarded}
use go_cluster.Cluster.Election.{
  note_leader, watch_leader, publish_start, publish_change, election_tick, leader_change,
}

pub data Op : Type 0 where
  starts stops asks_status retries reconciles ticks : Op
  joins : Text → Op
  writes : Text → Text → Op
  publishes : ℕ → Text → Text → Op
  serves_join : JoinRequest → Op
  serves_leave : LeaveRequest → Op
  serves_write : AppWriteRequest → Op
  serves_sync : AppSyncRequest → Op
  sees_member : Membership.Event → Op
  sees_leader : LeaderInfo → Op

module _ (w : Setup) where
  unfoldable pub perform : Op → Cluster → Cluster
  perform starts s = (start w s).1
  perform stops s = (stop w s).1
  perform asks_status s = (status w s).1
  perform retries s = (retry w s).1
  perform reconciles s = (reconcile_members w s).1
  perform ticks s = (election_tick w s).1
  perform (joins seed) s = (join w seed s).1
  perform (writes op body) s = (app_write w op body s).1
  perform (publishes fuel topic body) s = (publish w fuel topic body s).1
  perform (serves_join req) s = (handle_join w req s).1
  perform (serves_leave req) s = (handle_leave w req s).1
  perform (serves_write req) s = (handle_app_write w req s).1
  perform (serves_sync req) s = (handle_app_sync w req s).1
  perform (sees_member ev) s = (membership_event w ev s).1
  perform (sees_leader li) s = (leader_change w li s).1

  unfoldable pub run : List Op → Cluster → Cluster
  run [] s = s
  run (op ∷ ops) s = run ops (perform op s)

  election_tick-KeepsGuarded : KeepsGuarded w.env (election_tick w)
  unfolding election_tick watch_leader publish_start note_leader
  election_tick-KeepsGuarded = record { at = λ s h. ground arith }

  perform-Guarded :
      (op : Op) (s : Cluster) → Guarded w.env s.calls → Guarded w.env (perform op s).calls
  unfolding perform leader_change publish_change
  perform-Guarded starts s h = (start-KeepsGuarded w).at s h
  perform-Guarded stops s h = (stop-KeepsGuarded w).at s h
  perform-Guarded asks_status s h = (status-KeepsGuarded w).at s h
  perform-Guarded retries s h = (retry-KeepsGuarded w).at s h
  perform-Guarded reconciles s h = (reconcile_members-KeepsGuarded w).at s h
  perform-Guarded ticks s h = election_tick-KeepsGuarded.at s h
  perform-Guarded (joins seed) s h = (join-KeepsGuarded w seed).at s h
  perform-Guarded (writes op body) s h = (app_write-KeepsGuarded w op body).at s h
  perform-Guarded (publishes n topic body) s h = (publish-KeepsGuarded w n topic body).at s h
  perform-Guarded (serves_join req) s h = (handle_join-KeepsGuarded w req).at s h
  perform-Guarded (serves_leave req) s h = (handle_leave-KeepsGuarded w req).at s h
  perform-Guarded (serves_write req) s h = (handle_app_write-KeepsGuarded w req).at s h
  perform-Guarded (serves_sync req) s h = (handle_app_sync-KeepsGuarded w req).at s h
  perform-Guarded (sees_member ev) s h = (membership_event-KeepsGuarded w ev).at s h
  perform-Guarded (sees_leader li) s h = h

  run-keeps_Guarded :
      (ops : List Op) (s : Cluster) → Guarded w.env s.calls → Guarded w.env (run ops s).calls
  unfolding run
  run-keeps_Guarded [] s h = h
  run-keeps_Guarded (op ∷ ops) s h = run-keeps_Guarded ops (perform op s) (perform-Guarded op s h)

  Guarded-split :
      (late early : History) (c : Call)
      → commands c ≡ true
      → Guarded w.env (late ++ c ∷ early)
      → just_led w.env early ≡ true
  Guarded-split [] early c loud h = h.0 loud
  Guarded-split (d ∷ late) early c loud h = Guarded-split late early c loud h.1

  -- Whatever a new node does and is asked, in any order and with any answers of its components:
  -- each call that applies a command to the replicated log or changes the Raft configuration comes
  -- right after a call of `IsLeader` that answered true.
  pub run-just_led :
      (ops : List Op) (late early : History) (c : Call)
      → (run ops fresh).calls ≡ late ++ c ∷ early
      → commands c ≡ true
      → just_led w.env early ≡ true
  run-just_led ops late early c at loud =
      Guarded-split late early c loud (rw (← at) (run-keeps_Guarded ops fresh tt))
