-- ===== src/Cluster/Requests/Guarded.antt =====
-- The handlers change the log and the Raft configuration only as the leader.
use go_cluster.Prelude.{ℕ, Text, codes, true, false, ◌&&◌, Option, none, some, [], refl, arith}
use go_cluster.Result.{Result, ok, err}
use go_cluster.Transport.{JoinRequest, LeaveRequest, LeaveResponse, AppWriteRequest, AppSyncRequest}
use go_cluster.Cluster.World.{
  Setup, ClusterStatus, ask, asks_leader, asks_term, asks_is_leader, gets_status,
}
use go_cluster.Cluster.Leadership.{leads, lookup_member_addr, apply_remove_node, remove_server}
use go_cluster.Cluster.Leadership.Guarded.{
  KeepsGuarded, KeepsGuarded-pure, KeepsGuarded-ask, KeepsGuarded-bind, KeepsGuarded-if,
  leads-KeepsGuarded, lookup_member_addr-KeepsGuarded, apply_remove_node-KeepsGuarded,
  remove_server-KeepsGuarded,
}
use go_cluster.Cluster.Requests.{
  addr_of, leader_mgmt, handle_join, handle_leave, handle_app_write, handle_app_sync, join_target,
  post_join, join, own_status, forward_write, app_write, post_write, local_write, not_leader,
  local_status, or_local, decoded, proxied, led_status, status_from, status,
}

module _ (w : Setup) where
  addr_of-KeepsGuarded : (o : Option (Text × Text)) → KeepsGuarded w.env (addr_of w o)
  unfolding addr_of
  addr_of-KeepsGuarded none = KeepsGuarded-pure w.env []
  addr_of-KeepsGuarded (some (id, a)) = lookup_member_addr-KeepsGuarded w id

  leader_mgmt-KeepsGuarded : KeepsGuarded w.env (leader_mgmt w)
  unfolding leader_mgmt
  leader_mgmt-KeepsGuarded =
      KeepsGuarded-bind w.env (ask asks_leader w.env.leader) _
        (KeepsGuarded-ask w.env asks_leader w.env.leader refl) addr_of-KeepsGuarded

  pub handle_join-KeepsGuarded : (req : JoinRequest) → KeepsGuarded w.env (handle_join w req)
  unfolding handle_join leads
  handle_join-KeepsGuarded req = record {
    at = λ s h.
        ground (arith, leader_mgmt-KeepsGuarded.at s h, leader_mgmt-KeepsGuarded.at (leads w s).1);
  }

  pub handle_leave-KeepsGuarded : (req : LeaveRequest) → KeepsGuarded w.env (handle_leave w req)
  unfolding handle_leave
  handle_leave-KeepsGuarded req = KeepsGuarded-bind w.env (leads w) _ (leads-KeepsGuarded w) λ lead.
      KeepsGuarded-if w.env lead _ _
        (KeepsGuarded-bind w.env (remove_server w req.id) _ (remove_server-KeepsGuarded w req.id)
          λ _.
            KeepsGuarded-bind w.env (apply_remove_node w req.id) _
              (apply_remove_node-KeepsGuarded w req.id)
              λ _.
                KeepsGuarded-pure w.env {A = LeaveResponse}
                  (record { accepted = true; error = [] }))
        (KeepsGuarded-pure w.env {A = LeaveResponse}
          (record { accepted = false; error = not_leader }))

  pub handle_app_write-KeepsGuarded :
      (req : AppWriteRequest) → KeepsGuarded w.env (handle_app_write w req)
  unfolding handle_app_write leads
  handle_app_write-KeepsGuarded req = record { at = λ s h. ground arith }

  pub handle_app_sync-KeepsGuarded :
      (req : AppSyncRequest) → KeepsGuarded w.env (handle_app_sync w req)
  unfolding handle_app_sync
  handle_app_sync-KeepsGuarded req = record { at = λ s h. ground arith }

  post_join-KeepsGuarded : (r : Result Text) → KeepsGuarded w.env (post_join w r)
  post_join-KeepsGuarded (err e) = KeepsGuarded-pure w.env _
  post_join-KeepsGuarded (ok a) = record { at = λ s h. ground arith }

  join_target-KeepsGuarded : (seed : Text) → KeepsGuarded w.env (join_target w seed)
  unfolding join_target
  join_target-KeepsGuarded seed = record {
    at = λ s h. ground (arith, leader_mgmt-KeepsGuarded.at s h);
  }

  pub join-KeepsGuarded : (seed : Text) → KeepsGuarded w.env (join w seed)
  unfolding join
  join-KeepsGuarded seed =
      KeepsGuarded-if w.env w.opts.has_client _ _
        (KeepsGuarded-bind w.env (join_target w seed) _ (join_target-KeepsGuarded seed)
          post_join-KeepsGuarded)
        (KeepsGuarded-pure w.env _)

  own_status-KeepsGuarded : (leader : Text) → KeepsGuarded w.env (own_status w leader)
  unfolding own_status
  own_status-KeepsGuarded leader = record { at = λ s h. ground arith }

  post_write-KeepsGuarded :
      (op body leader : Text) → KeepsGuarded w.env (post_write w op body leader)
  post_write-KeepsGuarded op body leader = record { at = λ s h. ground arith }

  local_write-KeepsGuarded : (op body : Text) → KeepsGuarded w.env (local_write w op body)
  local_write-KeepsGuarded op body = record { at = λ s h. ground arith }

  forward_write-KeepsGuarded : (op body : Text) → KeepsGuarded w.env (forward_write w op body)
  unfolding forward_write
  forward_write-KeepsGuarded op body =
      KeepsGuarded-bind w.env (leader_mgmt w) _ leader_mgmt-KeepsGuarded λ found.
        KeepsGuarded-bind w.env (own_status w found) _ (own_status-KeepsGuarded found)
          λ leader. post_write-KeepsGuarded op body leader

  pub app_write-KeepsGuarded : (op body : Text) → KeepsGuarded w.env (app_write w op body)
  unfolding app_write
  app_write-KeepsGuarded op body =
      KeepsGuarded-bind w.env (leads w) _ (leads-KeepsGuarded w) λ lead.
        KeepsGuarded-if w.env lead _ _ (local_write-KeepsGuarded op body) (
          KeepsGuarded-if w.env w.opts.has_client _ _
            (KeepsGuarded-if w.env w.opts.has_consensus _ _
              (KeepsGuarded-bind w.env (forward_write w op body) _
                (forward_write-KeepsGuarded op body) λ r. KeepsGuarded-pure w.env (some r))
              (KeepsGuarded-pure w.env none))
            (KeepsGuarded-pure w.env (some (err (codes "cluster: no RPC client configured")))))

  local_status-KeepsGuarded : (st : ClusterStatus) → KeepsGuarded w.env (local_status w st)
  unfolding local_status leads
  local_status-KeepsGuarded st = record { at = λ s h. ground arith }

  or_local-KeepsGuarded :
      (st : ClusterStatus) (o : Option ClusterStatus) → KeepsGuarded w.env (or_local w st o)
  or_local-KeepsGuarded st none = local_status-KeepsGuarded st
  or_local-KeepsGuarded st (some rs) = KeepsGuarded-pure w.env rs

  proxied-KeepsGuarded : (st : ClusterStatus) (addr : Text) → KeepsGuarded w.env (proxied w st addr)
  unfolding proxied
  proxied-KeepsGuarded st addr = KeepsGuarded-if w.env _ _ _ (local_status-KeepsGuarded st) (
      KeepsGuarded-bind w.env (ask (gets_status addr) w.env.status) _
        (KeepsGuarded-ask w.env (gets_status addr) w.env.status refl)
        λ r. or_local-KeepsGuarded st (decoded w r))

  led_status-KeepsGuarded :
      (st : ClusterStatus) (id : Text) → KeepsGuarded w.env (led_status w st id)
  unfolding led_status
  led_status-KeepsGuarded st id =
      KeepsGuarded-bind w.env (ask asks_is_leader w.env.is_leader) _
        (KeepsGuarded-ask w.env asks_is_leader w.env.is_leader refl)
        λ lead.
          KeepsGuarded-if w.env (lead && w.opts.has_server) _ _
            (local_status-KeepsGuarded (record st { leader_addr = w.opts.server_addr }))
            (KeepsGuarded-if w.env (w.opts.has_client && w.opts.has_membership) _ _
              (KeepsGuarded-bind w.env (lookup_member_addr w id) _
                (lookup_member_addr-KeepsGuarded w id) (proxied-KeepsGuarded st))
              (local_status-KeepsGuarded st))

  status_from-KeepsGuarded :
      (t : ℕ) (o : Option (Text × Text)) → KeepsGuarded w.env (status_from w t o)
  status_from-KeepsGuarded t none = local_status-KeepsGuarded _
  status_from-KeepsGuarded t (some (id, a)) = led_status-KeepsGuarded _ id

  pub status-KeepsGuarded : KeepsGuarded w.env (status w)
  unfolding status
  status-KeepsGuarded =
      KeepsGuarded-if w.env w.opts.has_consensus _ _
        (KeepsGuarded-bind w.env (ask asks_term w.env.term) _
          (KeepsGuarded-ask w.env asks_term w.env.term refl)
          λ t.
            KeepsGuarded-bind w.env (ask asks_leader w.env.leader) _
              (KeepsGuarded-ask w.env asks_leader w.env.leader refl) (status_from-KeepsGuarded t))
        (local_status-KeepsGuarded _)
