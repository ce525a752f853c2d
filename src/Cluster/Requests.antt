-- ===== src/Cluster/Requests.antt =====
-- The requests of other nodes and of the application: `Join`, `Status`, `AppWrite` and the handlers
-- of the management endpoint.
pub mod Guarded
pub mod Replies
use go_cluster.Prelude.{
  ℕ, Text, codes, is_empty, ◌==◌, text_is_eq, Bool, true, false, not, ◌&&◌, Option, none, some,
  List, [], ◌∷◌, if◌then◌else◌, is_some,
}
use go_cluster.Result.{Result, ok, err, Error}
use go_cluster.Membership.{MemberInfo}
use go_cluster.Transport.{
  JoinRequest, JoinResponse, LeaveRequest, LeaveResponse, AppWriteRequest, AppWriteResponse,
  AppSyncRequest, AppSyncResponse,
}
use go_cluster.Cluster.World.{
  Setup, ClusterStatus, M, ◌>>=◌, ◌>>◌, pure, ask, asks_is_leader, asks_term, adds_voter,
  gets_status, posts_join, posts_app_write, handles_write, handles_sync, not_leader_error,
}
use go_cluster.Cluster.Leadership.{
  members, lookup_member_addr, leads, ask_leader, apply_remove_node, remove_server, encoded,
}

abbrev pub not_leader : Text
not_leader = codes "not leader"

module _ (w : Setup) where
  -- The address of a leader that `Leader()` has named.
  unfoldable pub addr_of : Option (Text × Text) → M Text
  addr_of none = pure []
  addr_of (some (id, _)) = lookup_member_addr w id

  -- `if id, _, ok := c.cons.Leader(); ok { leaderMgmt = c.lookupMemberAddr(id) }`
  unfoldable pub leader_mgmt : M Text
  unfolding addr_of
  leader_mgmt = do found ← ask_leader w; addr_of found

  abbrev pub rejected : Text → Text → JoinResponse
  rejected leader e = record { accepted = false; leader = leader; error = e }

  abbrev pub voter_reply : Error → JoinResponse
  voter_reply none = record { accepted = true; leader = []; error = [] }
  voter_reply (some e) = rejected [] e

  -- `handleJoin`; its error is always nil.
  unfoldable pub handle_join : JoinRequest → M JoinResponse
  handle_join req = do
    lead ← leads w
    if lead
        then (if w.opts.is_reconfigurer
            then (do
              e ← ask (adds_voter req.id req.raft_addr) w.env.consensus_error
              pure (voter_reply e))
            else pure (voter_reply none))
        else (do
          hint ← if w.opts.has_consensus then leader_mgmt else pure []
          pure (rejected hint not_leader))

  -- `handleLeave`; its error is always nil.
  unfoldable pub handle_leave : LeaveRequest → M LeaveResponse
  handle_leave req = do
    lead ← leads w
    if lead
        then (do
          remove_server w req.id
          apply_remove_node w req.id
          pure (record { accepted = true; error = [] }))
        else pure (record { accepted = false; error = not_leader })

  abbrev pub write_reply : Result Text → AppWriteResponse
  write_reply (ok out) = record { body = out; error = [] }
  write_reply (err e) = record { body = []; error = e }

  -- `handleAppWrite`; its error is always nil.
  unfoldable pub handle_app_write : AppWriteRequest → M AppWriteResponse
  handle_app_write req = do
    lead ← leads w
    if lead
        then (if w.opts.has_handlers
            then (do
              r ← ask (handles_write req.op req.body) w.env.handler_write
              pure (write_reply r))
            else pure (record { body = []; error = codes "no app handlers" }))
        else pure (record { body = []; error = not_leader })

  abbrev pub sync_reply : Error → AppSyncResponse
  sync_reply none = record { error = [] }
  sync_reply (some e) = record { error = e }

  -- `handleAppSync`; its error is always nil.
  unfoldable pub handle_app_sync : AppSyncRequest → M AppSyncResponse
  handle_app_sync req =
      if w.opts.has_handlers
      then (do e ← ask (handles_sync req.topic req.body) w.env.handler_sync; pure (sync_reply e))
      else pure (record { error = [] })

  -- The leader address in the reply of a status endpoint, if there is one.
  abbrev pub named_leader : Result Text → Text → Text
  named_leader (err e) old = old
  named_leader (ok blob) old = elim (w.status_json.unmarshal blob) [
    | err e ↦ old
    | ok st ↦ if is_empty st.leader_addr then old else st.leader_addr
  ]

  -- The leader's address for `Join`: asked of the seed, or of consensus and membership. An error
  -- stands for the return that it makes.
  unfoldable pub join_target : Text → M (Result Text)
  join_target seed =
      if is_empty seed
      then (if w.opts.has_consensus
          then (do addr ← leader_mgmt; pure (ok addr))
          else pure (err (codes "cluster: no consensus to discover leader")))
      else (do r ← ask (gets_status seed) w.env.status; pure (ok (named_leader r seed)))

  -- What `Join` makes of the reply.
  abbrev pub join_outcome : Result JoinResponse → Error
  join_outcome (err e) = some e
  join_outcome (ok resp) =
      if resp.accepted
      then none
      else if resp.error == not_leader
      then some not_leader_error
      else if is_empty resp.error
      then some (codes "cluster: join rejected")
      else some resp.error

  abbrev pub post_join : Result Text → M Error
  post_join (err e) = pure (some e)
  post_join (ok leader) =
      if is_empty leader
      then pure (some (codes "cluster: cannot resolve leader management address"))
      else (do
        r ←
            ask (posts_join leader (record { id = w.opts.node_id; raft_addr = w.opts.raft_addr }))
              w.env.join
        pure (join_outcome r))

  -- `Join`
  unfoldable pub join : Text → M Error
  join seed =
      if w.opts.has_client
      then (do target ← join_target seed; post_join target)
      else pure (some (codes "cluster: no RPC client configured"))

  -- What `AppWrite` makes of the leader's reply.
  abbrev pub write_outcome : Result AppWriteResponse → Result Text
  write_outcome (err e) = err e
  write_outcome (ok resp) = if is_empty resp.error then ok resp.body else err resp.error

  -- The fallback of `AppWrite`: the node's own status endpoint.
  unfoldable pub own_status : Text → M Text
  own_status leader =
      if is_empty leader && w.opts.has_server
      then (do r ← ask (gets_status w.opts.server_addr) w.env.status; pure (named_leader r leader))
      else pure leader

  -- The request to the leader at `leader`.
  abbrev pub post_write : Text → Text → Text → M (Result Text)
  post_write op body leader = if is_empty leader then pure (err not_leader_error) else (do
    r ← ask (posts_app_write leader (record { op = op; body = body })) w.env.app_write
    pure (write_outcome r))

  unfoldable pub forward_write : Text → Text → M (Result Text)
  unfolding own_status
  forward_write op body = do
    found ← leader_mgmt
    leader ← own_status found
    post_write op body leader

  -- The write on the leader itself.
  abbrev pub local_write : Text → Text → M (Option (Result Text))
  local_write op body =
      if w.opts.has_handlers
      then (do r ← ask (handles_write op body) w.env.handler_write; pure (some r))
      else pure (some (err (codes "cluster: no app handlers")))

  -- `AppWrite`. Without a consensus engine the source goes on to call it; `none` is that panic.
  unfoldable pub app_write : Text → Text → M (Option (Result Text))
  app_write op body = do
    lead ← leads w
    if lead
        then local_write op body
        else (if w.opts.has_client
            then (if w.opts.has_consensus
                then (do r ← forward_write op body; pure (some r))
                else pure none)
            else pure (some (err (codes "cluster: no RPC client configured"))))

  -- The status of a node that asks nobody else: the members, and the gauge of the leadership.
  unfoldable pub local_status : ClusterStatus → M ClusterStatus
  local_status st = do
    ms ← if w.opts.has_membership then members w else pure []
    leads w
    pure (record st { members = ms })

  abbrev pub decoded : Result Text → Option ClusterStatus
  decoded (err e) = none
  decoded (ok blob) = elim (w.status_json.unmarshal blob) [ err e ↦ none | ok st ↦ some st ]

  abbrev pub or_local : ClusterStatus → Option ClusterStatus → M ClusterStatus
  or_local st none = local_status st
  or_local st (some rs) = pure rs

  -- The proxy to the leader at `addr`.
  unfoldable pub proxied : ClusterStatus → Text → M ClusterStatus
  proxied st addr =
      if is_empty addr
      then local_status st
      else (do r ← ask (gets_status addr) w.env.status; or_local st (decoded r))

  -- The part of `Status` where `Leader()` named a leader.
  unfoldable pub led_status : ClusterStatus → Text → M ClusterStatus
  led_status st id = do
    lead ← ask asks_is_leader w.env.is_leader
    if lead && w.opts.has_server
        then local_status (record st { leader_addr = w.opts.server_addr })
        else (if w.opts.has_client && w.opts.has_membership
            then (do addr ← lookup_member_addr w id; proxied st addr)
            else local_status st)

  abbrev pub no_status : ClusterStatus
  no_status = record {
    healthy = false;
    term = 0;
    leader_id = [];
    leader_addr = [];
    members = [];
    warnings = [];
  }

  abbrev pub status_from : ℕ → Option (Text × Text) → M ClusterStatus
  status_from t none = local_status (record no_status { term = t })
  status_from t (some (id, _)) =
      led_status (record no_status { term = t; leader_id = id; healthy = true }) id

  -- `Status`; its error is always nil.
  unfoldable pub status : M ClusterStatus
  status =
      if w.opts.has_consensus
      then (do t ← ask asks_term w.env.term; found ← ask_leader w; status_from t found)
      else local_status no_status

  -- `statusLocalJSON`
  unfoldable pub status_local_json : M (Result Text)
  status_local_json = do st ← status; pure (w.status_json.marshal st)
