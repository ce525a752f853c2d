-- ===== src/Cluster/Requests/Replies.antt =====
-- What the handlers reply, and what their callers make of it.
use go_cluster.Prelude.{
  Text, text_is_eq, Bool, true, false, not, ◌&&◌, ◌||◌, some, [], ◌∷◌, ◌≡◌, refl, ◌≢◌, arith,
  is_some,
}
use go_cluster.Result.{Result, ok, err}
use go_cluster.Transport.{JoinRequest}
use go_cluster.Cluster.World.{
  Setup, ClusterStatus, Cluster, History, asks_is_leader, asks_leader, asks_members, asks_term,
  adds_voter, handles_write, gets_status, not_leader_error,
}
use go_cluster.Cluster.Leadership.{find_addr, leads, lookup_member_addr}
use go_cluster.Cluster.Requests.{
  handle_join, handle_app_write, join_outcome, app_write, write_reply, write_outcome, status,
  led_status, proxied,
}

write_outcome-write_reply :
    (w w' : Setup) (r : Result Text) → r ≢ err [] → r ≡ write_outcome w' (ok (write_reply w r))
write_outcome-write_reply w w' (ok out) h = refl
write_outcome-write_reply w w' (err []) h = absurd (h refl)
write_outcome-write_reply w w' (err (c ∷ e)) h = refl

module _ (w : Setup) (s : Cluster) where
  -- The history when the leadership has been asked.
  abbrev pub asked : History
  asked = asks_is_leader ∷ s.calls

  abbrev pub leads_now : Bool
  leads_now = w.opts.has_consensus && w.env.is_leader asked

  -- A join is accepted exactly when the node leads and Raft, if it can be reconfigured, has added
  -- the voter without an error.
  pub handle_join-accepted :
      (req : JoinRequest)
      → (handle_join w req s).0.accepted ≡ (
          leads_now
          && (not w.opts.is_reconfigurer
              || not (is_some (w.env.consensus_error (adds_voter req.id req.raft_addr ∷ asked)))))
  unfolding handle_join leads
  handle_join-accepted req = ground arith

  -- A node that does not lead rejects a join with "not leader", and `Join` turns that reply into
  -- ErrNotLeader.
  pub join_outcome-handle_join :
      (w' : Setup) (req : JoinRequest)
      → leads_now ≡ false
      → join_outcome w' (ok (handle_join w req s).0) ≡ some not_leader_error
  unfolding handle_join leads
  join_outcome-handle_join w' req h = ground arith

  -- A write that the leader handles for another node and one that it makes itself have the same
  -- result, the handler's, if the handler's errors have a text.
  pub write_outcome-handle_app_write :
      (w' : Setup) (op body : Text)
      → leads_now ≡ true
      → w.opts.has_handlers ≡ true
      → w.env.handler_write (handles_write op body ∷ asked) ≢ err []
      → (app_write w op body s).0
        ≡ some (write_outcome w' (ok (handle_app_write w (record { op = op; body = body }) s).0))
  unfolding app_write handle_app_write leads
  write_outcome-handle_app_write w' op body led handlers named = ground (
    arith,
    write_outcome-write_reply w w' (w.env.handler_write (handles_write op body ∷ asked)) named,
  )

  -- The history of `Status` when the leader's address has been looked up.
  abbrev pub looked_up : History
  looked_up = asks_members ∷ asks_is_leader ∷ asks_leader ∷ asks_term ∷ s.calls

  -- On a follower whose membership knows an address of the leader, `Status` is the status that the
  -- leader reports there, if the request succeeds and the reply decodes.
  pub status-proxied :
      (id addr mgmt blob : Text) (st : ClusterStatus)
      → w.opts.has_consensus ≡ true
      → w.opts.has_client ≡ true
      → w.opts.has_membership ≡ true
      → w.env.leader (asks_leader ∷ asks_term ∷ s.calls) ≡ some (id, addr)
      → w.env.is_leader (asks_is_leader ∷ asks_leader ∷ asks_term ∷ s.calls) ≡ false
      → find_addr id (w.env.members looked_up) ≡ mgmt
      → mgmt ≢ []
      → w.env.status (gets_status mgmt ∷ looked_up) ≡ ok blob
      → w.status_json.unmarshal blob ≡ ok st
      → (status w s).0 ≡ st
  unfolding status led_status proxied lookup_member_addr
  status-proxied id addr mgmt blob st c1 c2 c3 led off found ne answered dec = ground arith
