-- ===== src/Cluster/Leadership/Events.antt =====
-- What a membership event makes the leader do.
use go_cluster.Prelude.{Text, codes, true, none, some, [], ◌∷◌, ◌++◌, ◌≡◌, ap, ◌∙◌, arith}
use go_cluster.Membership
use go_cluster.Membership.{MemberInfo, join, leave, failed}
use go_cluster.Consensus.{Command}
use go_cluster.EventBus
use go_cluster.EventBus.{member_join, member_leave, member_failed}
use go_cluster.Cluster.World.{
  Setup, History, Cluster, asks_is_leader, asks_members, applies, removes_server,
}
use go_cluster.Cluster.Leadership.{
  encoded, leads, apply_add_node, apply_remove_node, remove_server, react, membership_event,
}

-- The node leads, whenever it is asked, and can reconfigure Raft.
pub record IsStableLeader (w : Setup) : Type 0 where
  pub consensus : w.opts.has_consensus ≡ true
  pub reconfigures : w.opts.is_reconfigurer ≡ true
  pub always : (h : History) → w.env.is_leader h ≡ true

abbrev pub add_command : Setup → MemberInfo → Command
add_command w m = record { op = codes "AddNode"; payload = encoded (w.member_json.marshal m) }

abbrev pub remove_command : Setup → Text → Command
remove_command w id = record {
  op = codes "RemoveNode";
  payload = encoded (w.remove_json.marshal (record { id = id }));
}

-- The calls for an event after the first question for the leadership and before the gauge's.
abbrev without_checks : Setup → Membership.EventType → MemberInfo → History
without_checks w join m = applies (add_command w m) ∷ asks_is_leader ∷ []
without_checks w _ m =
    applies (remove_command w m.id) ∷ asks_is_leader ∷ removes_server m.id ∷ asks_is_leader ∷ []

-- The calls for an event, on top of the older ones.
abbrev pub reaction : Setup → Membership.EventType → MemberInfo → History → History
reaction w k m h = asks_members ∷ (without_checks w k m ++ asks_is_leader ∷ h)

abbrev pub event_kind : Membership.EventType → EventBus.EventType
event_kind join = member_join
event_kind leave = member_leave
event_kind failed = member_failed

module _ (w : Setup) (lead : IsStableLeader w) (s : Cluster) where
  apply_add_node_lem :
      (m : MemberInfo)
      → (apply_add_node w m s).1
        ≡ record s { calls = applies (add_command w m) ∷ asks_is_leader ∷ s.calls }
  unfolding apply_add_node
  apply_add_node_lem m = ground (arith, lead.consensus, lead.always (asks_is_leader ∷ s.calls))

  apply_remove_node_lem :
      (id : Text)
      → (apply_remove_node w id s).1
        ≡ record s { calls = applies (remove_command w id) ∷ asks_is_leader ∷ s.calls }
  unfolding apply_remove_node
  apply_remove_node_lem id = ground (arith, lead.consensus, lead.always (asks_is_leader ∷ s.calls))

  remove_server_lem :
      (id : Text)
      → (remove_server w id s).1 ≡ record s { calls = removes_server id ∷ asks_is_leader ∷ s.calls }
  unfolding remove_server
  remove_server_lem id =
      ground (arith, lead.consensus, lead.reconfigures, lead.always (asks_is_leader ∷ s.calls))

abbrev reported : Membership.EventType → Membership.Event → Cluster → Cluster
reported k e s = record s {
  calls = asks_members ∷ s.calls;
  events =
      s.events
      ++ record { kind = event_kind k; at = e.at; leader = none; member = some e.member; term = 0 }
        ∷ [];
}

module _ (w : Setup) (lead : IsStableLeader w) (s : Cluster) where
  departed :
      (id : Text)
      → (apply_remove_node w id (remove_server w id s).1).1 ≡ record s {
        calls =
            applies (remove_command w id)
            ∷ asks_is_leader
            ∷ removes_server id
            ∷ asks_is_leader
            ∷ s.calls;
      }
  departed id =
      ap (λ (t : Cluster). (apply_remove_node w id t).1) (remove_server_lem w lead s id)
      ∙ apply_remove_node_lem w lead _ id

  react_lem :
      (k : Membership.EventType) (e : Membership.Event)
      → (react w k e s).1
        ≡ reported k e (record s { calls = without_checks w k e.member ++ s.calls })
  unfolding react
  react_lem join e = ap (reported join e) (apply_add_node_lem w lead s e.member)
  react_lem leave e = ap (reported leave e) (departed e.member.id)
  react_lem failed e = ap (reported failed e) (departed e.member.id)

leads_lem :
    (w : Setup) (s : Cluster)
    → IsStableLeader w
    → leads w s ≡ (true, record s { calls = asks_is_leader ∷ s.calls })
unfolding leads
leads_lem w s lead = ground (arith, lead.consensus, lead.always (asks_is_leader ∷ s.calls))

module _ (w : Setup) (lead : IsStableLeader w) (s : Cluster) where
  -- While the node leads, a join proposes exactly one AddNode of the member; a leave or a failure
  -- first removes the server from Raft and then proposes exactly one RemoveNode of its ID. One
  -- event of the matching kind, with the member, goes to the application; the rest of the state
  -- does not change.
  pub membership_event_lem :
      (e : Membership.Event)
      → (membership_event w e s).1 ≡ record s {
        calls = reaction w e.kind e.member s.calls;
        events =
            s.events
            ++ record {
              kind = event_kind e.kind;
              at = e.at;
              leader = none;
              member = some e.member;
              term = 0;
            }
              ∷ [];
      }
  unfolding membership_event
  membership_event_lem e = rw (leads_lem w s lead, membership_event) (react_lem w lead _ e.kind e)
