-- ===== src/Cluster/Leadership.antt =====
-- What the leader does for the cluster: member addresses, membership commands for the replicated
-- log, and the reactions to membership events.
pub mod Guarded
pub mod Events
pub mod Table
mod Tests
use go_cluster.Prelude.{
  ℕ, Text, codes, is_empty, ◌==◌, text_is_eq, Bool, true, false, not, Option, none, some, List, [],
  ◌∷◌, if◌then◌else◌, or_zero,
}
use go_cluster.Result.{Result, ok, err, Error}
use go_cluster.GoMap.{lookup}
use go_cluster.Membership
use go_cluster.Membership.{MemberInfo, join, leave, failed}
use go_cluster.Consensus.{Command}
use go_cluster.EventBus.{member_join, member_leave, member_failed}
use go_cluster.Cluster.World.{
  Setup, M, ◌>>=◌, ◌>>◌, pure, ask, emit, asks_is_leader, asks_leader, asks_members, applies,
  removes_server,
}

-- `m.Meta["mgmt"]` where the metadata is there and names one, else the gossip address.
unfoldable pub mgmt_addr : MemberInfo → Text
mgmt_addr m =
    let mgmt = or_zero [] (lookup (codes "mgmt") (or_zero [] m.meta)) in
    if is_empty mgmt then m.addr else mgmt

-- The loop of `lookupMemberAddr`.
unfoldable pub find_addr : Text → List MemberInfo → Text
unfolding mgmt_addr
find_addr id [] = []
find_addr id (m ∷ ms) = if m.id == id then mgmt_addr m else find_addr id ms

-- The bytes of `b, _ := json.Marshal(x)`.
abbrev pub encoded : Result Text → Text
encoded (ok b) = b
encoded (err e) = []

module _ (w : Setup) where
  -- `c.mem.Members()`
  abbrev pub members : M (List MemberInfo)
  members = ask asks_members w.env.members

  unfoldable pub lookup_member_addr : Text → M Text
  lookup_member_addr id =
      if w.opts.has_membership then (do ms ← members; pure (find_addr id ms)) else pure []

  -- `c.cons != nil && c.cons.IsLeader()`
  unfoldable pub leads : M Bool
  leads = if w.opts.has_consensus then ask asks_is_leader w.env.is_leader else pure false

  -- `c.cons.Leader()`
  abbrev pub ask_leader : M (Option (Text × Text))
  ask_leader = ask asks_leader w.env.leader

  -- `c.cons.Apply(cmd, 2*time.Second)`, its error dropped.
  abbrev pub propose : Command → M (Unit {0})
  propose cmd = do ask (applies cmd) w.env.consensus_error; pure tt

  unfoldable pub apply_add_node : MemberInfo → M (Unit {0})
  unfolding leads
  apply_add_node mi = do
    lead ← leads
    if lead
        then propose (record { op = codes "AddNode"; payload = encoded (w.member_json.marshal mi) })
        else pure tt

  unfoldable pub apply_remove_node : Text → M (Unit {0})
  unfolding leads
  apply_remove_node id = do
    lead ← leads
    if lead
        then propose (record {
          op = codes "RemoveNode";
          payload = encoded (w.remove_json.marshal (record { id = id }));
        })
        else pure tt

  unfoldable pub remove_server : Text → M (Unit {0})
  unfolding leads
  remove_server id = do
    lead ← leads
    if lead
        then (if w.opts.is_reconfigurer
            then (do ask (removes_server id) w.env.consensus_error; pure tt)
            else pure tt)
        else pure tt

  -- The reaction of the leader to an event of the membership layer. The gauge of members, which
  -- asks for the members once more, is a metric; the call stays.
  unfoldable pub react : Membership.EventType → Membership.Event → M (Unit {0})
  react join e = do
    apply_add_node e.member
    members
    emit (record { kind = member_join; at = e.at; leader = none; member = some e.member; term = 0 })
  react leave e = do
    remove_server e.member.id
    apply_remove_node e.member.id
    members
    emit
        (record { kind = member_leave; at = e.at; leader = none; member = some e.member; term = 0 })
  react failed e = do
    remove_server e.member.id
    apply_remove_node e.member.id
    members
    emit (record {
      kind = member_failed;
      at = e.at;
      leader = none;
      member = some e.member;
      term = 0;
    })

  -- One event in `membershipEventsLoop`, which runs only with a membership.
  unfoldable pub membership_event : Membership.Event → M (Unit {0})
  membership_event e = do lead ← leads; if lead then react e.kind e else pure tt

  -- The loop of `reconcileMembersLoop`.
  unfoldable pub add_all : List MemberInfo → M (Unit {0})
  add_all [] = pure tt
  add_all (m ∷ ms) = do apply_add_node m; add_all ms

  -- `reconcileMembersLoop`, after its pause.
  unfoldable pub reconcile_members : M (Unit {0})
  reconcile_members = do
    lead ← leads
    if lead
        then (if w.opts.has_membership then (do ms ← members; add_all ms) else pure tt)
        else pure tt
