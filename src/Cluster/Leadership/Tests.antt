-- ===== src/Cluster/Leadership/Tests.antt =====
-- Two nodes join, and one of them leaves.
use go_cluster.Prelude.{
  Text, codes, text_is_eq, nat_eq, ◌==◌, none, some, List, [], ◌∷◌, map, ◌≡◌, refl, if◌then◌else◌,
}
use go_cluster.Result.{Result, ok, err}
use go_cluster.Membership
use go_cluster.Membership.{MemberInfo, join, leave}
use go_cluster.Consensus.{Command}
use go_cluster.State
use go_cluster.Fsm.{Codecs}
use go_cluster.Fsm.Replay.{latest}
use go_cluster.Cluster.World.{Setup, fresh}
use go_cluster.Cluster.Run.{sees_member, run}
use go_cluster.Cluster.Scenario.{leader_setup}
use go_cluster.Cluster.Leadership.Events.{IsStableLeader}
use go_cluster.Cluster.Leadership.Table.{IsCarried, replicated, told, replicated-run}

abbrev member_of : Text → MemberInfo
member_of id = record { id = id; addr = codes "b:1"; meta = none }

-- An entry is `+` or `-` in front of an ID.
abbrev encode_command : Command → Result Text
encode_command cmd = ok ((if cmd.op == codes "AddNode" then b'+' else b'-') ∷ cmd.payload)

abbrev decode_command : Text → Result Command
decode_command [] = err (codes "empty")
decode_command (c ∷ id) =
    ok (record { op = if c == b'+' then codes "AddNode" else codes "RemoveNode"; payload = id })

abbrev codecs : Codecs
codecs = record {
  command = record { marshal = encode_command; unmarshal = decode_command };
  member = record { marshal = λ m. ok m.id; unmarshal = λ b. ok (member_of b) };
  remove = record { marshal = λ r. ok r.id; unmarshal = λ b. ok (record { id = b }) };
  table = record { marshal = λ s. ok []; unmarshal = λ b. err [] };
}

abbrev setup : Setup
setup = record leader_setup { member_json = codecs.member; remove_json = codecs.remove }

abbrev setup_leads : IsStableLeader setup
setup_leads = record { consensus = refl; reconfigures = refl; always = λ h. refl }

abbrev event : Membership.EventType → Text → Membership.Event
event k id = record { kind = k; member = member_of id; at = 5 }

abbrev events : List Membership.Event
events = event join (codes "b") ∷ event join (codes "c") ∷ event leave (codes "b") ∷ []

carried : {id : Text} → IsCarried codecs setup (event join id)
carried = record { entry = refl; payload = refl }

-- The one that stayed is in the table, the one that left is not.
latest-stays : latest (codes "c") none (map told events) ≡ some (member_of (codes "c"))
latest-stays = refl

latest-left : latest (codes "b") none (map told events) ≡ none
latest-left = refl

replicated-run_example :
    replicated codecs State.new (codes "c") (run setup (map sees_member events) fresh)
    ≡ latest (codes "c") (replicated codecs State.new (codes "c") fresh) (map told events)
replicated-run_example =
    replicated-run codecs setup setup_leads State.new (codes "c") events fresh
      (carried, (carried, (record { entry = refl; payload = refl }, tt)))
