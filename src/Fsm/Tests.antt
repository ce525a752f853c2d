-- ===== src/Fsm/Tests.antt =====
-- A log of two additions and a removal, and the theorems of the state machine applied.
use go_cluster.Prelude.{
  Text, codes, text_is_eq, nat_eq, ◌==◌, none, List, [], ◌∷◌, ◌++◌, map, ◌≡◌, refl, if◌then◌else◌,
}
use go_cluster.Result.{Result, ok, err}
use go_cluster.GoMap.{lookup, insert, delete}
use go_cluster.Membership.{MemberInfo}
use go_cluster.Consensus.{Command}
use go_cluster.State
use go_cluster.State.{Snapshot, apply_add_node, apply_remove_node, sort_members, values}
use go_cluster.State.Snapshots.{SameMembers}
use go_cluster.Fsm.{Codecs, replay, apply, dispatch, apply_add, apply_remove, snapshot, restore}
use go_cluster.Fsm.Replay.{change, latest, lookup-replay}
use go_cluster.Fsm.Compaction.{replay-restore-snapshot}

-- An entry is `+` or `-` in front of an ID.
abbrev decode_command : Text → Result Command
decode_command [] = err (codes "empty")
decode_command (c ∷ id) =
    ok (record { op = if c == b'+' then codes "AddNode" else codes "RemoveNode"; payload = id })

abbrev log : List Text
log = codes "+a" ∷ codes "+b" ∷ codes "-a" ∷ []

abbrev rest : List Text
rest = codes "+c" ∷ codes "-b" ∷ []

abbrev member : Text → MemberInfo
member id = record { id = id; addr = codes "x:1"; meta = none }

-- The table codec knows one document, that of the table after the log.
abbrev codecs : Codecs
codecs = record {
  command = record { marshal = λ c. ok []; unmarshal = decode_command };
  member = record { marshal = λ m. ok m.id; unmarshal = λ b. ok (member b) };
  remove = record { marshal = λ r. ok r.id; unmarshal = λ b. ok (record { id = b }) };
  table = record {
    marshal = λ s. ok (codes "b");
    unmarshal = λ b. ok (record { version = 1; members = member (codes "b") ∷ [] });
  };
}

lookup-replay_example :
    lookup (codes "a") (replay codecs log State.new).members
    ≡ latest (codes "a") (lookup (codes "a") State.new.members) (map (change codecs) log)
lookup-replay_example = lookup-replay codecs (codes "a") log State.new

replay-restore-snapshot_example :
    SameMembers
      (replay codecs rest (restore codecs (ok (codes "b")) State.new).1)
      (replay codecs (log ++ rest) State.new)
unfolding replay snapshot State.snapshot apply dispatch apply_add apply_remove apply_add_node
    apply_remove_node insert delete sort_members
replay-restore-snapshot_example =
    replay-restore-snapshot codecs log rest State.new (codes "b") (λ b h. refl) refl
