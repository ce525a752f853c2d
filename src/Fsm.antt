-- ===== src/Fsm.antt =====
-- pkg/consensus/raft/fsm.go: the state machine that Raft drives, over the membership table.
pub mod Replay
pub mod Compaction
mod Tests
use go_cluster.Prelude.{
  Text, codes, ◌==◌, text_is_eq, Option, none, some, List, [], ◌∷◌, if◌then◌else◌,
}
use go_cluster.Result.{Result, ok, err, Error}
use go_cluster.Json.{Json}
use go_cluster.Membership.{MemberInfo}
use go_cluster.Consensus.{Command}
use go_cluster.State
use go_cluster.State.{State, Snapshot, apply_add_node, apply_remove_node}

-- `struct{ ID string }`, the payload of a removal.
pub record RemoveRequest : Type 0 where
  pub id : Text

-- The codecs of the log entries and of the snapshot.
pub record Codecs : Type 0 where
  pub command : Json Command
  pub member : Json MemberInfo
  pub remove : Json RemoveRequest
  pub table : Json Snapshot

unfoldable pub apply_add : Codecs → Text → State → Error × State
apply_add c payload s = elim (c.member.unmarshal payload) [
  | err e ↦ (some e, s)
  | ok mi ↦ apply_add_node mi s
]

unfoldable pub apply_remove : Codecs → Text → State → Error × State
apply_remove c payload s = elim (c.remove.unmarshal payload) [
  | err e ↦ (some e, s)
  | ok req ↦ apply_remove_node req.id s
]

-- The `switch cmd.Op`.
unfoldable pub dispatch : Codecs → Command → State → Error × State
unfolding apply_add apply_remove
dispatch c cmd s =
    if cmd.op == codes "AddNode"
    then apply_add c cmd.payload s
    else if cmd.op == codes "RemoveNode"
    then apply_remove c cmd.payload s
    else (none, s)

-- `Apply`, on the data of a log entry.
unfoldable pub apply : Codecs → Text → State → Error × State
unfolding dispatch
apply c entry s = elim (c.command.unmarshal entry) [
  | err e ↦ (some e, s)
  | ok cmd ↦ dispatch c cmd s
]

-- `Snapshot` and `Persist` hand on the bytes of the table's snapshot; `sink` says whether the
-- write and the close of the snapshot sink succeed.
unfoldable pub persist : (Text → Error) → Result Text → Error
persist sink (err e) = some e
persist sink (ok blob) = sink blob

unfoldable pub snapshot : Codecs → State → Result Text
snapshot c s = State.snapshot c.table s

-- `Restore` reads everything first; `none` is a failed read.
unfoldable pub restore : Codecs → Result Text → State → Error × State
restore c (err e) s = (some e, s)
restore c (ok data_read) s = State.restore c.table data_read s

-- Raft applies the committed entries in order.
unfoldable pub replay : Codecs → List Text → State → State
replay c [] s = s
replay c (entry ∷ log) s = replay c log (apply c entry s).1
