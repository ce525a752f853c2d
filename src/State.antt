-- ===== src/State.antt =====
-- pkg/state/membership/state.go: the replicated membership table. The mutex makes each method one
-- step, so a method is a function from the state to its error and the state it leaves.
pub mod Sorting
pub mod Validity
pub mod Snapshots
pub mod Table
mod Tests
use go_cluster.Prelude.{
  ℕ, Text, codes, is_empty, text_is_eq, Bool, Option, none, some, List, [], ◌∷◌, map, if◌then◌else◌,
  text_lt,
}
use go_cluster.Result.{Result, ok, err, Error, error_of, ◌>>=◌}
use go_cluster.Json.{Json}
use go_cluster.GoMap.{GoMap, insert, delete}
use go_cluster.Membership.{MemberInfo}

pub record State : Type 0 where
  pub members : GoMap Text MemberInfo

-- The JSON document of a snapshot.
pub record Snapshot : Type 0 where
  pub version : ℕ
  pub members : List MemberInfo

abbrev pub new : State
new = record { members = [] }

abbrev pub empty_node_id : Text
empty_node_id = codes "state: empty node id"

unfoldable pub apply_add_node : MemberInfo → State → Error × State
apply_add_node n s =
    if is_empty n.id
    then (some empty_node_id, s)
    else (none, record { members = insert n.id n s.members })

unfoldable pub apply_remove_node : Text → State → Error × State
apply_remove_node node_id s =
    if is_empty node_id
    then (some empty_node_id, s)
    else (none, record { members = delete node_id s.members })

abbrev pub by_id : MemberInfo → MemberInfo → Bool
by_id a b = text_lt a.id b.id

-- `sort.Slice` by `by_id`, as an insertion sort.
unfoldable pub insert_sorted : MemberInfo → List MemberInfo → List MemberInfo
insert_sorted a [] = a ∷ []
insert_sorted a (b ∷ l) = if by_id b a then b ∷ insert_sorted a l else a ∷ b ∷ l

unfoldable pub sort_members : List MemberInfo → List MemberInfo
unfolding insert_sorted
sort_members [] = []
sort_members (a ∷ l) = insert_sorted a (sort_members l)

-- The values, in the order of the `range` loop.
abbrev pub values : GoMap Text MemberInfo → List MemberInfo
values = map (λ e. e.1)

unfoldable pub snapshot : Json Snapshot → State → Result Text
snapshot json s = json.marshal (record { version = 1; members = sort_members (values s.members) })

-- The loop of `Restore`: members without an ID are skipped, and a later entry replaces an earlier.
unfoldable pub restore_members : List MemberInfo → GoMap Text MemberInfo → GoMap Text MemberInfo
restore_members [] m = m
restore_members (v ∷ l) m = restore_members l (if is_empty v.id then m else insert v.id v m)

unfoldable pub restore : Json Snapshot → Text → State → Error × State
unfolding restore_members
restore json buf s = elim (json.unmarshal buf) [
  | err e ↦ (some e, s)
  | ok snap ↦ (none, record { members = restore_members snap.members [] })
]
