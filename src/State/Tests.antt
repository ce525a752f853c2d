-- ===== src/State/Tests.antt =====
-- A table of two members, and the theorems of the table applied.
use go_cluster.Prelude.{Text, codes, text_is_eq, none, ◌≡◌, refl}
use go_cluster.Result.{ok}
use go_cluster.Json.{Json}
use go_cluster.Membership.{MemberInfo}
use go_cluster.State.{State, Snapshot, new, apply_add_node, sort_members, values, snapshot, restore}
use go_cluster.State.Validity.{IsValid, new-IsValid, apply_add_node-IsValid}
use go_cluster.State.Table.{Table, members, members_injective}
use go_cluster.Prelude.{◌↔◌}
use mathlib.Core.Quot
use go_cluster.State.Snapshots.{SameMembers, restore-snapshot}

abbrev member : Text → MemberInfo
member id = record { id = id; addr = codes "x:1"; meta = none }

-- The members a and b, added in both orders.
abbrev ab : State
ab = (apply_add_node (member (codes "b")) (apply_add_node (member (codes "a")) new).1).1

abbrev ba : State
ba = (apply_add_node (member (codes "a")) (apply_add_node (member (codes "b")) new).1).1

ab-IsValid : IsValid ab
ab-IsValid = apply_add_node-IsValid _ _ (apply_add_node-IsValid _ new new-IsValid)

ba-IsValid : IsValid ba
ba-IsValid = apply_add_node-IsValid _ _ (apply_add_node-IsValid _ new new-IsValid)

-- A codec that knows one document.
abbrev codec : Json Snapshot
codec = record {
  marshal = λ a. ok (codes "ab");
  unmarshal = λ b. ok (record { version = 1; members = sort_members (values ab.members) });
}

restore-snapshot_example :
    ((restore codec (codes "ab") new).0 ≡ none) × SameMembers (restore codec (codes "ab") new).1 ab
unfolding snapshot
restore-snapshot_example = restore-snapshot codec ab new (codes "ab") ab-IsValid (λ b h. refl) refl

members_injective_example :
    (members (Quot.mk (ab, ab-IsValid)) ≡ members (Quot.mk (ba, ba-IsValid)))
    ↔ (Path Table (Quot.mk (ab, ab-IsValid)) (Quot.mk (ba, ba-IsValid)))
members_injective_example = members_injective (Quot.mk (ab, ab-IsValid)) (Quot.mk (ba, ba-IsValid))
