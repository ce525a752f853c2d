-- ===== src/State/Validity.antt =====
-- The invariant of the membership table: each ID once, never an empty ID, and a member stored
-- under its own ID.
use go_cluster.Prelude.{
  Text, is_empty, text_is_eq, text_eq_iff, ◌≡◌, ◌≢◌, some, List, [], ◌∷◌, arith, Bool-cases, inl,
  inr,
}
use go_cluster.GoMap.{GoMap, lookup, insert, delete, lookup-insert, lookup-delete}
use go_cluster.GoMap.Unique.{IsUnique, insert-IsUnique, delete-IsUnique}
use go_cluster.Membership.{MemberInfo}
use go_cluster.Result.{Result-cases}
use go_cluster.Json.{Json}
use go_cluster.State.{
  State, Snapshot, new, apply_add_node, apply_remove_node, restore_members, restore,
}

pub record IsValid (s : State) : Type 0 where
  pub unique : IsUnique s.members
  pub keyed : (k : Text) (m : MemberInfo) → lookup k s.members ≡ some m → (m.id ≡ k) × (k ≢ [])

pub new-IsValid : IsValid new
unfolding lookup
new-IsValid = record { unique = tt; keyed = λ k m h. ground arith }

insert-keyed :
    (n : MemberInfo) (s : State) (k : Text) (m : MemberInfo)
    → IsValid s
    → n.id ≢ []
    → lookup k (insert n.id n s.members) ≡ some m
    → (m.id ≡ k) × (k ≢ [])
insert-keyed n s k m v ne h =
    ground (arith, lookup-insert n.id k n s.members, text_eq_iff n.id k, v.keyed k m)

insert-IsValid :
    (n : MemberInfo) (s : State)
    → IsValid s
    → n.id ≢ []
    → IsValid (record { members = insert n.id n s.members })
insert-IsValid n s v ne = record {
  unique = insert-IsUnique n.id n s.members v.unique;
  keyed = λ k m. insert-keyed n s k m v ne;
}

-- Adding a node, valid or not, keeps the invariant.
pub apply_add_node-IsValid :
    (n : MemberInfo) (s : State) → IsValid s → IsValid (apply_add_node n s).1
unfolding apply_add_node
apply_add_node-IsValid n s v = ground (arith, insert-IsValid n s v)

delete-IsValid :
    (k : Text) (s : State) → IsValid s → IsValid (record { members = delete k s.members })
delete-IsValid k s v = record {
  unique = delete-IsUnique k s.members v.unique;
  keyed = λ j m h. ground (arith, lookup-delete k j s.members, v.keyed j m);
}

-- Removing a node, present or not, keeps the invariant.
pub apply_remove_node-IsValid :
    (k : Text) (s : State) → IsValid s → IsValid (apply_remove_node k s).1
unfolding apply_remove_node
apply_remove_node-IsValid k s v = ground (arith, delete-IsValid k s v)

restore_members-IsValid :
    (l : List MemberInfo) (m : GoMap Text MemberInfo)
    → IsValid (record { members = m })
    → IsValid (record { members = restore_members l m })
unfolding restore_members
restore_members-IsValid [] m v = v
restore_members-IsValid (a ∷ l) m v = elim (Bool-cases (is_empty a.id)) [
  | inl e ↦ rw e (restore_members-IsValid l m v)
  | inr e ↦ rw e (
      restore_members-IsValid l (insert a.id a m)
        (insert-IsValid a (record { members = m }) v (ground arith)))
]

-- Whatever the bytes, restoring keeps the invariant.
pub restore-IsValid :
    (json : Json Snapshot) (buf : Text) (s : State) → IsValid s → IsValid (restore json buf s).1
unfolding restore
restore-IsValid json buf s v = elim (Result-cases (json.unmarshal buf)) [
  | inl (snap, e) ↦ rw (e, restore) (restore_members-IsValid snap.members [] new-IsValid)
  | inr (msg, e) ↦ rw (e, restore) v
]
