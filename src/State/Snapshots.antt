-- ===== src/State/Snapshots.antt =====
-- `Snapshot` and `Restore`: the encoding does not depend on the map's order, and restoring a
-- snapshot brings back the members.
use go_cluster.Prelude.{
  Text, text_is_eq, text_eq_iff, ◌≡◌, refl, sym, ap, ◌∙◌, ◌≢◌, none, some, List, [], ◌∷◌, arith,
  All,
}
use go_cluster.Result.{ok}
use go_cluster.Json.{Json, RoundTrips}
use go_cluster.GoMap.{GoMap, lookup, insert, lookup-insert}
use go_cluster.GoMap.Unique.{IsUnique}
use go_cluster.Membership.{MemberInfo}
use go_cluster.State.{State, Snapshot, sort_members, values, snapshot, restore_members, restore}
use go_cluster.State.Sorting.{
  entries, IsSorted, lookup-sort_members, sort_members-IsSorted, IsSorted-IsUnique, IsSorted-unique,
}
use go_cluster.State.Validity.{IsValid}

-- The two tables answer every lookup alike: Go's maps with the same contents.
abbrev pub SameMembers : State → State → Type 0
SameMembers s t = (k : Text) → lookup k s.members ≡ lookup k t.members

-- A stored member stands under its own ID, so the map is rebuilt from its values.
entries-values :
    (m : GoMap Text MemberInfo)
    → IsUnique m
    → ((k : Text) (v : MemberInfo) → lookup k m ≡ some v → v.id ≡ k)
    → entries (values m) ≡ m
unfolding lookup
entries-values [] u h = refl
entries-values ((k, v) ∷ m) (fresh, u) h =
    let own : v.id ≡ k = ground (arith, h k v, text_eq_iff k k) in
    let rest : entries (values m) ≡ m =
      entries-values m u (λ j w e. ground (arith, h j w, text_eq_iff k j)) in
    rw (own, rest)

pub entries-members : (s : State) → IsValid s → entries (values s.members) ≡ s.members
entries-members s v = entries-values s.members v.unique (λ k m h. (v.keyed k m h).0)

-- The sorted list of a snapshot has the members of the table.
pub lookup-snapshot :
    (s : State) (k : Text)
    → IsValid s
    → lookup k (entries (sort_members (values s.members))) ≡ lookup k s.members
lookup-snapshot s k v =
    lookup-sort_members k (values s.members) (rw (entries-members s v) v.unique)
    ∙ ap (lookup k) (entries-members s v)

pub sorted_members_canonical :
    (s t : State)
    → IsValid s
    → IsValid t
    → SameMembers s t
    → sort_members (values s.members) ≡ sort_members (values t.members)
sorted_members_canonical s t vs vt h =
    IsSorted-unique _ _ (sort_members-IsSorted _ (rw (entries-members s vs) vs.unique))
      (sort_members-IsSorted _ (rw (entries-members t vt) vt.unique))
      (λ k. lookup-snapshot s k vs ∙ h k ∙ sym (lookup-snapshot t k vt))

-- Two valid tables with the same members have the same snapshot bytes: the order in which Go
-- happens to visit the map does not show.
pub snapshot_canonical :
    (json : Json Snapshot) (s t : State)
    → IsValid s
    → IsValid t
    → SameMembers s t
    → snapshot json s ≡ snapshot json t
unfolding snapshot
snapshot_canonical json s t vs vt h =
    ap (λ (l : List MemberInfo). json.marshal (record { version = 1; members = l }))
      (sorted_members_canonical s t vs vt h)

-- Members with distinct IDs, none empty, are all restored, each under its ID.
lookup-restore_members :
    (k : Text) (l : List MemberInfo) (m : GoMap Text MemberInfo)
    → IsUnique (entries l)
    → All (λ v. v.id ≢ []) l
    → lookup k (restore_members l m)
      ≡ (elim (lookup k (entries l)) [ none ↦ lookup k m | some v ↦ some v ])
unfolding lookup restore_members
lookup-restore_members k [] m u ne = refl
lookup-restore_members k (a ∷ l) m (fresh, u) (ne, nes) = ground (
  arith,
  lookup-restore_members k l (insert a.id a m) u nes,
  lookup-insert a.id k a m,
  text_eq_iff a.id k,
)

named :
    (l : List MemberInfo)
    → IsUnique (entries l)
    → ((k : Text) (v : MemberInfo) → lookup k (entries l) ≡ some v → k ≢ [])
    → All (λ v. v.id ≢ []) l
unfolding lookup
named [] u h = tt
named (a ∷ l) (fresh, u) h = (
  h a.id a (ground (arith, text_eq_iff a.id a.id)),
  named l u (λ k v e. h k v (ground (arith, text_eq_iff a.id k))),
)

sort_members-values-IsSorted : (s : State) → IsValid s → IsSorted (sort_members (values s.members))
sort_members-values-IsSorted s v = sort_members-IsSorted _ (rw (entries-members s v) v.unique)

restore_members-sorted :
    (s : State) (k : Text)
    → IsValid s
    → lookup k (restore_members (sort_members (values s.members)) []) ≡ lookup k s.members
restore_members-sorted s k v =
    let u : IsUnique (entries (sort_members (values s.members))) =
      IsSorted-IsUnique _ (sort_members-values-IsSorted s v) in
    let ne : All (λ v. v.id ≢ []) (sort_members (values s.members)) =
      named _ u (λ j m e. (v.keyed j m (sym (lookup-snapshot s j v) ∙ e)).1) in
    lookup-restore_members k _ [] u ne ∙ unfold lookup in ground (arith, lookup-snapshot s k v)

-- Restoring the snapshot of a valid table `s`, into a node in any state `t`, succeeds and leaves
-- a table with the members of `s`, if the codec round-trips on the snapshot.
pub restore-snapshot :
    (json : Json Snapshot) (s t : State) (blob : Text)
    → IsValid s
    → RoundTrips json (record { version = 1; members = sort_members (values s.members) })
    → snapshot json s ≡ ok blob
    → ((restore json blob t).0 ≡ none) × SameMembers (restore json blob t).1 s
unfolding snapshot restore
restore-snapshot json s t blob v trips h =
    rw (trips blob h, restore) (refl, λ k. restore_members-sorted s k v)
