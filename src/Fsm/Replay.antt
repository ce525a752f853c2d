-- ===== src/Fsm/Replay.antt =====
-- What the table holds after a log, by an independent description: the last entry about an ID
-- decides.
use go_cluster.Prelude.{
  Text, codes, is_empty, ◌==◌, text_is_eq, ◌≡◌, refl, ap, ◌∙◌, Option, none, some, List, [], ◌∷◌,
  map, arith, if◌then◌else◌, Bool-cases, inl, inr,
}
use go_cluster.Result.{Result, ok, err, Result-cases}
use go_cluster.GoMap.{lookup, lookup-insert, lookup-delete}
use go_cluster.Membership.{MemberInfo}
use go_cluster.Consensus.{Command}
use go_cluster.State.{State, apply_add_node, apply_remove_node}
use go_cluster.State.Validity.{IsValid, apply_add_node-IsValid, apply_remove_node-IsValid}
use go_cluster.Fsm.{Codecs, RemoveRequest, apply_add, apply_remove, dispatch, apply, replay}

-- What a log entry says.
pub data Change : Type 0 where
  sets : MemberInfo → Change
  clears : Text → Change
  nothing : Change

abbrev change_of_add : Result MemberInfo → Change
change_of_add (err e) = nothing
change_of_add (ok m) = if is_empty m.id then nothing else sets m

abbrev change_of_remove : Result RemoveRequest → Change
change_of_remove (err e) = nothing
change_of_remove (ok r) = if is_empty r.id then nothing else clears r.id

abbrev change_of_command : Codecs → Result Command → Change
change_of_command c (err e) = nothing
change_of_command c (ok cmd) =
    if cmd.op == codes "AddNode"
    then change_of_add (c.member.unmarshal cmd.payload)
    else if cmd.op == codes "RemoveNode"
    then change_of_remove (c.remove.unmarshal cmd.payload)
    else nothing

-- Entries that do not decode, of an unknown operation, or with an empty ID say nothing.
unfoldable pub change : Codecs → Text → Change
change c entry = change_of_command c (c.command.unmarshal entry)

-- What one change makes of the member with the ID `k`.
abbrev pub effect : Text → Option MemberInfo → Change → Option MemberInfo
effect k cur (sets m) = if m.id == k then some m else cur
effect k cur (clears id) = if id == k then none else cur
effect k cur nothing = cur

-- The member `k` after the changes, from the member that it was.
abbrev pub latest : Text → Option MemberInfo → List Change → Option MemberInfo
latest k cur [] = cur
latest k cur (x ∷ xs) = latest k (effect k cur x) xs

lookup-apply_add_node :
    (k : Text) (m : MemberInfo) (s : State)
    → lookup k (apply_add_node m s).1.members
      ≡ effect k (lookup k s.members) (if is_empty m.id then nothing else sets m)
unfolding apply_add_node
lookup-apply_add_node k m s = ground (arith, lookup-insert m.id k m s.members)

lookup-apply_remove_node :
    (k id : Text) (s : State)
    → lookup k (apply_remove_node id s).1.members
      ≡ effect k (lookup k s.members) (if is_empty id then nothing else clears id)
unfolding apply_remove_node
lookup-apply_remove_node k id s = ground (arith, lookup-delete id k s.members)

lookup-apply_add :
    (c : Codecs) (k payload : Text) (s : State)
    → lookup k (apply_add c payload s).1.members
      ≡ effect k (lookup k s.members) (change_of_add (c.member.unmarshal payload))
unfolding apply_add
lookup-apply_add c k payload s = elim (Result-cases (c.member.unmarshal payload)) [
  | inl (m, e) ↦ rw (e, apply_add) (lookup-apply_add_node k m s)
  | inr (msg, e) ↦ rw (e, apply_add) refl
]

lookup-apply_remove :
    (c : Codecs) (k payload : Text) (s : State)
    → lookup k (apply_remove c payload s).1.members
      ≡ effect k (lookup k s.members) (change_of_remove (c.remove.unmarshal payload))
unfolding apply_remove
lookup-apply_remove c k payload s = elim (Result-cases (c.remove.unmarshal payload)) [
  | inl (r, e) ↦ rw (e, apply_remove) (lookup-apply_remove_node k r.id s)
  | inr (msg, e) ↦ rw (e, apply_remove) refl
]

pub lookup-apply :
    (c : Codecs) (k entry : Text) (s : State)
    → lookup k (apply c entry s).1.members ≡ effect k (lookup k s.members) (change c entry)
unfolding apply change
lookup-apply c k entry s = elim (Result-cases (c.command.unmarshal entry)) [
  | inr (msg, e) ↦ rw (e, apply, change) refl
  | inl (cmd, e) ↦ rw (e, apply, change) (go cmd)
]
  where
    go :
        (cmd : Command)
        → lookup k (dispatch c cmd s).1.members
          ≡ effect k (lookup k s.members) (change_of_command c (ok cmd))
    go cmd =
        ground (arith, lookup-apply_add c k cmd.payload s, lookup-apply_remove c k cmd.payload s)

-- After any log, from any table, the member `k` is what the last entry about `k` says: the member
-- of the last valid AddNode of `k` with no later RemoveNode of `k`, or none, or, where no entry is
-- about `k`, the member that was there before.
pub lookup-replay :
    (c : Codecs) (k : Text) (log : List Text) (s : State)
    → lookup k (replay c log s).members ≡ latest k (lookup k s.members) (map (change c) log)
unfolding replay
lookup-replay c k [] s = refl
lookup-replay c k (entry ∷ log) s =
    lookup-replay c k log (apply c entry s).1
    ∙ ap (λ (o : Option MemberInfo). latest k o (map (change c) log)) (lookup-apply c k entry s)

-- An entry leaves the table alone, or adds or removes one node.
module _ {ℓ} (P : State → Type ℓ) (s : State) (same : P s) where
  apply_add_cases :
      (c : Codecs) (payload : Text)
      → ((m : MemberInfo) → P (apply_add_node m s).1)
      → P (apply_add c payload s).1
  unfolding apply_add
  apply_add_cases c payload added = elim (Result-cases (c.member.unmarshal payload)) [
    | inl (m, e) ↦ rw (e, apply_add) (added m)
    | inr (msg, e) ↦ rw (e, apply_add) same
  ]

  apply_remove_cases :
      (c : Codecs) (payload : Text)
      → ((id : Text) → P (apply_remove_node id s).1)
      → P (apply_remove c payload s).1
  unfolding apply_remove
  apply_remove_cases c payload removed = elim (Result-cases (c.remove.unmarshal payload)) [
    | inl (r, e) ↦ rw (e, apply_remove) (removed r.id)
    | inr (msg, e) ↦ rw (e, apply_remove) same
  ]

  dispatch_cases :
      (c : Codecs) (cmd : Command)
      → P (apply_add c cmd.payload s).1
      → P (apply_remove c cmd.payload s).1
      → P (dispatch c cmd s).1
  unfolding dispatch
  dispatch_cases c cmd added removed = elim (Bool-cases (cmd.op == codes "AddNode")) [
    | inl a ↦ rw (a, dispatch) added
    | inr na ↦ elim (Bool-cases (cmd.op == codes "RemoveNode")) [
      | inl r ↦ rw (na, r, dispatch) removed
      | inr nr ↦ rw (na, nr, dispatch) same
    ]
  ]

  apply_cases :
      (c : Codecs) (entry : Text)
      → ((m : MemberInfo) → P (apply_add_node m s).1)
      → ((id : Text) → P (apply_remove_node id s).1)
      → P (apply c entry s).1
  unfolding apply
  apply_cases c entry added removed = elim (Result-cases (c.command.unmarshal entry)) [
    | inr (msg, e) ↦ rw (e, apply) same
    | inl (cmd, e) ↦
        rw (e, apply)
          (dispatch_cases c cmd (apply_add_cases c cmd.payload added)
            (apply_remove_cases c cmd.payload removed))
  ]

apply-IsValid : (c : Codecs) (entry : Text) (s : State) → IsValid s → IsValid (apply c entry s).1
apply-IsValid c entry s v =
    apply_cases IsValid s v c entry (λ m. apply_add_node-IsValid m s v)
      (λ id. apply_remove_node-IsValid id s v)

-- A log never breaks the table's invariant.
pub replay-IsValid :
    (c : Codecs) (log : List Text) (s : State) → IsValid s → IsValid (replay c log s)
unfolding replay
replay-IsValid c [] s v = v
replay-IsValid c (entry ∷ log) s v =
    replay-IsValid c log (apply c entry s).1 (apply-IsValid c entry s v)
