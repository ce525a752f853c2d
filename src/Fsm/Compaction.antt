-- ===== src/Fsm/Compaction.antt =====
-- Snapshots stand for the log that they replace.
use go_cluster.Prelude.{
  Text, text_is_eq, ◌≡◌, refl, sym, ap, ◌∙◌, Option, none, List, [], ◌∷◌, ◌++◌, map,
}
use go_cluster.Result.{ok}
use go_cluster.Json.{RoundTrips}
use go_cluster.GoMap.{lookup}
use go_cluster.Membership.{MemberInfo}
use go_cluster.State
use go_cluster.State.{State, sort_members, values}
use go_cluster.State.Validity.{IsValid, new-IsValid}
use go_cluster.State.Snapshots.{SameMembers, restore-snapshot, snapshot_canonical}
use go_cluster.Fsm.{Codecs, apply, replay, snapshot, restore}
use go_cluster.Fsm.Replay.{change, latest, lookup-replay, replay-IsValid}

replay-append :
    (c : Codecs) (l m : List Text) (s : State) → replay c (l ++ m) s ≡ replay c m (replay c l s)
unfolding replay
replay-append c [] m s = refl
replay-append c (x ∷ l) m s = replay-append c l m (apply c x s).1

-- Tables with the same members have the same members after the same log.
replay-SameMembers :
    (c : Codecs) (log : List Text) (s t : State)
    → SameMembers s t
    → SameMembers (replay c log s) (replay c log t)
replay-SameMembers c log s t h k =
    lookup-replay c k log s
    ∙ ap (λ (o : Option MemberInfo). latest k o (map (change c) log)) (h k)
    ∙ sym (lookup-replay c k log t)

-- Log compaction loses nothing: a node in any state `t` that restores the snapshot taken after
-- `log` and then applies `rest` has the members of a node that applied all of `log ++ rest` from
-- the start. The codec of the table round-trips on that snapshot.
pub replay-restore-snapshot :
    (c : Codecs) (log rest : List Text) (t : State) (blob : Text)
    → RoundTrips c.table
        (record { version = 1; members = sort_members (values (replay c log State.new).members) })
    → snapshot c (replay c log State.new) ≡ ok blob
    → SameMembers (replay c rest (restore c (ok blob) t).1) (replay c (log ++ rest) State.new)
unfolding snapshot restore
replay-restore-snapshot c log rest t blob trips h k =
    let v : IsValid (replay c log State.new) = replay-IsValid c log State.new new-IsValid in
    replay-SameMembers c rest _ (replay c log State.new)
      (restore-snapshot c.table (replay c log State.new) t blob v trips h).1 k
    ∙ ap (λ (s : State). lookup k s.members) (sym (replay-append c log rest State.new))

-- Nodes that applied logs with the same last word on every ID take byte-identical snapshots.
pub snapshot-replay_canonical :
    (c : Codecs) (l m : List Text)
    → ((k : Text) → latest k none (map (change c) l) ≡ latest k none (map (change c) m))
    → snapshot c (replay c l State.new) ≡ snapshot c (replay c m State.new)
unfolding snapshot lookup
snapshot-replay_canonical c l m h =
    snapshot_canonical c.table _ _ (replay-IsValid c l State.new new-IsValid)
      (replay-IsValid c m State.new new-IsValid)
      (λ k. lookup-replay c k l State.new ∙ h k ∙ sym (lookup-replay c k m State.new))
