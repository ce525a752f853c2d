-- ===== src/Cluster/Leadership/Table.antt =====
-- What the proposals of a leader make of the table of members: the events of the membership layer
-- (pkg/cluster/cluster.go), through the log entries (pkg/consensus/raft/raft.go and fsm.go), to the
-- members (pkg/membership/state).
use go_cluster.Prelude.{
  Text, is_empty, ◌≡◌, refl, ap, ◌∙◌, Option, List, [], ◌∷◌, ◌++◌, map, All, if◌then◌else◌,
  text_is_eq,
}
use go_cluster.Result.{ok}
use go_cluster.GoMap.{lookup}
use go_cluster.Json.{Json}
use go_cluster.Membership
use go_cluster.Membership.{MemberInfo, join, leave, failed}
use go_cluster.Consensus.{Command}
use go_cluster.State.{State}
use go_cluster.Fsm.{Codecs, apply, replay}
use go_cluster.Fsm.Replay.{Change, sets, clears, nothing, change, effect, latest, lookup-apply}
use go_cluster.Cluster.World.{Setup, History, Cluster, applies}
use go_cluster.Cluster.Leadership.{encoded}
use go_cluster.Cluster.Leadership.Events.{
  IsStableLeader, add_command, remove_command, reaction, membership_event_lem,
}
use go_cluster.Cluster.Run.{sees_member, perform, run}

-- The log entry of a command.
abbrev pub entry_of : Json Command → Command → Text
entry_of codec cmd = encoded (codec.marshal cmd)

-- The log when Raft commits every proposed command, in the order of the proposals.
abbrev pub log_of : Json Command → History → List Text
log_of codec [] = []
log_of codec (applies cmd ∷ h) = log_of codec h ++ entry_of codec cmd ∷ []
log_of codec (_ ∷ h) = log_of codec h

abbrev pub command_of : Setup → Membership.EventType → MemberInfo → Command
command_of w join m = add_command w m
command_of w _ m = remove_command w m.id

-- The state machine decodes the payload of the command for an event to what was encoded.
abbrev IsPayloadRead : Codecs → Setup → Membership.EventType → MemberInfo → Type 0
IsPayloadRead c w join m = c.member.unmarshal (add_command w m).payload ≡ ok m
IsPayloadRead c w _ m =
    c.remove.unmarshal (remove_command w m.id).payload ≡ ok (record { id = m.id })

-- JSON carries the command for the event from the leader to the state machine.
pub record IsCarried (c : Codecs) (w : Setup) (e : Membership.Event) : Type 0 where
  pub entry :
      c.command.unmarshal (entry_of c.command (command_of w e.kind e.member))
      ≡ ok (command_of w e.kind e.member)
  pub payload : IsPayloadRead c w e.kind e.member

-- What an event says of the members.
abbrev said : Membership.EventType → MemberInfo → Change
said join m = sets m
said _ m = clears m.id

abbrev pub told : Membership.Event → Change
told e = if is_empty e.member.id then nothing else said e.kind e.member

change-command_of :
    (c : Codecs) (w : Setup) (k : Membership.EventType) (m : MemberInfo)
    → c.command.unmarshal (entry_of c.command (command_of w k m)) ≡ ok (command_of w k m)
    → IsPayloadRead c w k m
    → change c (entry_of c.command (command_of w k m))
      ≡ (if is_empty m.id then nothing else said k m)
unfolding change
change-command_of c w join m entry payload = rw (change, entry, payload) refl
change-command_of c w leave m entry payload = rw (change, entry, payload) refl
change-command_of c w failed m entry payload = rw (change, entry, payload) refl

log_of-reaction :
    (codec : Json Command) (w : Setup) (k : Membership.EventType) (m : MemberInfo) (h : History)
    → log_of codec (reaction w k m h) ≡ log_of codec h ++ entry_of codec (command_of w k m) ∷ []
log_of-reaction codec w join m h = refl
log_of-reaction codec w leave m h = refl
log_of-reaction codec w failed m h = refl

replay-snoc :
    (c : Codecs) (log : List Text) (entry : Text) (s : State)
    → replay c (log ++ entry ∷ []) s ≡ (apply c entry (replay c log s)).1
unfolding replay
replay-snoc c [] entry s = refl
replay-snoc c (x ∷ log) entry s = replay-snoc c log entry (apply c x s).1

-- The member `k` in what the log of the calls so far makes of the table.
abbrev pub replicated : Codecs → State → Text → Cluster → Option MemberInfo
replicated c table k s = lookup k (replay c (log_of c.command s.calls) table).members

module _ (c : Codecs) (w : Setup) (lead : IsStableLeader w) (table : State) (k : Text) where
  replicated-sees_member :
      (e : Membership.Event) (s : Cluster)
      → IsCarried c w e
      → replicated c table k (perform w (sees_member e) s)
        ≡ effect k (replicated c table k s) (told e)
  unfolding perform
  replicated-sees_member e s carried =
      ap (λ (t : Cluster). replicated c table k t) (membership_event_lem w lead s e)
      ∙ ap (λ (log : List Text). lookup k (replay c log table).members)
          (log_of-reaction c.command w e.kind e.member s.calls)
      ∙ ap (λ (t : State). lookup k t.members) (replay-snoc c (log_of c.command s.calls) _ table)
      ∙ lookup-apply c k _ (replay c (log_of c.command s.calls) table)
      ∙ ap (effect k (replicated c table k s))
          (change-command_of c w e.kind e.member carried.entry carried.payload)

  -- While the node leads and Raft commits its proposals in order: after any events of the
  -- membership layer that JSON carries, the replicated table holds for an ID the member of the last
  -- event about it when that was a join, no member when that was a leave or a failure, and what it
  -- held before when there was none. Events with an empty ID change nothing.
  pub replicated-run :
      (es : List Membership.Event) (s : Cluster)
      → All (IsCarried c w) es
      → replicated c table k (run w (map sees_member es) s)
        ≡ latest k (replicated c table k s) (map told es)
  unfolding run
  replicated-run [] s carried = refl
  replicated-run (e ∷ es) s (first, others) =
      replicated-run es (perform w (sees_member e) s) others
      ∙ ap (λ (o : Option MemberInfo). latest k o (map told es)) (replicated-sees_member e s first)
