-- ===== src/EventBus.antt =====
-- pkg/cluster/events.go: the event bus. A subscriber is its channel, known by a number in place of
-- the channel's address; `registered` says that the bus holds it. Each method runs under the
-- bus's mutex. The goroutine of a subscription first removes its channel and then closes it.
pub mod Delivery
pub mod Interleaving
pub mod Safety
mod Tests
use go_cluster.Prelude.{
  ℕ, Text, nat_eq, Bool, true, false, Option, none, some, List, [], ◌∷◌, if◌then◌else◌,
}
use go_cluster.GoMap.{GoMap, lookup, insert, delete}
use go_cluster.Channel.{Chan, make, offer, close}
use go_cluster.Consensus.{LeaderInfo}
use go_cluster.Membership.{MemberInfo}

pub data EventType : Type 0 where
  leader_changed election_start election_end member_join member_leave member_failed : EventType

pub record Event : Type 0 where
  pub kind : EventType
  pub at : ℕ
  pub leader : Option LeaderInfo
  pub member : Option MemberInfo
  pub term : ℕ

-- The bus's set of channels, and every channel ever made.
pub record Bus : Type 0 where
  pub subs : GoMap ℕ (Unit {0})
  pub chans : GoMap ℕ (Chan Event)

abbrev pub empty : Bus
empty = record { subs = []; chans = [] }

-- `add`, for the channel that `Subscribe` has just made; `ch` is its address.
unfoldable pub subscribe : ℕ → Bus → Bus
subscribe ch b = record { subs = insert ch tt b.subs; chans = insert ch (make 64) b.chans }

unfoldable pub remove : ℕ → Bus → Bus
remove ch b = record b { subs = delete ch b.subs }

-- `close(ch)`; `none` is a panic.
unfoldable pub close_chan : ℕ → Bus → Option Bus
close_chan ch b = elim (lookup ch b.chans) [
  | none ↦ none
  | some c ↦ elim (close c) [
    | none ↦ none
    | some c' ↦ some (record b { chans = insert ch c' b.chans })
  ]
]

-- The send to one subscriber.
unfoldable pub send : Event → ℕ → GoMap ℕ (Chan Event) → Option (GoMap ℕ (Chan Event))
send ev ch chans = elim (lookup ch chans) [
  | none ↦ none
  | some c ↦ elim (offer ev c) [ none ↦ none | some c' ↦ some (insert ch c' chans) ]
]

-- The loop of `publish`.
unfoldable pub send_all :
    Event → GoMap ℕ (Unit {0}) → GoMap ℕ (Chan Event) → Option (GoMap ℕ (Chan Event))
unfolding send
send_all ev [] chans = some chans
send_all ev ((ch, _) ∷ subs) chans = elim (send ev ch chans) [
  | none ↦ none
  | some chans' ↦ send_all ev subs chans'
]

unfoldable pub publish : Event → Bus → Option Bus
publish ev b = elim (send_all ev b.subs b.chans) [
  | none ↦ none
  | some chans ↦ some (record b { chans = chans })
]
