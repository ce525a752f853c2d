-- ===== src/Cluster/World.antt =====
-- The state of a `Cluster`, the calls that it makes to the components injected into it, and what
-- those answer. An answer is any function of all calls so far, so leadership, membership and
-- acknowledgements may change between any two calls.
use go_cluster.Prelude.{
  ℕ, Text, codes, is_empty, Bool, false, Option, none, some, List, [], ◌∷◌, ◌++◌, if◌then◌else◌,
}
use go_cluster.Prelude.Int.{ℤ}
use go_cluster.Result.{Result, ok, err, Error}
use go_cluster.Json.{Json}
use go_cluster.GoMap.{GoMap}
use go_cluster.Membership.{MemberInfo}
use go_cluster.Consensus.{Command}
use go_cluster.EventBus.{Event}
use go_cluster.Fsm.{RemoveRequest}
use go_cluster.Transport.{
  JoinRequest, JoinResponse, AppWriteRequest, AppWriteResponse, AppSyncRequest,
}

-- pkg/cluster/status.go
pub record ClusterStatus : Type 0 where
  pub healthy : Bool
  pub term : ℕ
  pub leader_id : Text
  pub leader_addr : Text
  pub members : List MemberInfo
  pub warnings : List Text

-- A call to an injected component.
pub data Call : Type 0 where
  asks_is_leader asks_leader asks_term starts_consensus stops_consensus : Call
  applies : Command → Call
  adds_voter : Text → Text → Call
  removes_server : Text → Call
  asks_seeds starts_membership leaves_membership stops_membership asks_members : Call
  joins_membership : List Text → Call
  starts_server stops_server asks_acked : Call
  broadcasts : Text → Text → ℕ → Call
  gets_status : Text → Call
  posts_join : Text → JoinRequest → Call
  posts_app_write : Text → AppWriteRequest → Call
  posts_app_sync : Text → AppSyncRequest → Call
  handles_write : Text → Text → Call
  handles_sync : Text → Text → Call
  makes_dir : Text → Call
  reads_dir : Text → Call
  reads_file : Text → Call
  writes_file : Text → Text → Call
  removes_file : Text → Call
  waits : Call

-- All calls so far, the newest first.
abbrev pub History : Type 0
History = List Call

-- `os.DirEntry`
pub record DirEntry : Type 0 where
  pub name : Text
  pub is_dir : Bool

-- The answer to the newest call.
pub record Env : Type 0 where
  pub now : History → ℕ
  pub is_leader : History → Bool
  pub leader : History → Option (Text × Text)
  pub term : History → ℕ
  pub consensus_error : History → Error
  pub seeds : History → List Text
  pub membership_error : History → Error
  pub members : History → List MemberInfo
  pub server_error : History → Error
  pub acked : History → Option (GoMap Text ℕ)
  pub reached : History → ℕ
  pub status : History → Result Text
  pub join : History → Result JoinResponse
  pub app_write : History → Result AppWriteResponse
  pub handler_write : History → Result Text
  pub handler_sync : History → Error
  pub dir_entries : History → Result (List DirEntry)
  pub file_text : History → Result Text
  -- of `select { case <-ctx.Done(): case <-time.After(…): }`: the context is done, with its error
  pub cancelled : History → Option Text

-- pkg/cluster/options.go. A Bool says that a component is not nil, or that it has an optional
-- interface.
pub record Options : Type 0 where
  pub node_id : Text
  pub raft_addr : Text
  pub has_transport : Bool
  pub has_discovery : Bool
  pub has_logger : Bool
  pub has_consensus : Bool
  pub is_reconfigurer : Bool
  pub has_membership : Bool
  pub has_server : Bool
  pub server_addr : Text
  pub server_acks : Bool
  pub server_broadcasts : Bool
  pub has_client : Bool
  pub has_handlers : Bool
  pub repl_window : ℤ
  pub repl_buffer_dir : Text

-- What does not change while a node runs; `path_join` is `filepath.Join`.
pub record Setup : Type 0 where
  pub env : Env
  pub opts : Options
  pub member_json : Json MemberInfo
  pub remove_json : Json RemoveRequest
  pub status_json : Json ClusterStatus
  pub path_join : Text → Text → Text

-- The sequence number and the unacknowledged messages of each topic.
pub record Rep : Type 0 where
  pub seq : GoMap Text ℕ
  pub buf : GoMap Text (GoMap ℕ Text)

-- `events` are the events handed to the event bus, the newest last.
pub record Cluster : Type 0 where
  pub started : Bool
  pub closed : Bool
  pub rep : Rep
  pub had_leader : Bool
  pub in_progress : Bool
  pub events : List Event
  pub calls : History

abbrev pub fresh : Cluster
fresh = record {
  started = false;
  closed = false;
  rep = record { seq = []; buf = [] };
  had_leader = false;
  in_progress = false;
  events = [];
  calls = [];
}

-- `Options.Validate`.
unfoldable pub validate : Options → Error
validate o =
    if is_empty o.node_id
    then some (codes "cluster: empty NodeID")
    else if o.has_transport
    then (if o.has_discovery
        then (if o.has_logger
            then (if o.has_membership then none else some (codes "cluster: nil Membership"))
            else some (codes "cluster: nil Logger"))
        else some (codes "cluster: nil Discovery"))
    else some (codes "cluster: nil Transport")

-- `New`.
unfoldable pub new : Options → Result Cluster
unfolding validate
new o = elim (validate o) [ none ↦ ok fresh | some e ↦ err e ]

-- A method: it changes the state and returns a value.
abbrev pub M : Type 0 → Type 0
M A = Cluster → A × Cluster

infixl 5 ◌>>=◌ ◌>>◌
abbrev pub ◌>>=◌ : {A B : Type 0} → M A → (A → M B) → M B
◌>>=◌ m f s = let (a, s') = m s in f a s'

abbrev pub ◌>>◌ : {A B : Type 0} → M A → M B → M B
◌>>◌ m n s = let (a, s') = m s in n s'

abbrev pub pure : {A : Type 0} → A → M A
pure a s = (a, s)

-- Makes a call and takes its answer.
abbrev pub ask : {A : Type 0} → Call → (History → A) → M A
ask c answer s = (answer (c ∷ s.calls), record s { calls = c ∷ s.calls })

abbrev pub emit : Event → M (Unit {0})
emit ev s = (tt, record s { events = s.events ++ ev ∷ [] })

abbrev pub modify : (Cluster → Cluster) → M (Unit {0})
modify f s = (tt, f s)

-- The error of `errors.go` that the facade returns.
abbrev pub not_leader_error : Text
not_leader_error = codes "cluster: not leader"
