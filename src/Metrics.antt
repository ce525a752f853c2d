-- ===== src/Metrics.antt =====
-- pkg/observability/metrics/metrics.go: the metrics of a node and their registration. Prometheus is
-- a parameter; the help texts are left out.
pub mod Registering
use go_cluster.Prelude.{
  Text, codes, is_empty, ◌++◌, Bool, true, Option, none, some, List, [], ◌∷◌, map, if◌then◌else◌,
}

pub data Kind : Type 0 where
  counter gauge counter_vec gauge_vec : Kind

pub record Collector : Type 0 where
  pub kind : Kind
  pub namespace : Text
  pub subsystem : Text
  pub name : Text
  pub labels : List Text

-- The name under which Prometheus registers a metric: the parts that are not empty.
unfoldable pub full_name : Collector → Text
full_name c =
    if is_empty c.subsystem
    then c.namespace ++ codes "_" ++ c.name
    else c.namespace ++ codes "_" ++ c.subsystem ++ codes "_" ++ c.name

abbrev pub metric : Kind → Text → Text → List Text → Collector
metric kind subsystem name labels = record {
  kind = kind;
  namespace = codes "go_cluster";
  subsystem = subsystem;
  name = name;
  labels = labels;
}

abbrev by_topic : List Text
by_topic = codes "topic" ∷ []

abbrev by_node : List Text
by_node = codes "topic" ∷ codes "node" ∷ []

abbrev grpc_conn : Kind → Text → Collector
grpc_conn kind name = metric kind (codes "grpc_conn") name []

abbrev repl : Kind → Text → List Text → Collector
repl kind name labels = metric kind (codes "repl") name labels

-- The variables of the package.
pub data Variable : Type 0 where
  cluster_members is_leader leader_changes join_requests conn_dials conn_reuse conn_evictions
        conn_active published broadcasts acks acks_per_node ack_seq_per_node lag_per_node seq
        ack_seq lag subs :
      Variable

-- What each of them is declared as.
abbrev pub collector : Variable → Collector
collector cluster_members = metric gauge [] (codes "members_total") []
collector is_leader = metric gauge [] (codes "is_leader") []
collector leader_changes = metric counter [] (codes "leader_changes_total") []
collector join_requests = metric counter_vec [] (codes "join_requests_total") (codes "result" ∷ [])
collector conn_dials = grpc_conn counter (codes "dials_total")
collector conn_reuse = grpc_conn counter (codes "reuse_total")
collector conn_evictions = grpc_conn counter (codes "evictions_total")
collector conn_active = grpc_conn gauge (codes "active")
collector published = repl counter_vec (codes "published_total") by_topic
collector broadcasts = repl counter_vec (codes "broadcast_total") by_topic
collector acks = repl counter_vec (codes "acks_total") by_topic
collector acks_per_node = repl counter_vec (codes "acks_per_node_total") by_node
collector ack_seq_per_node = repl gauge_vec (codes "ack_seq_per_node") by_node
collector lag_per_node = repl gauge_vec (codes "lag_per_node") by_node
collector seq = repl gauge_vec (codes "seq") by_topic
collector ack_seq = repl gauge_vec (codes "ack_seq") by_topic
collector lag = repl gauge_vec (codes "lag") by_topic
collector subs = repl gauge (codes "subs") []

-- The variables that `Register` registers, in its order.
abbrev pub registered : List Variable
registered =
    cluster_members ∷ is_leader ∷ leader_changes ∷ join_requests ∷ conn_dials ∷ conn_reuse
    ∷ conn_evictions ∷ conn_active ∷ published ∷ broadcasts ∷ acks ∷ acks_per_node
    ∷ ack_seq_per_node ∷ lag_per_node ∷ seq ∷ ack_seq ∷ lag ∷ subs ∷ []

abbrev pub collectors : List Collector
collectors = map collector registered

-- The default registry. `must_register` is none where it panics, and `holds` says whether a name is
-- registered.
pub record Prometheus : Type 1 where
  pub Registry : Type 0
  pub must_register : Collector → Registry → Option Registry
  pub holds : Text → Registry → Bool

module _ (p : Prometheus) where
  pub register_all : List Collector → p.Registry → Option p.Registry
  register_all [] r = some r
  register_all (c ∷ cs) r = elim (p.must_register c r) [
    | none ↦ none
    | some r' ↦ register_all cs r'
  ]

  -- The registry, and whether `once` has run; a panic counts as a run.
  pub record State : Type 0 where
    pub registry : p.Registry
    pub done : Bool

  -- `Register`; none is a panic.
  unfoldable pub register : State → Option State
  unfolding register_all
  register s = if s.done then some s else (elim (register_all collectors s.registry) [
    | none ↦ none
    | some r ↦ some (record { registry = r; done = true })
  ])
