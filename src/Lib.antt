-- ===== src/Lib.antt =====
-- go-cluster: a library that gives a service membership by gossip, a leader by Raft, a management
-- endpoint, and a stream of messages from the leader to the other nodes.
--
-- A node is the facade `Cluster` of pkg/cluster/cluster.go. pkg/bootstrap gives it its components: a
-- consensus engine (pkg/consensus/raft), a membership layer (pkg/membership/memberlist), a discovery
-- of seeds (pkg/discovery), a management server and a client over gRPC (pkg/transport/grpc) or HTTP
-- (pkg/transport/httpjson), with TLS (pkg/security/tlsconfig), and handlers of the application. The
-- leader turns membership events into log commands; Raft drives a state machine (fsm.go) over a
-- table of members (pkg/state/membership); the leader numbers and buffers the messages that it
-- publishes, sends them to the subscribers of its server, and sends them again until they are
-- acknowledged.
--
-- Files, and the code that they model:
--   State          pkg/state/membership/state.go: the table; `snapshot` and `restore` included.
--   Fsm            pkg/consensus/raft/fsm.go: `apply` on the bytes of a log entry; `replay` is a log.
--   RaftNode       pkg/consensus/raft/raft.go: the node over hashicorp/raft.
--   Memberlist     pkg/membership/memberlist/memberlist.go: the layer over hashicorp/memberlist.
--   EventBus       pkg/cluster/events.go; Channel holds what is used of a Go channel.
--   ReplServer     pkg/transport/grpc/server.go, the replication part. Gauges has its metrics,
--                  Streams the subscribers' streams that come and go.
--   HttpClient     pkg/transport/httpjson/client.go: the calls with their three attempts.
--   HttpServer     pkg/transport/httpjson/server.go: the handlers and the mux. Exchange puts the
--                  client in front of it, over a network that loses requests and replies;
--                  Draining does so for a POST, whose body is read once.
--   Grpc           pkg/transport/grpc: Management, the service; Client, client.go; Subscribing,
--                  replication_client.go with replicationSubscribeLoop of cluster.go; Wire, the
--                  service descriptors with jsoncodec.go, between the client and the service.
--   ConnManager    pkg/transport/grpc/connmgr.go: the cache of client connections.
--   Cluster        pkg/cluster/cluster.go. World: state, options, calls. Leadership: the leader's
--                  duties; its Table puts the log and the state machine behind them. Requests:
--                  handlers, Join, AppWrite, Status. Serving: the functions that Start gives to the
--                  server, as gRPC and HTTP serve them. Replication: Publish and
--                  replicationRetryLoop. Disk: the files of the buffer. Lifecycle: Start and Stop.
--                  Election: electionWatchLoop. Run: the whole node as a sequence of operations.
--                  Concurrent: publishers that overlap. Delivery: retries and acknowledgements.
--                  Covering: the buffer over the life of a node.
--   Discovery      pkg/discovery: Static, File and Dns, with their parsers and caches.
--   Tls            pkg/security/tlsconfig/tlsconfig.go: fixed and reloading configurations.
--   Bootstrap      pkg/bootstrap/bootstrap.go: `build` and `run`, out of the components above.
--   Cli            pkg/cli/cli.go: the commands status, join and leave; Node has the command run.
--   Metrics        pkg/observability/metrics/metrics.go: the collectors and their registration.
--   Transport, Consensus, Membership: the types of the packages of those names.
--   GoMap, Result, Json, Prelude: maps, errors, codecs, and shared lemmas.
--
-- How code becomes definitions. A method of the facade is a function from the state to its result
-- and the state after it (`Cluster.World.M`); names are the source's in snake case. The state holds
-- the history of all calls to the components, and a component answers by any function of that
-- history, so its answers may change between any two calls. Functions guarded by a mutex are one
-- step. A Go map is an association list whose order stands for the order that a loop happens to
-- see. Strings and byte slices are lists of bytes. uint64 wraps at 2^64, and the conversion to int
-- is written out. A panic is `none` where one can happen.
--
-- Fuel. `await_room` waits at most as many rounds as it has fuel, and says so when that runs out;
-- one round more than the calls after which the context is done is enough. The loop over sequence
-- numbers of a retry round has as much fuel as there are numbers in its range. `digits` has the
-- twenty that a uint64 needs.
--
-- Libraries that the repository only uses are parameters: hashicorp/raft and memberlist (with what
-- they document of configuration changes), encoding/json, net/http, grpc, crypto/tls, net with its
-- resolver, the environment, the file system and the clocks. What one call sees of them is its
-- argument, so files, records and certificates may change between any two calls.
--
-- Two operations of one facade do not overlap in Cluster.Run. In Cluster.Replication.Concurrent
-- publishers of one topic do: the test of the window is one step, the assignment of a number under
-- the mutex another. In Cluster.Election.Counting a tick and a leader change interleave between
-- their flags and their events, and in Memberlist.Safety a Stop may come between the two halves of a
-- Leave. The maps of the replication server have no lock in the source; each of its
-- methods is one step here.
--
-- Not modelled: tracing and logging; the metrics of the facade and of the connection cache; the
-- callbacks for the application; sockets and dial options; handshakes that overlap; the parsing of
-- flags by cobra; cmd/memdemo and the examples, which wire the packages together and print.
pub mod Prelude
pub mod GoMap
pub mod Result
pub mod Json
pub mod Membership
pub mod State
pub mod Consensus
pub mod Fsm
pub mod Channel
pub mod EventBus
pub mod ReplServer
pub mod Transport
pub mod Cluster
pub mod Cli
pub mod Metrics
pub mod Discovery
pub mod RaftNode
pub mod HttpClient
pub mod HttpServer
pub mod Grpc
pub mod Tls
pub mod Bootstrap
pub mod ConnManager
pub mod Memberlist
