-- ===== src/Grpc.antt =====
-- pkg/transport/grpc: the management calls on both sides, and the subscription to a leader. The
-- replication part of the server is ReplServer, the connection cache ConnManager.
pub mod Management
pub mod Client
pub mod Calling
pub mod Wire
pub mod Subscribing
mod Tests
