-- ===== src/Cluster.antt =====
-- pkg/cluster/cluster.go: the cluster facade. The child modules hold its methods and loops: one
-- function for each, over the state below.
pub mod World
pub mod Leadership
pub mod Lifecycle
pub mod Requests
pub mod Disk
pub mod Replication
pub mod Election
pub mod Run
pub mod Serving
pub mod Scenario
mod Tests
