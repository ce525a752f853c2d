-- ===== src/Transport.antt =====
-- pkg/transport/rpc.go: the messages of the management endpoint.
use go_cluster.Prelude.{Text, Bool}

pub record JoinRequest : Type 0 where
  pub id : Text
  pub raft_addr : Text

pub record JoinResponse : Type 0 where
  pub accepted : Bool
  pub leader : Text
  pub error : Text

pub record LeaveRequest : Type 0 where
  pub id : Text

pub record LeaveResponse : Type 0 where
  pub accepted : Bool
  pub error : Text

pub record AppWriteRequest : Type 0 where
  pub op : Text
  pub body : Text

pub record AppWriteResponse : Type 0 where
  pub body : Text
  pub error : Text

pub record AppSyncRequest : Type 0 where
  pub topic : Text
  pub body : Text

pub record AppSyncResponse : Type 0 where
  pub error : Text
