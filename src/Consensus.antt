-- ===== src/Consensus.antt =====
-- pkg/consensus: the log command and the leader's description.
use go_cluster.Prelude.{ℕ, Text}

pub record Command : Type 0 where
  pub op : Text
  pub payload : Text

pub record LeaderInfo : Type 0 where
  pub id : Text
  pub addr : Text
  pub term : ℕ
