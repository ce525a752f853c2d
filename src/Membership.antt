-- ===== src/Membership.antt =====
-- pkg/membership/membership.go: what the membership layer says of a member.
use go_cluster.Prelude.{ℕ, Text, Option}
use go_cluster.GoMap.{GoMap}

-- `none` as `meta` is the nil map.
pub record MemberInfo : Type 0 where
  pub id : Text
  pub addr : Text
  pub meta : Option (GoMap Text Text)

pub data EventType : Type 0 where
  join leave failed : EventType

-- `at` is a clock reading.
pub record Event : Type 0 where
  pub kind : EventType
  pub member : MemberInfo
  pub at : ℕ
