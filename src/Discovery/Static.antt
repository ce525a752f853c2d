-- ===== src/Discovery/Static.antt =====
-- pkg/discovery/static/static.go
pub mod Parsing
use go_cluster.Prelude.{Text, is_empty, List, [], if◌then◌else◌}
use go_cluster.Discovery.Texts.{split, clean}

-- `staticSeeds`, from `New`.
pub record StaticSeeds : Type 0 where
  pub list : List Text

unfoldable pub new : List Text → StaticSeeds
unfolding clean
new seeds = record { list = clean seeds }

unfoldable pub seeds : StaticSeeds → List Text
seeds s = s.list

-- `Parse`
unfoldable pub parse : Text → List Text
unfolding split clean
parse csv = if is_empty csv then [] else clean (split b',' csv)
