-- ===== src/Json.antt =====
-- `encoding/json` at the types that the program encodes. It is not part of the repository: an
-- encoder and a decoder of each type are parameters.
use go_cluster.Prelude.{Text, ◌≡◌}
use go_cluster.Result.{Result, ok}

pub record Json (A : Type 0) : Type 0 where
  pub marshal : A → Result Text
  pub unmarshal : Text → Result A

-- What is encoded without an error is decoded to the same value.
abbrev pub RoundTrips : {A : Type 0} → Json A → A → Type 0
RoundTrips json a = (b : Text) → json.marshal a ≡ ok b → json.unmarshal b ≡ ok a
