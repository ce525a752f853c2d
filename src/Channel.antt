-- ===== src/Channel.antt =====
-- A buffered Go channel, as the program uses one: sends that drop when the buffer is full, and a
-- close. A send on a closed channel and a second close are panics.
use go_cluster.Prelude.{
  ℕ, ◌≤◌, Bool, true, false, Option, none, some, List, [], ◌∷◌, ◌++◌, arith, ltb, if◌then◌else◌,
  length, length-append,
}

pub record Chan {ℓ} (A : Type ℓ) : Type ℓ where
  pub capacity : ℕ
  pub items : List A
  pub closed : Bool

unfoldable pub make {ℓ} : {A : Type ℓ} → ℕ → Chan A
make n = record { capacity = n; items = []; closed = false }

module _ {ℓ} {A : Type ℓ} where
  -- What stands in the buffer after `select { case ch <- a: default: }` on an open channel.
  unfoldable pub pushed : A → Chan A → Chan A
  pushed a c = if ltb (length c.items) c.capacity then record c { items = c.items ++ a ∷ [] } else c

  -- `select { case ch <- a: default: }`; `none` is the panic.
  unfoldable pub offer : A → Chan A → Option (Chan A)
  unfolding pushed
  offer a c = if c.closed then none else some (pushed a c)

  -- `close(ch)`; `none` is the panic.
  unfoldable pub close : Chan A → Option (Chan A)
  close c = if c.closed then none else some (record c { closed = true })

  pub pushed-fits :
      (a : A) (c : Chan A)
      → length c.items ≤ c.capacity
      → length (pushed a c).items ≤ (pushed a c).capacity
  unfolding pushed
  pushed-fits a c h = ground (arith, length-append c.items (a ∷ []))
