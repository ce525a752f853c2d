-- ===== src/EventBus/Interleaving.antt =====
-- Subscriptions, cancellations and publications in any order, as steps.
use go_cluster.Prelude.{ℕ, suc, nat_eq, Option, none, some, List, [], ◌∷◌, if◌then◌else◌}
use go_cluster.GoMap.{GoMap, insert, delete, has}
use go_cluster.EventBus.{Event, Bus, empty, subscribe, remove, close_chan, publish}

-- The bus, the address of the next channel, and the subscriptions whose goroutine has removed its
-- channel and is about to close it.
pub record System : Type 0 where
  pub bus : Bus
  pub next : ℕ
  pub closing : GoMap ℕ (Unit {0})

abbrev pub start : System
start = record { bus = empty; next = 0; closing = [] }

-- `cancels ch` is `remove` after `<-ctx.Done()`, and `closes ch` the `close(ch)` that follows it.
pub data Action : Type 0 where
  subscribes : Action
  cancels : ℕ → Action
  closes : ℕ → Action
  publishes : Event → Action

-- One step; an action whose goroutine is not there does nothing, and `none` is a panic.
unfoldable pub step : Action → System → Option System
step subscribes s = some (record s { bus = subscribe s.next s.bus; next = suc s.next })
step (cancels ch) s =
    if has ch s.bus.subs
    then some (record s { bus = remove ch s.bus; closing = insert ch tt s.closing })
    else some s
step (closes ch) s =
    if has ch s.closing
    then (elim (close_chan ch s.bus) [
      | none ↦ none
      | some b ↦ some (record s { bus = b; closing = delete ch s.closing })
    ])
    else some s
step (publishes ev) s = elim (publish ev s.bus) [
  | none ↦ none
  | some b ↦ some (record s { bus = b })
]

unfoldable pub run : List Action → System → Option System
run [] s = some s
run (a ∷ l) s = elim (step a s) [ none ↦ none | some s' ↦ run l s' ]
