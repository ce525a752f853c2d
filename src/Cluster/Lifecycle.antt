-- ===== src/Cluster/Lifecycle.antt =====
-- `Start`, `Stop` and `Close`.
pub mod Once
pub mod Guarded
use go_cluster.Prelude.{
  Text, is_empty, Bool, true, false, Option, none, some, List, [], ◌∷◌, if◌then◌else◌,
}
use go_cluster.Result.{Error}
use go_cluster.Cluster.World.{
  Setup, Cluster, M, ◌>>=◌, ◌>>◌, pure, ask, modify, makes_dir, asks_seeds, starts_membership,
  joins_membership, starts_consensus, starts_server, stops_consensus, leaves_membership,
  stops_membership, stops_server,
}
use go_cluster.Cluster.Disk.{restore_buffer_from_disk}

module _ (w : Setup) where
  unfoldable pub prepare_buffer : M (Unit {0})
  prepare_buffer = if is_empty w.opts.repl_buffer_dir then pure tt else (do
    ask (makes_dir w.opts.repl_buffer_dir) (λ h. tt {0})
    restore_buffer_from_disk w w.opts.repl_buffer_dir)

  -- Membership joins the seeds, if there are any; its error is dropped.
  abbrev pub join_seeds : List Text → M Error
  join_seeds [] = pure none
  join_seeds (x ∷ xs) = do ask (joins_membership (x ∷ xs)) w.env.membership_error; pure none

  -- The rest of a method that goes on only without an error.
  abbrev pub and_then : Error → M Error → M Error
  and_then none m = m
  and_then (some e) m = pure (some e)

  unfoldable pub start_membership : M Error
  start_membership =
      if w.opts.has_membership
      then (do
        e ← ask starts_membership w.env.membership_error
        and_then e (do seeds ← ask asks_seeds w.env.seeds; join_seeds seeds))
      else pure none

  -- The goroutines that a start launches run as the loops of the other modules.
  unfoldable pub start_consensus : M Error
  start_consensus =
      if w.opts.has_consensus then ask starts_consensus w.env.consensus_error else pure none

  unfoldable pub start_server : M Error
  start_server = if w.opts.has_server then ask starts_server w.env.server_error else pure none

  unfoldable pub launch : M Error
  launch = do
    prepare_buffer
    e ← start_membership
    and_then e (do e' ← start_consensus; and_then e' start_server)

  abbrev pub when_new : Bool → M Error → M Error
  when_new true m = pure none
  when_new false m = m

  abbrev pub is_started : M Bool
  is_started s = (s.started, s)

  abbrev pub is_closed : M Bool
  is_closed s = (s.closed, s)

  -- `Start`
  unfoldable pub start : M Error
  start = do
    again ← is_started
    when_new again (do modify (λ s. record s { started = true }); launch)

  unfoldable pub shut_down : M Error
  shut_down = do
    if w.opts.has_consensus
        then (do ask stops_consensus w.env.consensus_error; pure (tt {0}))
        else pure tt
    if w.opts.has_membership
        then (do
          ask leaves_membership w.env.membership_error
          ask stops_membership w.env.membership_error
          pure (tt {0}))
        else pure tt
    if w.opts.has_server then (do ask stops_server w.env.server_error; pure none) else pure none

  -- `Stop`, and `Close`, which calls it; the errors of the components are dropped.
  unfoldable pub stop : M Error
  stop = do
    again ← is_closed
    when_new again (do modify (λ s. record s { closed = true }); shut_down)
