-- ===== src/Cli/Running.antt =====
-- What the command `run` does with the node that it assembles.
use go_cluster.Prelude.{
  is_empty, true, false, none, some, Text, List, [], ◌∷◌, ◌++◌, ◌≡◌, refl, ap, sym, ◌∙◌, arith,
}
use go_cluster.Result.{ok, err, Error}
use go_cluster.RaftNode as RaftNode
use go_cluster.Memberlist as Memberlist
use go_cluster.Tls as Tls
use go_cluster.Bootstrap.{
  Config, Built, cluster_options, tls_configs, build, raft_options, membership_options, new_udp,
}
use go_cluster.Bootstrap as Bootstrap
use go_cluster.Cluster.World.{Setup, Cluster, fresh}
use go_cluster.Cluster.World as World
use go_cluster.Cluster.Run.{Op, starts, stops}
use go_cluster.Cluster.Run as Run
use go_cluster.Cluster.Lifecycle.{
  prepare_buffer, start_membership, start_consensus, start_server, launch, start, stop,
}
use go_cluster.Cluster.Lifecycle.Once.{closed-stop}
use go_cluster.Cli.Node.{
  RunFlags, config_of, ended, bound_to_context, stopped_by_cancel, run_node, run,
}

-- The operations in order, and then a stop.
abbrev pub until_stop : List Op → List Op
until_stop ops = ops ++ stops ∷ []

-- A list of operations, and one more.
run-append :
    (v : Setup) (ops : List Op) (s : Cluster)
    → Run.run v (until_stop ops) s ≡ (stop v (Run.run v ops s)).1
unfolding Run.run Run.perform
run-append v [] s = refl
run-append v (op ∷ ops) s = run-append v ops _

closed-launch :
    (v : Setup) (s : Cluster) → v.opts.repl_buffer_dir ≡ [] → (launch v s).1.closed ≡ s.closed
unfolding launch prepare_buffer start_membership start_consensus start_server
closed-launch v s e = ground arith

module _ {Cert : Type 0} (raft : RaftNode.Library) (gossip : Memberlist.Library)
    (disk : Tls.Disk Cert) (w : Setup) where
  -- The node's facade with the options of the flags.
  abbrev pub setup_of : RunFlags → Setup
  setup_of f = record w { opts = cluster_options (config_of f) }

  abbrev pub started : RunFlags → Error × Cluster
  started f = start (setup_of f) fresh

  ended-start :
      (b : Built raft gossip disk) (ops : List Op) (p : Error × Cluster)
      → ended raft gossip disk w ops (elim p.0 [ some x ↦ err x | none ↦ ok b ], some p.1) ≡ (
        p.0,
        elim p.0 [
          | some e ↦ some p.1
          | none ↦ (let v = record w { opts = b.opts } in some (stop v (Run.run v ops p.1)).1)
        ],
      )
  ended-start b ops (none, c) = refl
  ended-start b ops (some e, c) = refl

  run_lem :
      (f : RunFlags) (ops : List Op)
      → is_empty f.id ≡ false
      → is_empty f.mem_bind ≡ false
      → f.tls.enable ≡ false
      → run_node raft gossip disk w f ops ≡ (
        (started f).0,
        elim (started f).0 [
          | some e ↦ some (started f).1
          | none ↦ some (stop (setup_of f) (Run.run (setup_of f) ops (started f).1)).1
        ],
      )
  unfolding run_node Bootstrap.run build config_of new_udp RaftNode.new Memberlist.new raft_options
      membership_options tls_configs World.new
  run_lem f ops id bind tls =
      rw (run_node, Bootstrap.run, build, RaftNode.new, Memberlist.new, id, bind, tls)
        (ended-start _ ops (started f))

  closed-started : (f : RunFlags) → (started f).1.closed ≡ false
  unfolding start config_of cluster_options
  closed-started f = closed-launch (setup_of f) (record fresh { started = true }) refl

  run-run_node :
      (f : RunFlags) (ops : List Op) (x : Error) (c : Cluster)
      → run_node raft gossip disk w f ops ≡ (x, some c)
      → run raft gossip disk w f ops ≡ (x, some c, bound_to_context raft gossip disk w c.calls)
  unfolding run
  run-run_node f ops x c p = ap (λ r. (r.0, r.1, stopped_by_cancel raft gossip disk w r.1)) p

  -- With an ID and an address for the membership, and without TLS, whatever the other flags are:
  -- `run` returns the error of the start of the node. If there is none, the node ends closed, after
  -- the start, any operations, and one stop. If there is one, nothing closes the node; the end of the
  -- context stops the components whose start had returned nil, in both cases.
  pub run-stops :
      (f : RunFlags) (ops : List Op)
      → is_empty f.id ≡ false
      → is_empty f.mem_bind ≡ false
      → f.tls.enable ≡ false
      → ((started f).0 ≡ none
          → (c : Cluster) × (run raft gossip disk w f ops
              ≡ (none, some c, bound_to_context raft gossip disk w c.calls))
            × (c.closed ≡ true)
            × (c ≡ Run.run (setup_of f) (starts ∷ until_stop ops) fresh))
        × ((e : Text)
            → (started f).0 ≡ some e
            → (run raft gossip disk w f ops ≡ (
              some e,
              some (started f).1,
              bound_to_context raft gossip disk w (started f).1.calls,
            ))
              × ((started f).1.closed ≡ false))
  unfolding Run.run Run.perform
  run-stops f ops id bind tls =
      let e = run_lem f ops id bind tls in
      let v = setup_of f in
      let c : Cluster = Run.run v ops (started f).1 in
      (
        λ good. (
          (stop v c).1,
          run-run_node f ops none (stop v c).1 (e ∙ rw good refl),
          closed-stop v c,
          sym (run-append v ops (started f).1),
        ),
        λ x failed.
            (run-run_node f ops (some x) (started f).1 (e ∙ rw failed refl), closed-started f),
      )
