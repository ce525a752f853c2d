-- ===== src/Cluster/Lifecycle/Once.antt =====
-- A node starts once and stops once.
use go_cluster.Prelude.{
  Text, is_empty, true, Option, none, some, List, [], ◌∷◌, ◌≡◌, refl, ◌∙◌, arith, Bool-cases, inl,
  inr, ℕ,
}
use go_cluster.Result.{Result, ok, err, Error}
use go_cluster.Cluster.World.{Setup, Cluster, DirEntry}
use go_cluster.Cluster.Disk.{
  parse_name, keep_message, read_message, restore_entry, restore_entries, restore_listed,
  restore_buffer_from_disk,
}
use go_cluster.Cluster.Lifecycle.{
  prepare_buffer, start_membership, start_consensus, start_server, and_then, launch, start,
  shut_down, stop,
}

module _ (w : Setup) where
  started-read_message :
      (dir name : Text) (o : Option (Text × ℕ)) (s : Cluster)
      → (read_message w dir name o s).1.started ≡ s.started
  started-read_message dir name none s = refl
  started-read_message dir name (some (topic, seq)) s = kept _ _
    where
      kept : (r : Result Text) (t : Cluster) → (keep_message w topic seq r t).1.started ≡ t.started
      kept (err e) t = refl
      kept (ok body) t = refl

  started-restore_entry :
      (dir : Text) (e : DirEntry) (s : Cluster) → (restore_entry w dir e s).1.started ≡ s.started
  unfolding restore_entry
  started-restore_entry dir e s = elim (Bool-cases e.is_dir) [
    | inl skipped ↦ rw (skipped, restore_entry) refl
    | inr file ↦ rw (file, restore_entry) (started-read_message dir e.name (parse_name e.name) s)
  ]

  started-restore_entries :
      (dir : Text) (es : List DirEntry) (s : Cluster)
      → (restore_entries w dir es s).1.started ≡ s.started
  unfolding restore_entries
  started-restore_entries dir [] s = refl
  started-restore_entries dir (e ∷ es) s =
      started-restore_entries dir es _ ∙ started-restore_entry dir e s

  started-prepare_buffer : (s : Cluster) → (prepare_buffer w s).1.started ≡ s.started
  unfolding prepare_buffer restore_buffer_from_disk
  started-prepare_buffer s = elim (Bool-cases (is_empty w.opts.repl_buffer_dir)) [
    | inl no_dir ↦ rw (no_dir, prepare_buffer) refl
    | inr dir ↦ rw (dir, prepare_buffer) (listed _ _)
  ]
    where
      listed :
          (r : Result (List DirEntry)) (t : Cluster)
          → (restore_listed w w.opts.repl_buffer_dir r t).1.started ≡ t.started
      listed (err e) t = refl
      listed (ok es) t = started-restore_entries w.opts.repl_buffer_dir es t

  started-start_membership : (s : Cluster) → (start_membership w s).1.started ≡ s.started
  unfolding start_membership
  started-start_membership s = ground arith

  started-start_rest :
      (s : Cluster)
      → ((start_consensus w s).1.started ≡ s.started) × ((start_server w s).1.started ≡ s.started)
  unfolding start_consensus start_server
  started-start_rest s = ground arith

  started-launch : (s : Cluster) → (launch w s).1.started ≡ s.started
  unfolding launch
  started-launch s =
      rest (start_membership w (prepare_buffer w s).1).0 _
      ∙ started-start_membership _
      ∙ started-prepare_buffer s
    where
      server : (e : Error) (t : Cluster) → (and_then w e (start_server w) t).1.started ≡ t.started
      server none t = (started-start_rest t).1
      server (some e) t = refl

      rest :
          (e : Error) (t : Cluster)
          → (and_then w e
              (λ u. and_then w (start_consensus w u).0 (start_server w) (start_consensus w u).1)
              t).1.started
            ≡ t.started
      rest none t = server (start_consensus w t).0 _ ∙ (started-start_rest t).0
      rest (some e) t = refl

  started-start : (s : Cluster) → (start w s).1.started ≡ true
  unfolding start
  started-start s = elim (Bool-cases s.started) [
    | inl on ↦ ground arith
    | inr off ↦ ground (arith, started-launch (record s { started = true }))
  ]

  -- A second `Start` makes no call, changes nothing and returns nil, whatever the first returned:
  -- after a start that failed half way, a retry reports success and starts nothing.
  pub start-start : (s : Cluster) → start w (start w s).1 ≡ (none, (start w s).1)
  start-start s = unfold start in ground (arith, started-start s)

  closed-shut_down : (s : Cluster) → (shut_down w s).1.closed ≡ s.closed
  unfolding shut_down
  closed-shut_down s = ground arith

  pub closed-stop : (s : Cluster) → (stop w s).1.closed ≡ true
  unfolding stop
  closed-stop s = ground (arith, closed-shut_down (record s { closed = true }))

  -- A second `Stop` makes no call, changes nothing and returns nil.
  pub stop-stop : (s : Cluster) → stop w (stop w s).1 ≡ (none, (stop w s).1)
  stop-stop s = unfold stop in ground (arith, closed-stop s)
