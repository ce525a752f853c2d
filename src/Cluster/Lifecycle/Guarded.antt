-- ===== src/Cluster/Lifecycle/Guarded.antt =====
-- Start and stop change neither the replicated log nor the Raft configuration.
use go_cluster.Prelude.{
  ℕ, Text, is_empty, Bool, true, false, Option, none, some, List, [], ◌∷◌, refl, arith,
}
use go_cluster.Result.{Result, ok, err, Error}
use go_cluster.Cluster.World.{
  Setup, DirEntry, M, ◌>>=◌, ◌>>◌, pure, ask, modify, makes_dir, reads_dir,
}
use go_cluster.Cluster.Leadership.Guarded.{
  KeepsGuarded, KeepsGuarded-pure, KeepsGuarded-ask, KeepsGuarded-same, KeepsGuarded-bind,
  KeepsGuarded-if,
}
use go_cluster.Cluster.Disk.{
  parse_name, keep_message, read_message, restore_entry, restore_entries, restore_listed,
  restore_buffer_from_disk,
}
use go_cluster.Cluster.Lifecycle.{
  prepare_buffer, start_membership, start_consensus, start_server, and_then, launch, when_new,
  is_started, is_closed, start, shut_down, stop,
}

module _ (w : Setup) where
  keep_message-KeepsGuarded :
      (topic : Text) (seq : ℕ) (r : Result Text) → KeepsGuarded w.env (keep_message w topic seq r)
  keep_message-KeepsGuarded topic seq (err e) = KeepsGuarded-pure w.env tt
  keep_message-KeepsGuarded topic seq (ok body) = KeepsGuarded-same w.env _ (λ s. refl)

  read_message-KeepsGuarded :
      (dir name : Text) (o : Option (Text × ℕ)) → KeepsGuarded w.env (read_message w dir name o)
  read_message-KeepsGuarded dir name none = KeepsGuarded-pure w.env tt
  read_message-KeepsGuarded dir name (some (topic, seq)) =
      KeepsGuarded-bind w.env _ (keep_message w topic seq)
        (KeepsGuarded-ask w.env _ w.env.file_text refl) (keep_message-KeepsGuarded topic seq)

  restore_entries-KeepsGuarded :
      (dir : Text) (es : List DirEntry) → KeepsGuarded w.env (restore_entries w dir es)
  unfolding restore_entries restore_entry
  restore_entries-KeepsGuarded dir [] = KeepsGuarded-pure w.env tt
  restore_entries-KeepsGuarded dir (e ∷ es) =
      KeepsGuarded-bind w.env (restore_entry w dir e) (λ _. restore_entries w dir es)
        (KeepsGuarded-if w.env e.is_dir (pure tt) (read_message w dir e.name (parse_name e.name))
          (KeepsGuarded-pure w.env tt) (read_message-KeepsGuarded dir e.name (parse_name e.name)))
        λ _. restore_entries-KeepsGuarded dir es

  restore_listed-KeepsGuarded :
      (dir : Text) (r : Result (List DirEntry)) → KeepsGuarded w.env (restore_listed w dir r)
  restore_listed-KeepsGuarded dir (err e) = KeepsGuarded-pure w.env tt
  restore_listed-KeepsGuarded dir (ok es) = restore_entries-KeepsGuarded dir es

  prepare_buffer-KeepsGuarded : KeepsGuarded w.env (prepare_buffer w)
  unfolding prepare_buffer restore_buffer_from_disk
  prepare_buffer-KeepsGuarded =
      let dir : Text = w.opts.repl_buffer_dir in
      let mkdir : M (Unit {0}) = ask (makes_dir dir) (λ h. tt {0}) in
      let read : M (Result (List DirEntry)) = ask (reads_dir dir) w.env.dir_entries in
      KeepsGuarded-if w.env (is_empty dir) (pure tt) (do mkdir; r ← read; restore_listed w dir r)
        (KeepsGuarded-pure w.env tt)
        (KeepsGuarded-bind w.env mkdir _ (KeepsGuarded-ask w.env (makes_dir dir) (λ h. tt {0}) refl)
          λ _.
            KeepsGuarded-bind w.env read _
              (KeepsGuarded-ask w.env (reads_dir dir) w.env.dir_entries refl)
              (restore_listed-KeepsGuarded dir))

  start_membership-KeepsGuarded : KeepsGuarded w.env (start_membership w)
  unfolding start_membership
  start_membership-KeepsGuarded = record { at = λ s h. ground arith }

  start_consensus-KeepsGuarded : KeepsGuarded w.env (start_consensus w)
  unfolding start_consensus
  start_consensus-KeepsGuarded = record { at = λ s h. ground arith }

  start_server-KeepsGuarded : KeepsGuarded w.env (start_server w)
  unfolding start_server
  start_server-KeepsGuarded = record { at = λ s h. ground arith }

  and_then-KeepsGuarded :
      (e : Error) (m : M Error) → KeepsGuarded w.env m → KeepsGuarded w.env (and_then w e m)
  and_then-KeepsGuarded none m k = k
  and_then-KeepsGuarded (some e) m k = KeepsGuarded-pure w.env (some e)

  launch-KeepsGuarded : KeepsGuarded w.env (launch w)
  unfolding launch
  launch-KeepsGuarded =
      KeepsGuarded-bind w.env (prepare_buffer w) _ prepare_buffer-KeepsGuarded λ _.
        KeepsGuarded-bind w.env (start_membership w) _ start_membership-KeepsGuarded λ e.
          and_then-KeepsGuarded e _ (
            KeepsGuarded-bind w.env (start_consensus w) _ start_consensus-KeepsGuarded
              λ e'. and_then-KeepsGuarded e' (start_server w) start_server-KeepsGuarded)

  when_new-KeepsGuarded :
      (b : Bool) (m : M Error) → KeepsGuarded w.env m → KeepsGuarded w.env (when_new w b m)
  when_new-KeepsGuarded true m k = KeepsGuarded-pure w.env none
  when_new-KeepsGuarded false m k = k

  pub start-KeepsGuarded : KeepsGuarded w.env (start w)
  unfolding start
  start-KeepsGuarded =
      KeepsGuarded-bind w.env (is_started w) _ (KeepsGuarded-same w.env (is_started w) (λ s. refl))
        λ b. when_new-KeepsGuarded b _ (
          KeepsGuarded-bind w.env (modify (λ s. record s { started = true })) _
            (KeepsGuarded-same w.env _ (λ s. refl)) λ _. launch-KeepsGuarded)

  shut_down-KeepsGuarded : KeepsGuarded w.env (shut_down w)
  unfolding shut_down
  shut_down-KeepsGuarded = record { at = λ s h. ground arith }

  pub stop-KeepsGuarded : KeepsGuarded w.env (stop w)
  unfolding stop
  stop-KeepsGuarded =
      KeepsGuarded-bind w.env (is_closed w) _ (KeepsGuarded-same w.env (is_closed w) (λ s. refl))
        λ b. when_new-KeepsGuarded b _ (
          KeepsGuarded-bind w.env (modify (λ s. record s { closed = true })) _
            (KeepsGuarded-same w.env _ (λ s. refl)) λ _. shut_down-KeepsGuarded)
