-- ===== src/Cluster/Replication.antt =====
-- `Publish` and one round of `replicationRetryLoop`. Metrics are left out. The mutex of `rep` is
-- held in the parts that write it, so each is one step.
pub mod Storing
pub mod Publishing
pub mod Ending
pub mod RetryTopic
pub mod Retrying
pub mod Covering
pub mod Guarded
pub mod Concurrent
pub mod Delivery
mod Tests
use go_cluster.Prelude.{
  ℕ, zero, suc, ◌+◌, ◌-◌, ◌^◌, Text, codes, is_empty, ◌==◌, nat_eq, text_is_eq, Bool, true, false,
  not, ◌&&◌, Option, none, some, List, [], ◌∷◌, if◌then◌else◌, or_zero, leb,
}
use go_cluster.Prelude.Int.{ℤ, pos, negsuc, ltb_ℤ, sub_u64, inc_u64, int_of_u64}
use go_cluster.Result.{Result, ok, err, Error}
use go_cluster.GoMap.{GoMap, lookup, insert}
use go_cluster.Membership.{MemberInfo}
use go_cluster.Cluster.World.{
  Setup, Rep, Cluster, M, ◌>>=◌, ◌>>◌, pure, ask, modify, asks_acked, broadcasts, posts_app_sync,
  handles_sync, writes_file, removes_file, waits, not_leader_error,
}
use go_cluster.Cluster.Leadership.{leads, members, mgmt_addr}
use go_cluster.Cluster.Disk.{buf_file_path}

-- The window, 1024 unless it is set to something positive.
unfoldable pub window_of : ℤ → ℤ
window_of (pos zero) = pos 1024
window_of (pos (suc n)) = pos (suc n)
window_of (negsuc n) = pos 1024

-- `int(cur-minAck) < window`
unfoldable pub has_room : ℤ → ℕ → ℕ → Bool
unfolding window_of sub_u64 int_of_u64
has_room window cur min_ack = ltb_ℤ (int_of_u64 (sub_u64 cur min_ack)) (window_of window)

-- How the wait for room ends: there is room, the context is done, or, in the model only, the fuel
-- has run out.
pub data Wait : Type 0 where
  room : Wait
  cancelled : Text → Wait
  out_of_fuel : Wait

-- The result of `Publish`.
pub data Outcome : Type 0 where
  published : Outcome
  failed : Text → Outcome
  gave_up : Outcome

-- The assignment of the sequence number and the copy into the buffer.
unfoldable pub store_message : Text → Text → Rep → ℕ × Rep
unfolding inc_u64
store_message topic body r =
    let seq = inc_u64 (or_zero 0 (lookup topic r.seq)) in
    (
      seq,
      record {
        seq = insert topic seq r.seq;
        buf = insert topic (insert seq body (or_zero [] (lookup topic r.buf))) r.buf;
      },
    )

module _ (w : Setup) where
  -- `AckedAll`, where the server has it; a nil map reads as empty.
  unfoldable pub acked_by_server : M (GoMap Text ℕ)
  acked_by_server =
      if w.opts.server_acks
      then (do a ← ask asks_acked w.env.acked; pure (or_zero [] a))
      else pure []

  abbrev pub current_seq : Text → M ℕ
  current_seq topic s = (or_zero 0 (lookup topic s.rep.seq), s)

  -- The test of one round of the wait.
  unfoldable pub check_room : Text → M Bool
  unfolding acked_by_server has_room
  check_room topic = do
    acked ← acked_by_server
    cur ← current_seq topic
    pure (has_room w.opts.repl_window cur (or_zero 0 (lookup topic acked)))

  -- The `select` between the context and the timer.
  abbrev pub wait_more : M Wait → Option Text → M Wait
  wait_more again none = again
  wait_more again (some e) = pure (cancelled e)

  -- The `for` loop of `Publish`.
  unfoldable pub await_room : ℕ → Text → M Wait
  await_room zero topic = pure out_of_fuel
  await_room (suc f) topic =
      let again : M Wait = (do c ← ask waits w.env.cancelled; wait_more (await_room f topic) c) in
      do enough ← check_room topic; if enough then pure room else again

  -- The fan-out to the other members. The goroutines are started in this order.
  unfoldable pub fan_out : Text → Text → List MemberInfo → M (Unit {0})
  fan_out topic body [] = pure tt
  fan_out topic body (m ∷ ms) = do
    if m.id == w.opts.node_id then pure tt else (do
      ask (posts_app_sync (mgmt_addr m) (record { topic = topic; body = body })) (λ h. tt {0})
      pure tt)
    fan_out topic body ms

  unfoldable pub persist : Text → Text → ℕ → M (Unit {0})
  persist topic body seq = if is_empty w.opts.repl_buffer_dir then pure tt else (do
    ask (writes_file (buf_file_path w w.opts.repl_buffer_dir topic seq) body) (λ h. tt {0})
    pure tt)

  unfoldable pub apply_locally : Text → Text → M (Unit {0})
  apply_locally topic body =
      if w.opts.has_handlers
      then (do ask (handles_sync topic body) w.env.handler_sync; pure tt)
      else pure tt

  -- `BroadcastWithSeq`, where the server has it: how many subscribers it reached.
  unfoldable pub stream : Text → Text → ℕ → M ℕ
  stream topic body seq =
      if w.opts.server_broadcasts then ask (broadcasts topic body seq) w.env.reached else pure 0

  unfoldable pub deliver : Text → Text → ℕ → M Outcome
  deliver topic body zero =
      if w.opts.has_client && w.opts.has_membership
      then (do ms ← members w; fan_out topic body ms; pure published)
      else pure published
  deliver topic body (suc n) = pure published

  abbrev pub assign : Text → Text → M ℕ
  assign topic body s = let (seq, r) = store_message topic body s.rep in (seq, record s { rep = r })

  -- What `Publish` does once there is room.
  unfoldable pub send_out : Text → Text → M Outcome
  unfolding store_message
  send_out topic body = do
    apply_locally topic body
    seq ← assign topic body
    persist topic body seq
    n ← stream topic body seq
    deliver topic body n

  abbrev pub after_wait : Text → Text → Wait → M Outcome
  after_wait topic body room = send_out topic body
  after_wait topic body (cancelled e) = pure (failed e)
  after_wait topic body out_of_fuel = pure gave_up

  unfoldable pub publish : ℕ → Text → Text → M Outcome
  publish fuel topic body = do
    lead ← leads w
    if lead
        then (do r ← await_room fuel topic; after_wait topic body r)
        else pure (failed not_leader_error)

  -- `os.Remove` of the message's file, if there is a directory.
  unfoldable pub forget_file : Text → ℕ → M (Unit {0})
  forget_file topic n = if is_empty w.opts.repl_buffer_dir then pure tt else (do
    ask (removes_file (buf_file_path w w.opts.repl_buffer_dir topic n)) (λ h. tt {0})
    pure tt)

  -- Deletes the messages up to `a`, with their files.
  unfoldable pub cleanup : Text → ℕ → GoMap ℕ Text → M (GoMap ℕ Text)
  cleanup topic a [] = pure []
  cleanup topic a ((n, body) ∷ seqs) =
      if leb n a
      then (do forget_file topic n; cleanup topic a seqs)
      else (do rest ← cleanup topic a seqs; pure ((n, body) ∷ rest))

  abbrev pub resend_one : Text → ℕ → Option Text → M (Unit {0})
  resend_one topic n none = pure tt
  resend_one topic n (some body) = do ask (broadcasts topic body n) w.env.reached; pure tt

  -- `for s := a + 1; s <= max; s++`, on fuel.
  unfoldable pub resend : ℕ → ℕ → ℕ → Text → GoMap ℕ Text → M (Unit {0})
  unfolding inc_u64
  resend zero n max topic seqs = pure tt
  resend (suc f) n max topic seqs =
      let more : M (Unit {0}) = (do
        resend_one topic n (lookup n seqs)
        resend f (inc_u64 n) max topic seqs) in
      if leb n max then more else pure tt

  -- One topic of a retry round: the messages that stay.
  unfoldable pub retry_topic : GoMap Text ℕ → Text → GoMap ℕ Text → M (GoMap ℕ Text)
  retry_topic acked topic seqs = do
    let a = or_zero 0 (lookup topic acked)
    left ← cleanup topic a seqs
    max ← current_seq topic
    if w.opts.server_broadcasts then resend (max + 1 - a) (inc_u64 a) max topic left else pure tt
    pure left

  unfoldable pub retry_topics :
      GoMap Text ℕ → GoMap Text (GoMap ℕ Text) → M (GoMap Text (GoMap ℕ Text))
  retry_topics acked [] = pure []
  retry_topics acked ((topic, seqs) ∷ buf) = do
    left ← retry_topic acked topic seqs
    rest ← retry_topics acked buf
    pure ((topic, left) ∷ rest)

  abbrev pub set_buf : GoMap Text (GoMap ℕ Text) → M (Unit {0})
  set_buf buf = modify (λ s. record s { rep = record s.rep { buf = buf } })

  abbrev pub get_buf : M (GoMap Text (GoMap ℕ Text))
  get_buf s = (s.rep.buf, s)

  -- One tick of `replicationRetryLoop`.
  unfoldable pub retry : M (Unit {0})
  retry = do
    lead ← leads w
    if lead
        then (do
          acked ← acked_by_server
          buf ← get_buf
          left ← retry_topics acked buf
          set_buf left)
        else pure tt
