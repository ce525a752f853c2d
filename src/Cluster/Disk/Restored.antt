-- ===== src/Cluster/Disk/Restored.antt =====
-- What the restoration puts into the buffer.
use go_cluster.Prelude.{
  ℕ, ◌^◌, ◌<◌, ◌≤◌, Text, nat_eq, text_is_eq, text_eq_iff, ◌==◌, false, Option, none, some, List,
  [], ◌∷◌, ◌≡◌, ◌≢◌, arith, ltb, if◌then◌else◌, or_zero, Bool-cases, inl, inr,
}
use go_cluster.Result.{Result, ok, err}
use go_cluster.GoMap.{lookup, insert, lookup-insert}
use go_cluster.Cluster.World.{Setup, Rep, Cluster, DirEntry, reads_file}
use go_cluster.Cluster.Disk.{
  sanitize_topic, file_name, parse_name, restore_message, restore_entry, restore_entries,
  restore_buffer_from_disk, keep_message, read_message, restore_listed,
}
use go_cluster.Cluster.Disk.Names.{parse_name-file_name}

-- A message in the buffer, and the last sequence number of a topic.
abbrev pub buffered : Text → ℕ → Rep → Option Text
buffered topic n r = lookup n (or_zero [] (lookup topic r.buf))

abbrev pub last_seq : Text → Rep → ℕ
last_seq topic r = or_zero 0 (lookup topic r.seq)

pub buffered-restore_message :
    (topic t : Text) (seq n : ℕ) (body : Text) (r : Rep)
    → buffered t n (restore_message topic seq body r)
      ≡ (if topic == t then (if seq == n then some body else buffered t n r) else buffered t n r)
unfolding restore_message
buffered-restore_message topic t seq n body r = ground (
  arith,
  text_eq_iff topic t,
  lookup-insert topic t (insert seq body (or_zero [] (lookup topic r.buf))) r.buf,
  lookup-insert seq n body (or_zero [] (lookup topic r.buf)),
)

last_seq-restore_message :
    (topic t : Text) (seq : ℕ) (body : Text) (r : Rep)
    → last_seq t (restore_message topic seq body r) ≡ (
        if topic == t then (if ltb (last_seq t r) seq then seq else last_seq t r) else last_seq t r)
unfolding restore_message
last_seq-restore_message topic t seq body r =
    ground (arith, text_eq_iff topic t, lookup-insert topic t seq r.seq)

-- No buffered message is beyond the last sequence number of its topic, so that the retry loop,
-- which goes up to that number, reaches it.
pub record IsCovered (r : Rep) : Type 0 where
  pub at :
      (topic : Text) (n : ℕ) (body : Text) → buffered topic n r ≡ some body → n ≤ last_seq topic r

pub restore_message-IsCovered :
    (topic : Text) (seq : ℕ) (body : Text) (r : Rep)
    → IsCovered r
    → IsCovered (restore_message topic seq body r)
restore_message-IsCovered topic seq body r h = record {
  at = λ t n b found. ground (
    arith,
    text_eq_iff topic t,
    buffered-restore_message topic t seq n body r,
    last_seq-restore_message topic t seq body r,
    h.at t n b,
  );
}

module _ (w : Setup) (dir : Text) where
  restore_entry-IsCovered :
      (e : DirEntry) (s : Cluster) → IsCovered s.rep → IsCovered (restore_entry w dir e s).1.rep
  unfolding restore_entry
  restore_entry-IsCovered e s h = elim (Bool-cases e.is_dir) [
    | inl skipped ↦ rw (skipped, restore_entry) h
    | inr file ↦ rw (file, restore_entry) (named (parse_name e.name))
  ]
    where
      kept :
          (topic : Text) (seq : ℕ) (r : Result Text) (t : Cluster)
          → IsCovered t.rep
          → IsCovered (keep_message w topic seq r t).1.rep
      kept topic seq (err _) t k = k
      kept topic seq (ok body) t k = restore_message-IsCovered topic seq body t.rep k

      named : (o : Option (Text × ℕ)) → IsCovered (read_message w dir e.name o s).1.rep
      named none = h
      named (some (topic, seq)) = kept topic seq _ _ h

  restore_entries-IsCovered :
      (es : List DirEntry) (s : Cluster)
      → IsCovered s.rep
      → IsCovered (restore_entries w dir es s).1.rep
  unfolding restore_entries
  restore_entries-IsCovered [] s h = h
  restore_entries-IsCovered (e ∷ es) s h =
      restore_entries-IsCovered es (restore_entry w dir e s).1 (restore_entry-IsCovered e s h)

  -- Whatever the directory holds, the restored buffer has no message beyond the last sequence
  -- number of its topic.
  pub restore_buffer_from_disk-IsCovered :
      (s : Cluster) → IsCovered s.rep → IsCovered (restore_buffer_from_disk w dir s).1.rep
  unfolding restore_buffer_from_disk
  restore_buffer_from_disk-IsCovered s h = listed _ _ h
    where
      listed :
          (r : Result (List DirEntry)) (t : Cluster)
          → IsCovered t.rep
          → IsCovered (restore_listed w dir r t).1.rep
      listed (err _) t k = k
      listed (ok es) t k = restore_entries-IsCovered es t k

  -- The file of a message of a non-empty topic, read without an error, is back in the buffer under
  -- the sanitized topic and its sequence number, and the topic goes on after it.
  pub restore_entry-file_name :
      (topic : Text) (seq : ℕ) (body : Text) (e : DirEntry) (s : Cluster)
      → topic ≢ []
      → seq < 2 ^ 64
      → e.name ≡ file_name topic seq
      → e.is_dir ≡ false
      → w.env.file_text (reads_file (w.path_join dir e.name) ∷ s.calls) ≡ ok body
      → (buffered (sanitize_topic topic) seq (restore_entry w dir e s).1.rep ≡ some body)
        × (seq ≤ last_seq (sanitize_topic topic) (restore_entry w dir e s).1.rep)
        × (last_seq (sanitize_topic topic) s.rep
            ≤ last_seq (sanitize_topic topic) (restore_entry w dir e s).1.rep)
  unfolding restore_entry
  restore_entry-file_name topic seq body e s ne small named file there =
      let st : Text = sanitize_topic topic in
      let parsed : parse_name e.name ≡ some (st, seq) =
        rw named (parse_name-file_name topic seq ne small) in
      rw (file, restore_entry, parsed, there)
        (
          ground (arith, buffered-restore_message st st seq seq body s.rep, text_eq_iff st st),
          ground (arith, last_seq-restore_message st st seq body s.rep, text_eq_iff st st),
          ground (arith, last_seq-restore_message st st seq body s.rep, text_eq_iff st st),
        )
