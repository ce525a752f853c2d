-- ===== src/Cluster/Disk.antt =====
-- The disk copy of the replication buffer: one file for each message, named after its topic and
-- sequence number, and the restoration at a start.
pub mod Decimals
pub mod Names
pub mod Restored
use go_cluster.Prelude.{
  ℕ, zero, suc, ◌+◌, ◌-◌, ◌*◌, ◌/◌, ◌%◌, ◌^◌, Text, codes, is_empty, ◌==◌, nat_eq, text_is_eq, Bool,
  true, false, ◌&&◌, ◌||◌, Option, none, some, List, [], ◌∷◌, ◌++◌, map, ltb, leb, if◌then◌else◌,
  or_zero,
}
use go_cluster.Result.{Result, ok, err}
use go_cluster.GoMap.{GoMap, lookup, insert}
use go_cluster.Cluster.World.{
  Setup, Rep, DirEntry, M, ◌>>=◌, ◌>>◌, pure, ask, modify, reads_dir, reads_file,
}

-- The replacer of `sanitizeTopic`, on one byte.
unfoldable pub replaced : ℕ → ℕ
replaced c = if c == b'/' || (c == 92 || c == b' ') then b'_' else c

unfoldable pub sanitize_topic : Text → Text
unfolding replaced
sanitize_topic = map replaced

-- The digits of `strconv.FormatUint(n, 10)` in front of `rest`. Twenty are enough for a uint64.
unfoldable pub digits : ℕ → ℕ → Text → Text
digits zero n rest = rest
digits (suc f) n rest =
    let more = digits f (n / 10) ((48 + n % 10) ∷ rest) in
    if ltb n 10 then (48 + n) ∷ rest else more

unfoldable pub format_uint : ℕ → Text
unfolding digits
format_uint n = digits 20 n []

-- The loop of `strconv.ParseUint(s, 10, 64)`, with the range check at the end.
unfoldable pub parse_digits : ℕ → Text → Option ℕ
parse_digits n [] = if ltb n (2 ^ 64) then some n else none
parse_digits n (c ∷ s) =
    let more = parse_digits (n * 10 + (c - 48)) s in if leb 48 c && leb c 57 then more else none

unfoldable pub parse_uint : Text → Option ℕ
unfolding parse_digits
parse_uint s = if is_empty s then none else parse_digits 0 s

-- `fmt.Sprintf("%s_%s.bin", st, FormatUint(seq))`
unfoldable pub file_name : Text → ℕ → Text
file_name topic seq = sanitize_topic topic ++ b'_' ∷ (format_uint seq ++ codes ".bin")

-- `strings.TrimSuffix(s, suffix)`, none where `HasSuffix` is false.
unfoldable pub strip_suffix : Text → Text → Option Text
strip_suffix suffix [] = if is_empty suffix then some [] else none
strip_suffix suffix (c ∷ s) =
    let more : Option Text = elim (strip_suffix suffix s) [ none ↦ none | some r ↦ some (c ∷ r) ] in
    if (c ∷ s) == suffix then some [] else more

-- The text in front of the last `c`, and the text behind it: `strings.LastIndex`.
unfoldable pub split_last : ℕ → Text → Option (Text × Text)
split_last c [] = none
split_last c (x ∷ s) = elim (split_last c s) [
  | some (a, b) ↦ some (x ∷ a, b)
  | none ↦ if x == c then some ([], s) else none
]

abbrev pub with_seq : Text → Option ℕ → Option (Text × ℕ)
with_seq st none = none
with_seq st (some seq) = some (st, seq)

-- `us <= 0` skips a name with no `_`, or with none but the first byte.
abbrev pub topic_and_seq : Option (Text × Text) → Option (Text × ℕ)
topic_and_seq none = none
topic_and_seq (some (st, digits)) = if is_empty st then none else with_seq st (parse_uint digits)

abbrev pub parse_base : Option Text → Option (Text × ℕ)
parse_base none = none
parse_base (some base) = topic_and_seq (split_last b'_' base)

-- The topic and the sequence number in a file name.
unfoldable pub parse_name : Text → Option (Text × ℕ)
unfolding parse_uint strip_suffix split_last
parse_name name = parse_base (strip_suffix (codes ".bin") name)

-- The buffer with one more restored message.
unfoldable pub restore_message : Text → ℕ → Text → Rep → Rep
restore_message topic seq body r = record {
  buf = insert topic (insert seq body (or_zero [] (lookup topic r.buf))) r.buf;
  seq = if ltb (or_zero 0 (lookup topic r.seq)) seq then insert topic seq r.seq else r.seq;
}

module _ (w : Setup) where
  -- `bufFilePath`
  unfoldable pub buf_file_path : Text → Text → ℕ → Text
  unfolding file_name
  buf_file_path dir topic seq = w.path_join dir (file_name topic seq)

  abbrev pub keep_message : Text → ℕ → Result Text → M (Unit {0})
  keep_message topic seq (err e) = pure tt
  keep_message topic seq (ok body) =
      modify (λ s. record s { rep = restore_message topic seq body s.rep })

  -- The file is read only where its name parses.
  abbrev pub read_message : Text → Text → Option (Text × ℕ) → M (Unit {0})
  read_message dir name none = pure tt
  read_message dir name (some (topic, seq)) = do
    r ← ask (reads_file (w.path_join dir name)) w.env.file_text
    keep_message topic seq r

  unfoldable pub restore_entry : Text → DirEntry → M (Unit {0})
  restore_entry dir e = if e.is_dir then pure tt else read_message dir e.name (parse_name e.name)

  -- The loop of `restoreBufferFromDisk`.
  unfoldable pub restore_entries : Text → List DirEntry → M (Unit {0})
  restore_entries dir [] = pure tt
  restore_entries dir (e ∷ es) = do restore_entry dir e; restore_entries dir es

  abbrev pub restore_listed : Text → Result (List DirEntry) → M (Unit {0})
  restore_listed dir (err e) = pure tt
  restore_listed dir (ok es) = restore_entries dir es

  unfoldable pub restore_buffer_from_disk : Text → M (Unit {0})
  restore_buffer_from_disk dir = do r ← ask (reads_dir dir) w.env.dir_entries; restore_listed dir r
