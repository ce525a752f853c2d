-- ===== src/Cluster/Disk/Names.antt =====
-- File names of buffered messages: what is written is read back, under the sanitized topic.
use go_cluster.Prelude.{
  ℕ, ◌^◌, ◌<◌, Text, codes, is_empty, nat_eq, text_is_eq, text_eq_iff, eqb_iff, false, none, some,
  [], ◌∷◌, ◌++◌, ◌≡◌, refl, ap, ◌∙◌, sym, ◌≢◌, arith, length, length-append, inr, All,
}
use mathlib.Core.List.{append_assoc}
use go_cluster.Cluster.World.{Setup}
use go_cluster.Cluster.Disk.{
  replaced, sanitize_topic, format_uint, file_name, strip_suffix, split_last, parse_name,
  buf_file_path, topic_and_seq, parse_base,
}
use go_cluster.Cluster.Disk.Decimals.{parse_uint-format_uint, format_uint-ne}

strip_suffix_self : (suffix : Text) → strip_suffix suffix suffix ≡ some []
unfolding strip_suffix
strip_suffix_self [] = refl
strip_suffix_self (c ∷ s) = ground (arith, text_eq_iff (c ∷ s) (c ∷ s))

longer-ne : (c : ℕ) (s suffix : Text) → (c ∷ (s ++ suffix)) ≢ suffix
longer-ne c s suffix e =
    absurd (omega (arith, ap (λ (t : Text). length t) e, length-append {0} s suffix))

strip_suffix-append : (suffix s : Text) → strip_suffix suffix (s ++ suffix) ≡ some s
unfolding strip_suffix
strip_suffix-append suffix [] = strip_suffix_self suffix
strip_suffix-append suffix (c ∷ s) = ground (
  arith,
  text_eq_iff (c ∷ (s ++ suffix)) suffix,
  longer-ne c s suffix,
  strip_suffix-append suffix s,
)

split_last-none : (c : ℕ) (s : Text) → All (λ x. x ≢ c) s → split_last c s ≡ none
unfolding split_last
split_last-none c [] h = refl
split_last-none c (x ∷ s) (ne, h) = ground (arith, split_last-none c s h, eqb_iff x c)

split_last-append :
    (c : ℕ) (a b : Text) → All (λ x. x ≢ c) b → split_last c (a ++ c ∷ b) ≡ some (a, b)
unfolding split_last
split_last-append c [] b h = ground (arith, split_last-none c b h, eqb_iff c c)
split_last-append c (x ∷ a) b h = ground (arith, split_last-append c a b h)

sanitize_topic-ne-nil : (topic : Text) → topic ≢ [] → is_empty (sanitize_topic topic) ≡ false
unfolding sanitize_topic
sanitize_topic-ne-nil [] h = absurd (h refl)
sanitize_topic-ne-nil (c ∷ topic) h = refl

-- The name of the file of any message of a non-empty topic parses to the sanitized topic and the
-- sequence number.
pub parse_name-file_name :
    (topic : Text) (seq : ℕ)
    → topic ≢ []
    → seq < 2 ^ 64
    → parse_name (file_name topic seq) ≡ some (sanitize_topic topic, seq)
unfolding parse_name file_name
parse_name-file_name topic seq ne h =
    let st : Text = sanitize_topic topic in
    let n : Text = format_uint seq in
    let regrouped : (st ++ b'_' ∷ (n ++ codes ".bin")) ≡ ((st ++ b'_' ∷ n) ++ codes ".bin") =
      sym (append_assoc st (b'_' ∷ n) (codes ".bin")) in
    ap (λ (t : Text). parse_base (strip_suffix (codes ".bin") t)) regrouped
    ∙ ap parse_base (strip_suffix-append (codes ".bin") (st ++ b'_' ∷ n))
    ∙ ap topic_and_seq (split_last-append b'_' st n (format_uint-ne b'_' seq (inr (omega arith))))
    ∙ rw (sanitize_topic-ne-nil topic ne, parse_uint-format_uint seq h) refl

replaced_idem : (c : ℕ) → replaced (replaced c) ≡ replaced c
unfolding replaced
replaced_idem c = ground arith

sanitize_topic_idem : (topic : Text) → sanitize_topic (sanitize_topic topic) ≡ sanitize_topic topic
unfolding sanitize_topic
sanitize_topic_idem [] = refl
sanitize_topic_idem (c ∷ topic) = cc (replaced_idem c, sanitize_topic_idem topic)

-- A topic and its sanitized form share their files: where the two differ, as topics with a slash,
-- a backslash or a blank do, the messages of one overwrite those of the other.
pub buf_file_path-sanitize_topic :
    (w : Setup) (dir topic : Text) (seq : ℕ)
    → buf_file_path w dir (sanitize_topic topic) seq ≡ buf_file_path w dir topic seq
unfolding buf_file_path
buf_file_path-sanitize_topic w dir topic seq =
    ap (λ (st : Text). w.path_join dir (st ++ b'_' ∷ (format_uint seq ++ codes ".bin")))
      (sanitize_topic_idem topic)
