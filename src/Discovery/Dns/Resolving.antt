-- ===== src/Discovery/Dns/Resolving.antt =====
-- What names are resolved to.
use go_cluster.Prelude.{
  Text, codes, text_is_eq, text_eq_iff, is_empty, ◌≡◌, refl, ap, sym, ◌∙◌, Bool, false, not, ◌&&◌,
  ◌||◌, List, [], ◌∷◌, ◌++◌, arith, if◌then◌else◌, Bool-cases, inl, inr, contains,
}
use go_cluster.Prelude.Int.{ℤ}
use go_cluster.Discovery.Texts.{trim_space, has_prefix, has_part}
use go_cluster.Discovery.Ordering.{
  IsAscending, IsDistinct, contains-sort_texts, sort_texts-IsAscending, contains-append,
  ascending_unique,
}
use go_cluster.Discovery.Dns.{
  Resolver, lookup_srv, lookup_host, add_seen, resolve_name, resolve_names, resolve_all,
}

contains-add_seen :
    (x : Text) (out l : List Text) → contains x (add_seen out l) ≡ (contains x out || contains x l)
unfolding add_seen
contains-add_seen x out [] = ground arith
contains-add_seen x out (hp ∷ l) = elim (Bool-cases (contains hp out)) [
  | inl e ↦ rw (add_seen, e) (contains-add_seen x out l ∙ ground (arith, text_eq_iff hp x))
  | inr e ↦
      rw (add_seen, e)
        (contains-add_seen x (out ++ hp ∷ []) l ∙ ground (arith, contains-append x out (hp ∷ [])))
]

IsDistinct-append :
    (out : List Text) (hp : Text)
    → IsDistinct out
    → contains hp out ≡ false
    → IsDistinct (out ++ hp ∷ [])
IsDistinct-append [] hp d h = (refl, tt)
IsDistinct-append (a ∷ out) hp (fresh, d) h = (
  ground (arith, contains-append a out (hp ∷ []), text_eq_iff a hp, text_eq_iff hp a),
  IsDistinct-append out hp d (ground arith),
)

add_seen-IsDistinct : (out l : List Text) → IsDistinct out → IsDistinct (add_seen out l)
unfolding add_seen
add_seen-IsDistinct out [] d = d
add_seen-IsDistinct out (hp ∷ l) d = elim (Bool-cases (contains hp out)) [
  | inl e ↦ rw (add_seen, e) (add_seen-IsDistinct out l d)
  | inr e ↦ rw (add_seen, e) (add_seen-IsDistinct (out ++ hp ∷ []) l (IsDistinct-append out hp d e))
]

module _ (join_host_port : Text → Text → Text) (res : Resolver) (port : ℤ) where
  -- What a trimmed name stands for: nothing, itself, its SRV records, or the addresses of its host.
  abbrev pub answers : Text → List Text
  answers name =
      if is_empty name
      then []
      else if has_part (codes ":") name && not (has_prefix (codes "_") name)
      then name ∷ []
      else if has_prefix (codes "_") name
          && (has_part (codes "._") name && not (is_empty (lookup_srv join_host_port res name)))
      then lookup_srv join_host_port res name
      else lookup_host join_host_port res name port

  -- One of the names stands for a seed.
  abbrev pub is_answer : Text → List Text → Bool
  is_answer x [] = false
  is_answer x (name ∷ names) = contains x (answers (trim_space name)) || is_answer x names

  resolve_name-answers :
      (name : Text) (out : List Text)
      → resolve_name join_host_port res port name out ≡ add_seen out (answers name)
  unfolding resolve_name add_seen
  resolve_name-answers name out = ground arith

  contains-resolve_names :
      (x : Text) (names out : List Text)
      → contains x (resolve_names join_host_port res port names out)
        ≡ (contains x out || is_answer x names)
  unfolding resolve_names
  contains-resolve_names x [] out = ground arith
  contains-resolve_names x (name ∷ names) out =
      let next = resolve_name join_host_port res port (trim_space name) out in
      contains-resolve_names x names next
      ∙ ground (
        arith,
        ap (contains x) (resolve_name-answers (trim_space name) out),
        contains-add_seen x out (answers (trim_space name)),
      )

  resolve_names-IsDistinct :
      (names out : List Text)
      → IsDistinct out
      → IsDistinct (resolve_names join_host_port res port names out)
  unfolding resolve_names
  resolve_names-IsDistinct [] out d = d
  resolve_names-IsDistinct (name ∷ names) out d =
      resolve_names-IsDistinct names (resolve_name join_host_port res port (trim_space name) out) (
        rw (resolve_name-answers (trim_space name) out)
          (add_seen-IsDistinct out (answers (trim_space name)) d))

  resolve_all-IsAscending :
      (names : List Text) → IsAscending (resolve_all join_host_port res port names)
  unfolding resolve_all
  resolve_all-IsAscending names =
      sort_texts-IsAscending (resolve_names join_host_port res port names [])
        (resolve_names-IsDistinct names [] tt)

  contains-resolve_all :
      (x : Text) (names : List Text)
      → contains x (resolve_all join_host_port res port names) ≡ is_answer x names
  unfolding resolve_all
  contains-resolve_all x names =
      contains-sort_texts x (resolve_names join_host_port res port names [])
      ∙ contains-resolve_names x names []

  -- Names are resolved to the one ascending list whose elements are the seeds that one of the names
  -- stands for: itself where it has a port, its SRV records where it has such, and otherwise the
  -- addresses of its host.
  pub resolve_all_unique :
      (names l : List Text)
      → IsAscending l
      → ((x : Text) → contains x l ≡ is_answer x names)
      → resolve_all join_host_port res port names ≡ l
  resolve_all_unique names l s same =
      ascending_unique (resolve_all join_host_port res port names) l (resolve_all-IsAscending names)
        s (λ x. contains-resolve_all x names ∙ sym (same x))
