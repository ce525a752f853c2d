-- ===== src/Discovery/Tests.antt =====
-- A list of seeds and a resolver, and the theorems of discovery applied.
use go_cluster.Prelude.{
  ◌++◌, text_lt_head, Text, codes, text_is_eq, ◌≡◌, refl, List, [], ◌∷◌, arith, contains,
}
use go_cluster.Prelude.Int.{pos}
use go_cluster.Result.{ok, err}
use go_cluster.Discovery.Texts.{trim_space, has_part, has_prefix}
use go_cluster.Cluster.Disk.{format_uint}
use go_cluster.Discovery.Dns
use go_cluster.Discovery.Dns.Resolving.{is_answer, resolve_all_unique}

abbrev two_seeds : List Text
two_seeds = codes "a:1" ∷ codes "b:2" ∷ []

-- A resolver without records, and with one address for each host.
abbrev resolver : Dns.Resolver
resolver = record { srv = λ s p n. err []; host = λ h. ok (codes "b" ∷ []) }

abbrev join_host_port : Text → Text → Text
join_host_port h p = h ++ codes ":" ++ p

abbrev names : List Text
names = codes "n" ∷ codes " a:1" ∷ []

same_answers : (x : Text) → contains x two_seeds ≡ is_answer join_host_port resolver (pos 2) x names
unfolding trim_space has_part has_prefix Dns.lookup_srv Dns.lookup_host format_uint
same_answers x = ground arith

resolve_all_unique_example : Dns.resolve_all join_host_port resolver (pos 2) names ≡ two_seeds
resolve_all_unique_example =
    resolve_all_unique join_host_port resolver (pos 2) names two_seeds
      ((text_lt_head b'a' b'b' (codes ":1") (codes ":2") refl, tt), (tt, tt)) same_answers
