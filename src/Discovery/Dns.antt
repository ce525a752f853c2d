-- ===== src/Discovery/Dns.antt =====
-- pkg/discovery/dns/dns.go. The resolver, `net.JoinHostPort` and the clock are parameters. Times are
-- nanoseconds since Go's zero time.
pub mod Names
pub mod Resolving
pub mod Freshness
use go_cluster.Prelude.{
  ℕ, zero, suc, ◌+◌, Text, codes, is_empty, text_is_eq, Bool, not, ◌&&◌, ◌||◌, Option, none, some,
  List, [], ◌∷◌, ◌++◌, if◌then◌else◌, ltb, contains,
}
use go_cluster.Prelude.Int.{ℤ, pos, negsuc, positive_or}
use go_cluster.Result.{Result, ok, err}
use go_cluster.Discovery.Texts.{
  trim_space, split_first, has_prefix, has_part, trim_prefix, trim_suffix, sort_texts, itoa,
}

-- `net.SRV`, as far as it is read.
pub record Srv : Type 0 where
  pub target : Text
  pub port : ℕ

-- `resolver` is `LookupSRV` and `LookupHost` of the resolver that is used, at the time of a call.
pub record Resolver : Type 0 where
  pub srv : Text → Text → Text → Result (List Srv)
  pub host : Text → Result (List Text)

pub record Options : Type 0 where
  pub names : List Text
  pub port : ℤ
  pub refresh : ℤ

pub record Impl : Type 0 where
  pub names : List Text
  pub port : ℤ
  pub refresh : ℕ
  pub last : ℕ
  pub cache : List Text

abbrev pub port_or : ℤ → ℤ → ℤ
port_or default (pos zero) = default
port_or default (pos (suc n)) = pos (suc n)
port_or default (negsuc n) = negsuc n

unfoldable pub new : Options → Impl
new o = record {
  names = o.names;
  port = port_or (pos 7946) o.port;
  refresh = positive_or 5000000000 o.refresh;
  last = 0;
  cache = [];
}

-- `parseSRVName`
unfoldable pub parse_srv_name : Text → Text × Text × Text
unfolding split_first trim_prefix
parse_srv_name fqdn = elim (split_first b'.' fqdn) [
  | none ↦ ([], [], [])
  | some (service, others) ↦ (elim (split_first b'.' others) [
    | none ↦ ([], [], [])
    | some (proto, name) ↦ (trim_prefix b'_' service, trim_prefix b'_' proto, name)
  ])
]

-- Appends what `seen` does not hold; `seen` holds what `out` holds.
unfoldable pub add_seen : List Text → List Text → List Text
add_seen out [] = out
add_seen out (hp ∷ l) = add_seen (if contains hp out then out else out ++ hp ∷ []) l

module _ (join_host_port : Text → Text → Text) (res : Resolver) where
  -- The loop of `lookupSRV` over the records.
  unfoldable pub srv_seeds : List Srv → List Text
  unfolding trim_suffix itoa
  srv_seeds [] = []
  srv_seeds (a ∷ l) = join_host_port (trim_suffix b'.' a.target) (itoa (pos a.port)) ∷ srv_seeds l

  unfoldable pub lookup_srv : Text → List Text
  unfolding parse_srv_name srv_seeds
  lookup_srv fqdn =
      let (svc, proto, domain) = parse_srv_name fqdn in
      if is_empty svc || (is_empty proto || is_empty domain)
      then []
      else elim (res.srv svc proto domain) [ err e ↦ [] | ok addrs ↦ srv_seeds addrs ]

  -- The loop of `lookupHost` over the addresses.
  unfoldable pub host_seeds : ℤ → List Text → List Text
  unfolding itoa
  host_seeds port [] = []
  host_seeds port (ip ∷ l) = join_host_port ip (itoa port) ∷ host_seeds port l

  unfoldable pub lookup_host : Text → ℤ → List Text
  unfolding host_seeds
  lookup_host host port = elim (res.host host) [ err e ↦ [] | ok ips ↦ host_seeds port ips ]

  -- The body of the loop of `resolveAll` for a trimmed name.
  unfoldable pub resolve_name : ℤ → Text → List Text → List Text
  unfolding lookup_srv lookup_host add_seen has_part has_prefix
  resolve_name port name out =
      if is_empty name
      then out
      else if has_part (codes ":") name && not (has_prefix (codes "_") name)
      then add_seen out (name ∷ [])
      else if has_prefix (codes "_") name
          && (has_part (codes "._") name && not (is_empty (lookup_srv name)))
      then add_seen out (lookup_srv name)
      else add_seen out (lookup_host name port)

  unfoldable pub resolve_names : ℤ → List Text → List Text → List Text
  unfolding resolve_name trim_space
  resolve_names port [] out = out
  resolve_names port (name ∷ l) out = resolve_names port l (resolve_name port (trim_space name) out)

  -- `resolveAll`
  unfoldable pub resolve_all : ℤ → List Text → List Text
  unfolding resolve_names sort_texts
  resolve_all port names = sort_texts (resolve_names port names [])

-- One call of `Seeds`: the clock at its start and behind the lookups, and the resolver.
pub record Surroundings : Type 0 where
  pub now : ℕ
  pub done : ℕ
  pub resolver : Resolver

-- `Seeds`
unfoldable pub seeds : (Text → Text → Text) → Surroundings → Impl → List Text × Impl
unfolding resolve_all
seeds join_host_port w d =
    let out = resolve_all join_host_port w.resolver d.port d.names in
    if ltb w.now (d.last + d.refresh) && not (is_empty d.cache)
    then (d.cache, d)
    else (out, record d { cache = out; last = w.done })
