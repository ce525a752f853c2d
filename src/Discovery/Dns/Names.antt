-- ===== src/Discovery/Dns/Names.antt =====
-- The names of SRV records.
use go_cluster.Prelude.{ℕ, Text, nat_eq, eqb_iff, ◌≡◌, refl, ◌≢◌, [], ◌∷◌, ◌++◌, All, arith, some}
use go_cluster.Discovery.Texts.{split_first, trim_prefix}
use go_cluster.Discovery.Dns.{parse_srv_name}

-- The name of a service over a protocol in a domain.
abbrev pub srv_name : Text → Text → Text → Text
srv_name service proto name = (b'_' ∷ service) ++ b'.' ∷ ((b'_' ∷ proto) ++ b'.' ∷ name)

split_first-append :
    (sep : ℕ) (a rest : Text)
    → All (λ c. c ≢ sep) a
    → split_first sep (a ++ sep ∷ rest) ≡ some (a, rest)
unfolding split_first
split_first-append sep [] rest h = ground (arith, eqb_iff sep sep)
split_first-append sep (c ∷ a) rest (ne, h) =
    ground (arith, split_first-append sep a rest h, eqb_iff c sep)

parse_srv_name-parts :
    (fqdn s others p name : Text)
    → split_first b'.' fqdn ≡ some (s, others)
    → split_first b'.' others ≡ some (p, name)
    → parse_srv_name fqdn ≡ (trim_prefix b'_' s, trim_prefix b'_' p, name)
unfolding parse_srv_name
parse_srv_name-parts fqdn s others p name e f = rw (parse_srv_name, e, f) refl

-- The name of a service over a protocol in a domain is parsed back to the three, where neither the
-- service nor the protocol has a dot in it.
pub parse_srv_name-srv_name :
    (service proto name : Text)
    → All (λ c. c ≢ b'.') service
    → All (λ c. c ≢ b'.') proto
    → parse_srv_name (srv_name service proto name) ≡ (service, proto, name)
unfolding trim_prefix
parse_srv_name-srv_name service proto name h k =
    parse_srv_name-parts (srv_name service proto name) (b'_' ∷ service)
      ((b'_' ∷ proto) ++ b'.' ∷ name) (b'_' ∷ proto) name
      (split_first-append b'.' (b'_' ∷ service) ((b'_' ∷ proto) ++ b'.' ∷ name)
        ((λ e. ground (arith, e)), h))
      (split_first-append b'.' (b'_' ∷ proto) name ((λ e. ground (arith, e)), k))
