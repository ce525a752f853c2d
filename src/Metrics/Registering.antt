-- ===== src/Metrics/Registering.antt =====
-- `Register` registers every metric once.
use go_cluster.Prelude.{
  Text, text_is_eq, text_eq_iff, ◌==◌, Bool, true, false, not, ◌&&◌, ◌||◌, some, List, [], ◌∷◌, ◌≡◌,
  refl, ◌∙◌, arith, All, contains, map,
}
use go_cluster.Metrics.{
  Variable, cluster_members, is_leader, leader_changes, join_requests, conn_dials, conn_reuse,
  conn_evictions, conn_active, published, broadcasts, acks, acks_per_node, ack_seq_per_node,
  lag_per_node, seq, ack_seq, lag, subs, collector, Collector, Prometheus, State, full_name,
  collectors, register_all, register,
}

-- What Prometheus documents: a metric whose name is not registered is registered, and nothing else.
pub record IsRegistry (p : Prometheus) : Type 0 where
  pub accepts :
      (c : Collector) (r : p.Registry)
      → p.holds (full_name c) r ≡ false
      → (r' : p.Registry) × (p.must_register c r ≡ some r')
  pub holds-must_register :
      (c : Collector) (r r' : p.Registry) (name : Text)
      → p.must_register c r ≡ some r'
      → p.holds name r' ≡ (full_name c == name || p.holds name r)

abbrev pub names : List Collector → List Text
names cs = map full_name cs

-- No name of the list is registered, and none stands in it twice.
abbrev pub IsNew : (p : Prometheus) → List Collector → p.Registry → Type 0
IsNew p [] r = Unit
IsNew p (c ∷ cs) r =
    (p.holds (full_name c) r ≡ false) × (contains (full_name c) (names cs) ≡ false) × IsNew p cs r

module _ (p : Prometheus) (law : IsRegistry p) where
  -- A registration of another name keeps the names new.
  IsNew-must_register :
      (c : Collector) (cs : List Collector) (r r' : p.Registry)
      → p.must_register c r ≡ some r'
      → contains (full_name c) (names cs) ≡ false
      → IsNew p cs r
      → IsNew p cs r'
  IsNew-must_register c [] r r' e other new = tt
  IsNew-must_register c (d ∷ cs) r r' e other (absent, once, new) = (
    law.holds-must_register c r r' (full_name d) e
        ∙ ground (
          arith,
          text_eq_iff (full_name c) (full_name d),
          text_eq_iff (full_name d) (full_name c),
        ),
    once,
    IsNew-must_register c cs r r' e (ground arith) new,
  )

  register_all-holds :
      (cs : List Collector) (r : p.Registry)
      → IsNew p cs r
      → (r' : p.Registry) × (register_all p cs r ≡ some r')
        × ((name : Text) → p.holds name r' ≡ (contains name (names cs) || p.holds name r))
  unfolding register_all
  register_all-holds [] r new = (r, refl, λ name. refl)
  register_all-holds (c ∷ cs) r (absent, once, new) =
      let (r1, e1) = law.accepts c r absent in
      let (r2, e2, held) = register_all-holds cs r1 (IsNew-must_register c cs r r1 e1 once new) in
      (
        r2,
        rw (register_all, e1) e2,
        λ name. held name ∙ ground (arith, law.holds-must_register c r r1 name e1),
      )

-- No two entries are equal.
abbrev distinct : List Text → Bool
distinct [] = true
distinct (x ∷ l) = not (contains x l) && distinct l

collectors-distinct : distinct (names collectors) ≡ true
unfolding full_name
collectors-distinct = refl

IsNew-distinct :
    (p : Prometheus) (cs : List Collector) (r : p.Registry)
    → All (λ c. p.holds (full_name c) r ≡ false) cs
    → distinct (names cs) ≡ true
    → IsNew p cs r
IsNew-distinct p [] r absent d = tt
IsNew-distinct p (c ∷ cs) r (here, absent) d =
    (here, ground arith, IsNew-distinct p cs r absent (ground arith))

-- Every variable of the package is registered.
every_variable : (v : Variable) → contains (full_name (collector v)) (names collectors) ≡ true
unfolding full_name
every_variable cluster_members = refl
every_variable is_leader = refl
every_variable leader_changes = refl
every_variable join_requests = refl
every_variable conn_dials = refl
every_variable conn_reuse = refl
every_variable conn_evictions = refl
every_variable conn_active = refl
every_variable published = refl
every_variable broadcasts = refl
every_variable acks = refl
every_variable acks_per_node = refl
every_variable ack_seq_per_node = refl
every_variable lag_per_node = refl
every_variable seq = refl
every_variable ack_seq = refl
every_variable lag = refl
every_variable subs = refl

-- Where the registry has none of the metrics, the first `Register` does not panic, registers every
-- variable of the package, and no metric beside these and what was there; a second one changes
-- nothing.
pub register-register :
    (p : Prometheus) (s : State p)
    → IsRegistry p
    → s.done ≡ false
    → All (λ c. p.holds (full_name c) s.registry ≡ false) collectors
    → (s' : State p) × (register p s ≡ some s')
      × ((v : Variable) → p.holds (full_name (collector v)) s'.registry ≡ true)
      × ((name : Text)
          → p.holds name s'.registry
            ≡ (contains name (names collectors) || p.holds name s.registry))
      × (register p s' ≡ some s')
unfolding register
register-register p s law new absent =
    let (r, e, held) =
      register_all-holds p law collectors s.registry
        (IsNew-distinct p collectors s.registry absent collectors-distinct) in
    (
      record { registry = r; done = true },
      rw (register, new, e) refl,
      λ v. held (full_name (collector v)) ∙ ground (arith, every_variable v),
      held,
      refl,
    )
