-- ===== src/Discovery/Dns/Freshness.antt =====
-- How old the seeds that were resolved may be.
use go_cluster.Prelude.{
  ◌+◌, ◌<◌, Text, is_empty, ◌≡◌, refl, ◌∙◌, not, ◌&&◌, List, [], ◌∷◌, arith, Bool-cases, inl, inr,
  ◌⊎◌, ltb, subst, ap, ap₂,
}
use go_cluster.Discovery.Dns.{Options, Impl, Surroundings, new, resolve_all, seeds}

-- One of the calls.
abbrev pub IsAmong : Surroundings → List Surroundings → Type 0
IsAmong v [] = ⊥
IsAmong v (w ∷ past) = (v ≡ w) ⊎ IsAmong v past

module _ (join_host_port : Text → Text → Text) where
  -- The state after calls, the newest first.
  abbrev pub after : List Surroundings → Impl → Impl
  after [] d = d
  after (w ∷ past) d = (seeds join_host_port w (after past d)).1

  abbrev pub resolved : Surroundings → Impl → List Text
  resolved v d = resolve_all join_host_port v.resolver d.port d.names

  abbrev IsCached : List Surroundings → Impl → Type 0
  IsCached past d =
      (d.cache ≡ [])
      ⊎ ((v : Surroundings) × IsAmong v past × (d.cache ≡ resolved v d) × (d.last ≡ v.done))

  -- The answer is what the names were resolved to in one of the calls, that call being the newest one
  -- or one that ended less than a refresh time ago.
  abbrev pub IsFresh : Surroundings → List Surroundings → Impl → List Text → Type 0
  IsFresh w past d answer =
      (v : Surroundings) × IsAmong v (w ∷ past)
      × (answer ≡ resolved v d)
      × ((v ≡ w) ⊎ (w.now < v.done + d.refresh))

  seeds-IsCached :
      (w : Surroundings) (past : List Surroundings) (d : Impl)
      → IsCached past d
      → IsCached (w ∷ past) (seeds join_host_port w d).1
        × IsFresh w past d (seeds join_host_port w d).0
  unfolding seeds
  seeds-IsCached w past d h =
      elim (Bool-cases (ltb w.now (d.last + d.refresh) && not (is_empty d.cache))) [
        | inl e ↦ elim h [
          | inl f ↦ ground (arith, f, ap is_empty f)
          | inr (v, a, c, l) ↦
              rw (seeds, e) (inr (v, inr a, c, l), (v, inr a, c, inr (ground (arith, l, e))))
        ]
        | inr e ↦ rw (seeds, e) (inr (w, inl refl, refl, refl), (w, inl refl, refl, inl refl))
      ]

  after-IsCached : (o : Options) (past : List Surroundings) → IsCached past (after past (new o))
  unfolding new
  after-IsCached o [] = inl refl
  after-IsCached o (w ∷ past) =
      (seeds-IsCached w past (after past (new o)) (after-IsCached o past)).0

  seeds-options :
      (w : Surroundings) (d : Impl)
      → ((seeds join_host_port w d).1.names ≡ d.names)
        × ((seeds join_host_port w d).1.port ≡ d.port)
        × ((seeds join_host_port w d).1.refresh ≡ d.refresh)
  unfolding seeds
  seeds-options w d = ground arith

  after-options :
      (past : List Surroundings) (d : Impl)
      → ((after past d).names ≡ d.names)
        × ((after past d).port ≡ d.port)
        × ((after past d).refresh ≡ d.refresh)
  after-options [] d = (refl, refl, refl)
  after-options (w ∷ past) d =
      let (p, q, r) = after-options past d in
      let (p', q', r') = seeds-options w (after past d) in (p' ∙ p, q' ∙ q, r' ∙ r)

  -- After any calls of `Seeds` of a new discovery, a call returns what the names are resolved to in
  -- this call, or what they were resolved to in one that ended less than the refresh time ago.
  pub after-IsFresh :
      (o : Options) (past : List Surroundings) (w : Surroundings)
      → IsFresh w past (new o) (seeds join_host_port w (after past (new o))).0
  after-IsFresh o past w =
      let d = after past (new o) in
      let (p, q, r) = after-options past (new o) in
      let (v, a, e, t) = (seeds-IsCached w past d (after-IsCached o past)).1 in
      (
        v,
        a,
        e ∙ ap₂ (resolve_all join_host_port v.resolver) q p,
        subst (λ n. (v ≡ w) ⊎ (w.now < v.done + n)) r t,
      )
