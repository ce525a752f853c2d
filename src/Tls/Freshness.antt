-- ===== src/Tls/Freshness.antt =====
-- How old a served certificate may be.
use go_cluster.Prelude.{
  ℕ, ◌+◌, ◌<◌, ◌≡◌, refl, ap, sym, ◌∙◌, none, some, List, [], ◌∷◌, ◌⊎◌, inl, inr, arith, ltb,
  Bool-cases, Option-cases,
}
use go_cluster.Result.{Result, ok, Result-cases}
use go_cluster.Tls.{Options, Cache, empty_cache, Handshake, ttl, cached_cert, load}

module _ {Cert : Type 0} (o : Options) where
  -- One of the handshakes.
  abbrev pub IsAmong : Handshake Cert → List (Handshake Cert) → Type 0
  IsAmong v [] = ⊥
  IsAmong v (w ∷ past) = (v ≡ w) ⊎ IsAmong v past

  -- The cache after handshakes, the newest first.
  abbrev pub after : List (Handshake Cert) → Cache Cert
  after [] = empty_cache
  after (w ∷ past) = (load o w (after past)).1

  abbrev pub read : Handshake Cert → Result Cert
  read v = v.disk.key_pair o.cert_file o.key_file

  -- The certificate stood on the disk in one of the handshakes, that one being the newest, or one whose
  -- load ended less than ten seconds ago.
  abbrev pub IsFresh : Handshake Cert → List (Handshake Cert) → Cert → Type 0
  IsFresh w past cert =
      (v : Handshake Cert) × IsAmong v (w ∷ past)
      × (read v ≡ ok cert)
      × ((v ≡ w) ⊎ (w.now < v.done + ttl))

  abbrev IsCached : List (Handshake Cert) → Cache Cert → Type 0
  IsCached past c =
      (c.cached ≡ none)
      ⊎ ((cert : Cert) × (v : Handshake Cert) × (c.cached ≡ some cert)
          × IsAmong v past
          × (read v ≡ ok cert)
          × (c.last_load ≡ v.done))

  IsCached-later :
      (w : Handshake Cert) (past : List (Handshake Cert)) (c : Cache Cert)
      → IsCached past c
      → IsCached (w ∷ past) c
  IsCached-later w past c (inl e) = inl e
  IsCached-later w past c (inr (cert, v, e, a, f, l)) = inr (cert, v, e, inr a, f, l)

  cached_cert-some :
      (now : ℕ) (c : Cache Cert) (cert : Cert)
      → cached_cert now c ≡ some cert
      → (c.cached ≡ some cert) × (now < c.last_load + ttl)
  unfolding cached_cert
  cached_cert-some now c cert = elim (Bool-cases (ltb now (c.last_load + ttl))) [
    | inl e ↦ rw (cached_cert, e) (λ h. (h, ground (arith, e)))
    | inr e ↦ rw (cached_cert, e) (λ h. cc)
  ]

  load-IsCached :
      (w : Handshake Cert) (past : List (Handshake Cert)) (c : Cache Cert)
      → IsCached past c
      → IsCached (w ∷ past) (load o w c).1
  unfolding load
  load-IsCached w past c h = elim (Option-cases (cached_cert w.now c)) [
    | inr (cert, e) ↦ rw (load, e) (IsCached-later w past c h)
    | inl e ↦ elim (Result-cases (read w)) [
      | inl (cert, f) ↦ rw (load, e, f) (inr (cert, w, refl, inl refl, f, refl))
      | inr (x, f) ↦ rw (load, e, f) (IsCached-later w past c h)
    ]
  ]

  after-IsCached : (past : List (Handshake Cert)) → IsCached past (after past)
  after-IsCached [] = inl refl
  after-IsCached (w ∷ past) = load-IsCached w past (after past) (after-IsCached past)

  cached-IsFresh :
      (w : Handshake Cert) (past : List (Handshake Cert)) (c : Cache Cert) (cert : Cert)
      → IsCached past c
      → c.cached ≡ some cert
      → w.now < c.last_load + ttl
      → IsFresh w past cert
  cached-IsFresh w past c cert (inl e) f young = cc
  cached-IsFresh w past c cert (inr (old, v, e, a, f, l)) g young =
      let same : old ≡ cert = cc in (v, inr a, f ∙ ap ok same, inr (rw (sym l) young))

  -- A certificate that a handshake of a server gets, after any handshakes of a new configuration,
  -- stood on the disk in this handshake, or in an earlier one whose load ended less than ten seconds
  -- before this one began.
  pub load-IsFresh :
      (past : List (Handshake Cert)) (w : Handshake Cert) (cert : Cert)
      → (load o w (after past)).0 ≡ ok cert
      → IsFresh w past cert
  unfolding load
  load-IsFresh past w cert = elim (Option-cases (cached_cert w.now (after past))) [
    | inr (old, e) ↦
        rw (load, e)
          (λ h.
            let (f, young) = cached_cert-some w.now (after past) old e in
            let same : old ≡ cert = cc in
            cached-IsFresh w past (after past) cert (after-IsCached past) (f ∙ ap some same) young)
    | inl e ↦ elim (Result-cases (read w)) [
      | inl (found, f) ↦ rw (load, e, f) (λ h. (w, inl refl, f ∙ h, inl refl))
      | inr (x, f) ↦ rw (load, e, f) (λ h. cc)
    ]
  ]
