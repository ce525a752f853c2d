-- ===== src/Tls/Modes.antt =====
-- Both kinds of a server's configuration, and a client without a certificate.
use go_cluster.Prelude.{
  is_empty, ◌≡◌, refl, ap, sym, ◌∙◌, true, false, ◌||◌, Option, none, some, List, [], ◌∷◌, inl, inr,
  ltb, Bool-cases,
}
use go_cluster.Result.{Result, ok, err, Result-cases, ◌>>=◌}
use go_cluster.Tls.{
  Options, Disk, Config, empty_config, Cache, empty_cache, Handshake, with_client_cas, server,
  server_hot_reload, cached_cert, load, ttl, load_client,
}

abbrev pub without_certificates : {Cert : Type 0} → Config Cert → Config Cert
without_certificates cfg = record cfg { certificates = [] }

-- The configuration without its certificates, and with or without the function for them.
abbrev pub as_reloading : {Cert : Type 0} → Config Cert → Config Cert
as_reloading cfg = record cfg { certificates = []; gets_certificate = true }

ok_injective : {A : Type 0} {a b : A} → ok a ≡ ok b → a ≡ b
ok_injective h = cc

ok_some : {A : Type 0} (r : Result A) (a : A) → (r >>= (λ x. ok (some x))) ≡ ok (some a) → r ≡ ok a
ok_some (ok x) a h = ap (or_ok x) h
  where
    or_ok : {A : Type 0} → A → Result (Option A) → Result A
    or_ok x (ok (some y)) = ok y
    or_ok x (ok none) = ok x
    or_ok x (err e) = ok x
ok_some (err e) a h = cc

module _ {Cert : Type 0} (o : Options) where
  -- The reloading configuration can be made from the same disk and asks clients for certificates
  -- alike, and the first handshake on that disk gets the certificate of the fixed one.
  abbrev pub IsReloaded : Handshake Cert → Config Cert → Type 0
  IsReloaded w cfg =
      (cert : Cert) × (cfg.certificates ≡ cert ∷ [])
      × (server_hot_reload o w.disk ≡ ok (some (as_reloading cfg)))
      × ((load o w empty_cache).0 ≡ ok cert)

  load-empty_cache :
      (w : Handshake Cert) (cert : Cert)
      → w.disk.key_pair o.cert_file o.key_file ≡ ok cert
      → (load o w empty_cache).0 ≡ ok cert
  unfolding load cached_cert
  load-empty_cache w cert e = elim (Bool-cases (ltb w.now ttl)) [
    | inl f ↦ rw (load, cached_cert, f, e) refl
    | inr f ↦ rw (load, cached_cert, f, e) refl
  ]

  with_client_cas-certificates :
      (disk : Disk Cert) (l : List Cert) (cfg : Config Cert)
      → with_client_cas o disk (record empty_config { certificates = l }) ≡ ok cfg
      → (cfg.certificates ≡ l)
        × (with_client_cas o disk empty_config ≡ ok (without_certificates cfg))
  unfolding with_client_cas
  with_client_cas-certificates disk l cfg = elim (Bool-cases (is_empty o.ca_file)) [
    | inl k ↦
        rw (with_client_cas, k)
          (λ h.
            let e = ok_injective h in
            (
              ap (λ (c : Config Cert). c.certificates) (sym e),
              ap (λ c. ok (without_certificates c)) e,
            ))
    | inr k ↦ elim (Result-cases (disk.read_file o.ca_file)) [
      | inr (x, m) ↦ rw (with_client_cas, k, m) (λ h. cc)
      | inl (ca, m) ↦
          rw (with_client_cas, k, m)
            (λ h.
              let e = ok_injective h in
              (
                ap (λ (c : Config Cert). c.certificates) (sym e),
                ap (λ c. ok (without_certificates c)) e,
              ))
    ]
  ]

  server-key_pair :
      (disk : Disk Cert) (cert : Cert)
      → o.enable ≡ true
      → (is_empty o.cert_file || is_empty o.key_file) ≡ false
      → disk.key_pair o.cert_file o.key_file ≡ ok cert
      → server o disk ≡ (
          with_client_cas o disk (record empty_config { certificates = cert ∷ [] })
          >>= (λ cfg. ok (some cfg)))
  unfolding server
  server-key_pair disk cert e f g = simp (server, e, f, g)

  server-inversion :
      (disk : Disk Cert) (cfg : Config Cert)
      → server o disk ≡ ok (some cfg)
      → (cert : Cert) × (o.enable ≡ true)
        × ((is_empty o.cert_file || is_empty o.key_file) ≡ false)
        × (disk.key_pair o.cert_file o.key_file ≡ ok cert)
        × (with_client_cas o disk (record empty_config { certificates = cert ∷ [] }) ≡ ok cfg)
  unfolding server
  server-inversion disk cfg = elim (Bool-cases o.enable) [
    | inr e ↦ simp (server, e) (λ h. cc)
    | inl e ↦ elim (Bool-cases (is_empty o.cert_file || is_empty o.key_file)) [
      | inl f ↦ simp (server, e, f) (λ h. cc)
      | inr f ↦ elim (Result-cases (disk.key_pair o.cert_file o.key_file)) [
        | inr (x, g) ↦ simp (server, e, f, g) (λ h. cc)
        | inl (cert, g) ↦ (λ h.
            let cas = with_client_cas o disk (record empty_config { certificates = cert ∷ [] }) in
            let made : (cas >>= (λ c. ok (some c))) ≡ ok (some cfg) =
              sym (server-key_pair disk cert e f g) ∙ h in
            (cert, e, f, g, ok_some cas cfg made))
      ]
    ]
  ]

  -- Where the fixed configuration of a server can be made, so can the reloading one, from the same
  -- disk: it asks clients for certificates alike, and the first handshake on that disk gets the
  -- certificate of the fixed one.
  pub server_hot_reload-server :
      (w : Handshake Cert) (cfg : Config Cert) → server o w.disk ≡ ok (some cfg) → IsReloaded w cfg
  unfolding server_hot_reload
  server_hot_reload-server w cfg h =
      let (cert, e, f, g, k) = server-inversion w.disk cfg h in
      let (l, m) = with_client_cas-certificates w.disk (cert ∷ []) cfg k in
      (cert, l, simp (server_hot_reload, e, f, m), load-empty_cache w cert g)

  -- A client whose options name no certificate, or no key, answers a server's request for one with
  -- neither a certificate nor an error, whatever is on the disk and in the cache.
  pub load_client-nil :
      (w : Handshake Cert) (c : Cache Cert)
      → (is_empty o.cert_file || is_empty o.key_file) ≡ true
      → load_client o w c ≡ (ok none, c)
  unfolding load_client
  load_client-nil w c e = rw (load_client, e) refl
