-- ===== src/Tls.antt =====
-- pkg/security/tlsconfig/tlsconfig.go. `tls.LoadX509KeyPair`, the files and the clock are parameters:
-- what a reader sees of them. Times are nanoseconds since Go's zero time.
pub mod Freshness
pub mod Modes
mod Tests
use go_cluster.Prelude.{
  ℕ, ◌+◌, Text, codes, is_empty, Bool, true, false, ◌||◌, ◌&&◌, Option, none, some, List, [], ◌∷◌,
  if◌then◌else◌, ltb,
}
use go_cluster.Result.{Result, ok, err, ◌>>=◌}

pub record Options : Type 0 where
  pub enable : Bool
  pub ca_file : Text
  pub cert_file : Text
  pub key_file : Text
  pub insecure_skip_verify : Bool
  pub server_name : Text

-- The disk: `LoadX509KeyPair` of two files, and the text of a file. `Cert` is a certificate.
pub record Disk (Cert : Type 0) : Type 0 where
  pub key_pair : Text → Text → Result Cert
  pub read_file : Text → Result Text

-- `tls.Config`, as far as it is set. A pool is the PEM text that was appended to it.
pub record Config (Cert : Type 0) : Type 0 where
  pub certificates : List Cert
  pub client_cas : Option Text
  pub requires_client_cert : Bool
  pub root_cas : Option Text
  pub insecure_skip_verify : Bool
  pub server_name : Text
  pub gets_certificate : Bool
  pub gets_client_certificate : Bool

abbrev pub missing_files : Text
missing_files = codes "tls: server cert/key required when TLS enabled"

module _ {Cert : Type 0} where
  abbrev pub empty_config : Config Cert
  empty_config = record {
    certificates = [];
    client_cas = none;
    requires_client_cert = false;
    root_cas = none;
    insecure_skip_verify = false;
    server_name = [];
    gets_certificate = false;
    gets_client_certificate = false;
  }

  -- `if o.CAFile != "" { … }` of a server.
  unfoldable pub with_client_cas : Options → Disk Cert → Config Cert → Result (Config Cert)
  with_client_cas o disk cfg = if is_empty o.ca_file then ok cfg else (do
    ca ← disk.read_file o.ca_file
    ok (record cfg { client_cas = some ca; requires_client_cert = true }))

  -- `if o.CAFile != "" { … }` of a client.
  unfoldable pub with_root_cas : Options → Disk Cert → Config Cert → Result (Config Cert)
  with_root_cas o disk cfg =
      if is_empty o.ca_file
      then ok cfg
      else (do ca ← disk.read_file o.ca_file; ok (record cfg { root_cas = some ca }))

  -- `Server`; `none` is a nil configuration.
  unfoldable pub server : Options → Disk Cert → Result (Option (Config Cert))
  unfolding with_client_cas
  server o disk =
      if o.enable
      then (if is_empty o.cert_file || is_empty o.key_file then err missing_files else (do
        cert ← disk.key_pair o.cert_file o.key_file
        cfg ← with_client_cas o disk (record empty_config { certificates = cert ∷ [] })
        ok (some cfg)))
      else ok none

  abbrev pub client_config : Options → Config Cert
  client_config o = record empty_config {
    insecure_skip_verify = o.insecure_skip_verify;
    server_name = o.server_name;
  }

  -- `Client`
  unfoldable pub client : Options → Disk Cert → Result (Option (Config Cert))
  unfolding with_root_cas
  client o disk =
      if o.enable
      then (do
        cfg ← with_root_cas o disk (client_config o)
        if is_empty o.cert_file || is_empty o.key_file then ok (some cfg) else (do
          cert ← disk.key_pair o.cert_file o.key_file
          ok (some (record cfg { certificates = cert ∷ [] }))))
      else ok none

  -- `ServerHotReload`
  unfoldable pub server_hot_reload : Options → Disk Cert → Result (Option (Config Cert))
  unfolding with_client_cas
  server_hot_reload o disk =
      if o.enable
      then (if is_empty o.cert_file || is_empty o.key_file then err missing_files else (do
        cfg ← with_client_cas o disk empty_config
        ok (some (record cfg { gets_certificate = true }))))
      else ok none

  -- `ClientHotReload`
  unfoldable pub client_hot_reload : Options → Disk Cert → Result (Option (Config Cert))
  unfolding with_root_cas
  client_hot_reload o disk =
      if o.enable
      then (do
        cfg ← with_root_cas o disk (client_config o)
        ok (some (record cfg { gets_client_certificate = true })))
      else ok none

-- The variables of the closure `load`.
pub record Cache (Cert : Type 0) : Type 0 where
  pub cached : Option Cert
  pub last_load : ℕ

abbrev pub empty_cache : {Cert : Type 0} → Cache Cert
empty_cache = record { cached = none; last_load = 0 }

-- What one call of `load` meets: the clock at its start and behind the load, and the disk.
pub record Handshake (Cert : Type 0) : Type 0 where
  pub now : ℕ
  pub done : ℕ
  pub disk : Disk Cert

-- Ten seconds, in nanoseconds.
abbrev pub ttl : ℕ
ttl = 10000000000

module _ {Cert : Type 0} where
  -- The certificate, if the cache still holds it.
  unfoldable pub cached_cert : ℕ → Cache Cert → Option Cert
  cached_cert now c = if ltb now (c.last_load + ttl) then c.cached else none

  -- `load` of a server, when no other call comes between its parts.
  unfoldable pub load : Options → Handshake Cert → Cache Cert → Result Cert × Cache Cert
  unfolding cached_cert
  load o w c = elim (cached_cert w.now c) [
    | some cert ↦ (ok cert, c)
    | none ↦ (elim (w.disk.key_pair o.cert_file o.key_file) [
      | err e ↦ (err e, c)
      | ok cert ↦ (ok cert, record { cached = some cert; last_load = w.done })
    ])
  ]

  -- `load` of a client; `ok none` is a nil certificate and a nil error.
  unfoldable pub load_client :
      Options → Handshake Cert → Cache Cert → Result (Option Cert) × Cache Cert
  unfolding load
  load_client o w c =
      let (r, c') = load o w c in
      if is_empty o.cert_file || is_empty o.key_file
      then (ok none, c)
      else (elim r [ ok cert ↦ ok (some cert) | err e ↦ err e ], c')
