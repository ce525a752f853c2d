-- ===== src/Tls/Tests.antt =====
-- A disk with a certificate, and the theorems of the TLS configuration applied.
use go_cluster.Prelude.{ℕ, codes, refl, true, false, some, [], ◌∷◌}
use go_cluster.Result.{ok}
use go_cluster.Tls.{Options, Disk, Config, Handshake, empty_config, server, load, cached_cert}
use go_cluster.Tls.Freshness.{IsFresh, load-IsFresh}
use go_cluster.Tls.Modes.{IsReloaded, server_hot_reload-server}

abbrev options : Options
options = record {
  enable = true;
  ca_file = codes "ca";
  cert_file = codes "c";
  key_file = codes "k";
  insecure_skip_verify = false;
  server_name = [];
}

-- A certificate is a number.
abbrev disk : ℕ → Disk ℕ
disk n = record { key_pair = λ c k. ok n; read_file = λ f. ok (codes "pem") }

abbrev handshake : ℕ → ℕ → Handshake ℕ
handshake t n = record { now = t; done = t; disk = disk n }

load-IsFresh_example : IsFresh options (handshake 25 8) (handshake 20 7 ∷ []) 7
load-IsFresh_example =
    load-IsFresh options (handshake 20 7 ∷ []) (handshake 25 8) 7
      (unfold load in unfold cached_cert in refl)

abbrev fixed : Config ℕ
fixed = record empty_config {
  certificates = 7 ∷ [];
  client_cas = some (codes "pem");
  requires_client_cert = true;
}

server_hot_reload-server_example : IsReloaded options (handshake 20 7) fixed
server_hot_reload-server_example =
    server_hot_reload-server options (handshake 20 7) fixed (unfold server in refl)
