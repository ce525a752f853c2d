-- ===== src/Bootstrap/Building.antt =====
-- When `Build` succeeds, and the seeds of the node that it assembles.
use go_cluster.Prelude.{
  Text, codes, is_empty, ◌==◌, text_is_eq, ◌≡◌, refl, ap, ◌∙◌, false, some, List, [], ◌∷◌, All,
  if◌then◌else◌, Bool-cases, inl, inr,
}
use go_cluster.Result.{ok, error_of, Result-cases}
use go_cluster.Discovery.Texts.{clean}
use go_cluster.Discovery.Static as Static
use go_cluster.Discovery.Static.Parsing.{IsSeed, join, parse-join, clean-cons}
use go_cluster.RaftNode as RaftNode
use go_cluster.Memberlist as Memberlist
use go_cluster.Tls as Tls
use go_cluster.Cluster.World as World
use go_cluster.Cluster.World.{validate, fresh}
use go_cluster.Bootstrap.{
  Config, static, new_discovery, raft_options, membership_options, cluster_options, new_udp,
  tls_configs, build,
}

clean-seeds : (l : List Text) → All IsSeed l → clean l ≡ l
unfolding clean
clean-seeds [] h = refl
clean-seeds (a ∷ l) (h, hs) = clean-cons a l h ∙ ap (◌∷◌ a) (clean-seeds l hs)

new_discovery-static :
    (cfg : Config)
    → (cfg.discovery_kind == codes "dns") ≡ false
    → (cfg.discovery_kind == codes "file") ≡ false
    → new_discovery cfg ≡ static (record { list = clean (Static.parse cfg.seeds_csv) })
unfolding new_discovery Static.new
new_discovery-static cfg not_dns not_file = rw (new_discovery, not_dns, not_file) refl

-- With another kind of discovery than `dns` and `file`, and seeds that are joined with commas, the
-- discovery of the node has exactly these seeds, in this order.
pub new_discovery-join :
    (cfg : Config) (l : List Text)
    → (cfg.discovery_kind == codes "dns") ≡ false
    → (cfg.discovery_kind == codes "file") ≡ false
    → All IsSeed l
    → cfg.seeds_csv ≡ join l
    → new_discovery cfg ≡ static (record { list = l })
new_discovery-join cfg l not_dns not_file h e =
    new_discovery-static cfg not_dns not_file
    ∙ ap (λ parsed. static (record { list = clean parsed })) (ap Static.parse e ∙ parse-join l h)
    ∙ ap (λ seeds. static (record { list = seeds })) (clean-seeds l h)

module _ {Cert : Type 0} (raft : RaftNode.Library) (gossip : Memberlist.Library)
    (disk : Tls.Disk Cert) where
  pub World_new-cluster_options :
      (cfg : Config) → is_empty cfg.node_id ≡ false → World.new (cluster_options cfg) ≡ ok fresh
  unfolding World.new validate cluster_options
  World_new-cluster_options cfg e = rw (World.new, validate, e) refl

  -- `Build` reports an empty node ID, then an empty address for the membership, then what making the
  -- TLS configurations reports; otherwise it succeeds. The facade's own validation never fails in it.
  pub error_of-build :
      (cfg : Config)
      → error_of (build raft gossip disk cfg) ≡ (
          if is_empty cfg.node_id
          then some (codes "raftcons: empty NodeID")
          else if is_empty cfg.mem_bind
          then some (codes "memberlist: empty Bind address")
          else error_of (tls_configs raft gossip disk cfg))
  unfolding build new_udp RaftNode.new Memberlist.new raft_options membership_options
  error_of-build cfg = elim (Bool-cases (is_empty cfg.node_id)) [
    | inl e ↦ rw (build, RaftNode.new, e) refl
    | inr e ↦ elim (Bool-cases (is_empty cfg.mem_bind)) [
      | inl f ↦ rw (build, RaftNode.new, Memberlist.new, e, f) refl
      | inr f ↦ elim (Result-cases (tls_configs raft gossip disk cfg)) [
        | inr (x, g) ↦ rw (build, RaftNode.new, Memberlist.new, e, f, g) refl
        | inl (t, g) ↦
            rw (build, RaftNode.new, Memberlist.new, e, f, g, World_new-cluster_options cfg e) refl
      ]
    ]
  ]
