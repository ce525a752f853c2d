-- ===== src/RaftNode/Configuring.antt =====
-- The Raft configuration: the timeouts at the start, and the server list after `AddVoter`.
use go_cluster.Prelude.{
  ℕ, zero, suc, ltb, nat_eq, ◌/◌, ◌≤◌, ◌<◌, Text, ◌==◌, text_is_eq, none, some, Bool-cases,
  Option-cases, inl, inr, ◌≡◌, arith, if◌then◌else◌,
}
use go_cluster.Prelude.Int.{ℤ, pos, negsuc, ltb_ℤ}
use go_cluster.Result.{ok}
use go_cluster.GoMap.{GoMap, lookup}
use go_cluster.RaftNode.{Config, Options, Library, configured, positive_or, lease_for, ensure_voter}

lease_within :
    (t : ℤ) (heartbeat lease : ℕ)
    → 0 < lease
    → lease ≤ heartbeat
    → (0 < (if ltb_ℤ (pos 0) t then lease_for (positive_or heartbeat t) lease else lease))
      × ((if ltb_ℤ (pos 0) t then lease_for (positive_or heartbeat t) lease else lease)
          ≤ positive_or heartbeat t)
unfolding positive_or lease_for
lease_within (pos zero) heartbeat lease p b = (p, b)
lease_within (negsuc n) heartbeat lease p b = (ground (arith, ltb), ground (arith, ltb))
lease_within (pos (suc n)) heartbeat lease p b = (
  ground (arith, ltb, nat_eq.same_iff (suc n / 2) 0),
  ground (arith, ltb, nat_eq.same_iff (suc n / 2) 0),
)

-- With defaults that satisfy what Raft demands of its lease, every choice of the timeout options
-- gives a configuration that satisfies it: a positive lease that is at most the heartbeat.
pub configured-lease :
    (o : Options) (d : Config)
    → 0 < d.leader_lease_timeout
    → d.leader_lease_timeout ≤ d.heartbeat_timeout
    → (0 < (configured o d).leader_lease_timeout)
      × ((configured o d).leader_lease_timeout ≤ (configured o d).heartbeat_timeout)
unfolding configured positive_or lease_for
configured-lease o d positive below =
    lease_within o.heartbeat_timeout d.heartbeat_timeout d.leader_lease_timeout positive below

-- The documented effect of a configuration change that succeeds, on the server list.
pub record IsReconfigurable (lib : Library) : Type 0 where
  pub add :
      (id addr : Text) (t : ℤ) (r : lib.Raft) (m : GoMap Text Text)
      → lib.configuration r ≡ ok m
      → (lib.add_voter id addr t r).0 ≡ none
      → (m' : GoMap Text Text) × (lib.configuration (lib.add_voter id addr t r).1 ≡ ok m')
        × ((j : Text) → lookup j m' ≡ (if id == j then some addr else lookup j m))
  pub remove :
      (id : Text) (t : ℤ) (r : lib.Raft) (m : GoMap Text Text)
      → lib.configuration r ≡ ok m
      → (lib.remove_server id t r).0 ≡ none
      → (m' : GoMap Text Text) × (lib.configuration (lib.remove_server id t r).1 ≡ ok m')
        × ((j : Text) → lookup j m' ≡ (if id == j then none else lookup j m))

-- Where the server list can be read and configuration changes do what they document: after an
-- `AddVoter` that returns nil, the list has the server at the given address and every other
-- server as before, whether the server was absent, present, or present at another address.
pub ensure_voter_lem :
    (lib : Library) (laws : IsReconfigurable lib) (id addr : Text) (t : ℤ) (r : lib.Raft)
    (m : GoMap Text Text)
    → lib.configuration r ≡ ok m
    → (ensure_voter lib id addr t r).0 ≡ none
    → (m' : GoMap Text Text) × (lib.configuration (ensure_voter lib id addr t r).1 ≡ ok m')
      × ((j : Text) → lookup j m' ≡ (if id == j then some addr else lookup j m))
unfolding ensure_voter
ensure_voter_lem lib laws id addr t r m readable =
    rw (readable, ensure_voter)
      (elim (Option-cases (lookup id m)) [
        | inl absent ↦ rw (absent, ensure_voter) (laws.add id addr t r m readable)
        | inr (a, found) ↦
            rw (found, ensure_voter)
              (elim (Bool-cases (a == addr)) [
                | inl same ↦
                    rw (same, ensure_voter)
                      (λ done. (
                        m,
                        readable,
                        λ j. ground (arith, text_is_eq.same_iff a addr, text_is_eq.same_iff id j),
                      ))
                | inr other ↦ (elim (Option-cases (lib.remove_server id t r).0) [
                  | inl gone ↦
                      (let (m', read, rest) = laws.remove id t r m readable gone in
                        rw (other, gone, ensure_voter)
                          (λ done.
                            let (m'', read', rest') =
                              laws.add id addr t (lib.remove_server id t r).1 m' read done in
                            (m'', read', λ j. ground (arith, rest j, rest' j))))
                  | inr (e, failed) ↦ rw (other, failed, ensure_voter) (λ done. cc)
                ])
              ])
      ])
