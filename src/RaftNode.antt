-- ===== src/RaftNode.antt =====
-- pkg/consensus/raft: the node that wraps hashicorp/raft. That library and its stores are
-- parameters; a started Raft instance is any type with the calls that the node makes.
mod Tests
pub mod Configuring
pub mod Observing
use go_cluster.Prelude.{
  ℕ, zero, suc, ◌+◌, ◌/◌, Text, codes, is_empty, ◌==◌, nat_eq, text_is_eq, Bool, true, false, not,
  Option, none, some, is_some, List, [], ◌∷◌, if◌then◌else◌, ltb, or_zero,
}
use go_cluster.Prelude.Int.{ℤ, pos, negsuc, ltb_ℤ}
use go_cluster.Result.{Result, ok, err, Error}
use go_cluster.Json.{Json}
use go_cluster.GoMap.{GoMap, lookup}
use go_cluster.Channel.{Chan, make, pushed}
use go_cluster.Consensus.{Command, LeaderInfo}
use go_cluster.Cluster.Disk.{parse_uint}

-- `raft.Config`, as far as the node sets it; the durations are positive in `DefaultConfig`.
pub record Config : Type 0 where
  pub local_id : Text
  pub heartbeat_timeout : ℕ
  pub leader_lease_timeout : ℕ
  pub election_timeout : ℕ
  pub commit_timeout : ℕ

pub record Options : Type 0 where
  pub node_id : Text
  pub bootstrap : Bool
  pub heartbeat_timeout : ℤ
  pub election_timeout : ℤ
  pub commit_timeout : ℤ
  pub apply_timeout : ℤ
  pub bind_addr : Text
  pub data_dir : Text
  pub snapshots_retained : ℤ

-- hashicorp/raft and raft-boltdb. A server list is the list of the ids and addresses. The response
-- of an applied command is the error that the state machine returned.
pub record Library : Type 1 where
  pub Raft : Type 0
  pub Logs : Type 0
  pub Snapshots : Type 0
  pub Transport : Type 0
  pub default_config : Config
  pub make_dir : Text → Error
  pub bolt_store : Text → Result Logs
  pub file_snapshots : Text → ℤ → Result Snapshots
  pub inmem_store : Logs
  pub inmem_snapshots : Snapshots
  pub tcp_transport : Text → Result (Text × Transport)
  pub inmem_transport : Text → Text × Transport
  pub path_join : Text → Text → Text
  pub new_raft : Config → Logs → Logs → Snapshots → Transport → Result Raft
  pub bootstrap_cluster : List (Text × Text) → Raft → Error × Raft
  pub is_leader : Raft → Bool
  pub leader_with_id : Raft → Text × Text
  pub stats : Raft → GoMap Text Text
  pub apply : Text → ℤ → Raft → (Error × Error) × Raft
  pub shutdown : Raft → Error × Raft
  pub configuration : Raft → Result (GoMap Text Text)
  pub add_voter : Text → Text → ℤ → Raft → Error × Raft
  pub remove_server : Text → ℤ → Raft → Error × Raft

-- A duration option counts when it is above zero.
unfoldable pub positive_or : ℕ → ℤ → ℕ
positive_or d (pos (suc n)) = suc n
positive_or d (pos zero) = d
positive_or d (negsuc n) = d

-- The lease for a heartbeat that an option sets.
unfoldable pub lease_for : ℕ → ℕ → ℕ
lease_for heartbeat lease =
    if ltb heartbeat lease then (if heartbeat / 2 == 0 then heartbeat else heartbeat / 2) else lease

-- The configuration at the head of `Start`.
unfoldable pub configured : Options → Config → Config
unfolding positive_or lease_for
configured o d = record {
  local_id = o.node_id;
  heartbeat_timeout = positive_or d.heartbeat_timeout o.heartbeat_timeout;
  leader_lease_timeout =
      if ltb_ℤ (pos 0) o.heartbeat_timeout
      then lease_for (positive_or d.heartbeat_timeout o.heartbeat_timeout) d.leader_lease_timeout
      else d.leader_lease_timeout;
  election_timeout = positive_or d.election_timeout o.election_timeout;
  commit_timeout = positive_or d.commit_timeout o.commit_timeout;
}

module _ (lib : Library) where
  -- `raft` is `n.r`, and none is nil.
  pub record Node : Type 0 where
    pub opts : Options
    pub raft : Option lib.Raft
    pub leader_ch : Chan LeaderInfo

  -- `New`.
  unfoldable pub new : Options → Result Node
  unfolding make
  new o =
      if is_empty o.node_id
      then err (codes "raftcons: empty NodeID")
      else ok (record { opts = o; raft = none; leader_ch = make 16 })

  -- The stores that `Start` selects.
  unfoldable pub stores : Options → Result (lib.Logs × (lib.Logs × lib.Snapshots))
  stores o =
      if is_empty o.data_dir
      then ok (lib.inmem_store, (lib.inmem_store, lib.inmem_snapshots))
      else (elim (lib.make_dir o.data_dir) [
        | some e ↦ err e
        | none ↦ (elim (lib.bolt_store (lib.path_join o.data_dir (codes "raft.db"))) [
          | err e ↦ err e
          | ok bolt ↦ (elim (lib.file_snapshots o.data_dir o.snapshots_retained) [
            | err e ↦ err e
            | ok snaps ↦ ok (bolt, (bolt, snaps))
          ])
        ])
      ])

  unfoldable pub transport : Options → Result (Text × lib.Transport)
  transport o =
      if is_empty o.bind_addr
      then ok (lib.inmem_transport o.node_id)
      else lib.tcp_transport o.bind_addr

  -- `SnapshotsRetained` is two by default.
  unfoldable pub retained : Options → Options
  retained o = if is_empty o.data_dir then o else elim o.snapshots_retained [
    | pos n ↦ (if n == 0 then record o { snapshots_retained = pos 2 } else o)
    | negsuc n ↦ o
  ]

  unfoldable pub bootstrapped : Options → Text → lib.Raft → Error × lib.Raft
  bootstrapped o addr r =
      if o.bootstrap then lib.bootstrap_cluster ((o.node_id, addr) ∷ []) r else (none, r)

  -- `Start`, up to its goroutines: the observers are `observe`, and the end of the context is
  -- `stop`. A failed bootstrap leaves the instance in place.
  unfoldable pub start : Node → Error × Node
  unfolding stores transport retained bootstrapped configured
  start n = elim n.raft [
    | some r ↦ (none, n)
    | none ↦
        (let o = retained n.opts in
          elim (stores o) [
            | err e ↦ (some e, record n { opts = o })
            | ok (logs, (stable, snaps)) ↦ (elim (transport o) [
              | err e ↦ (some e, record n { opts = o })
              | ok (addr, trans) ↦
                  (elim (lib.new_raft (configured o lib.default_config) logs stable snaps trans) [
                    | err e ↦ (some e, record n { opts = o })
                    | ok r ↦
                        (let (e, r') = bootstrapped o addr r in
                          (e, record n { opts = o; raft = some r' }))
                  ])
            ])
          ])
  ]

  abbrev pub not_started : Text
  not_started = codes "raftcons: not started"

  -- `Apply`.
  unfoldable pub apply : Json Command → Command → ℤ → Node → Error × Node
  apply codec cmd timeout n = elim n.raft [
    | none ↦ (some not_started, n)
    | some r ↦
        (if lib.is_leader r
          then (elim (codec.marshal cmd) [
            | err e ↦ (some e, n)
            | ok entry ↦
                (let t =
                    (if not (ltb_ℤ (pos 0) timeout)
                      then (if ltb_ℤ (pos 0) n.opts.apply_timeout
                          then n.opts.apply_timeout
                          else timeout)
                      else timeout) in
                  let ((failed, response), r') = lib.apply entry t r in
                  (if is_some failed then failed else response, record n { raft = some r' }))
          ])
          else (some (codes "raftcons: not leader"), n))
  ]

  unfoldable pub is_leader : Node → Bool
  is_leader n = elim n.raft [ none ↦ false | some r ↦ lib.is_leader r ]

  -- `Leader`: the id and the address.
  unfoldable pub leader : Node → Option (Text × Text)
  leader n = elim n.raft [
    | none ↦ none
    | some r ↦ (let (a, sid) = lib.leader_with_id r in if is_empty sid then none else some (sid, a))
  ]

  unfoldable pub term : Node → ℕ
  term n = elim n.raft [
    | none ↦ 0
    | some r ↦ (elim (lookup (codes "current_term") (lib.stats r)) [
      | none ↦ 0
      | some v ↦ or_zero 0 (parse_uint v)
    ])
  ]

  -- `Stop`.
  unfoldable pub stop : Node → Error × Node
  stop n = elim n.raft [
    | none ↦ (none, n)
    | some r ↦
        (let (e, r') = lib.shutdown r in
          elim e [
            | none ↦ (none, record n { raft = none })
            | some m ↦ (some m, record n { raft = some r' })
          ])
  ]

  -- `emitLeader`.
  unfoldable pub emit_leader : LeaderInfo → Node → Node
  unfolding pushed
  emit_leader li n = record n { leader_ch = pushed li n.leader_ch }

  -- One observation, and the snapshot after the start.
  unfoldable pub observe : Node → Node
  unfolding leader term emit_leader
  observe n = elim (leader n) [
    | none ↦ n
    | some (id, addr) ↦ emit_leader (record { id = id; addr = addr; term = term n }) n
  ]

  -- `AddVoter`, on a running instance.
  unfoldable pub ensure_voter : Text → Text → ℤ → lib.Raft → Error × lib.Raft
  ensure_voter id addr timeout r = elim (lib.configuration r) [
    | err e ↦ lib.add_voter id addr timeout r
    | ok servers ↦ (elim (lookup id servers) [
      | none ↦ lib.add_voter id addr timeout r
      | some a ↦
          (if a == addr
            then (none, r)
            else (let (e, r') = lib.remove_server id timeout r in
                if is_some e then (e, r') else lib.add_voter id addr timeout r'))
    ])
  ]

  unfoldable pub on_raft : (lib.Raft → Error × lib.Raft) → Node → Error × Node
  on_raft f n = elim n.raft [
    | none ↦ (some not_started, n)
    | some r ↦ (let (e, r') = f r in (e, record n { raft = some r' }))
  ]

  unfoldable pub add_voter : Text → Text → ℤ → Node → Error × Node
  unfolding on_raft ensure_voter
  add_voter id addr timeout = on_raft (ensure_voter id addr timeout)

  unfoldable pub remove_server : Text → ℤ → Node → Error × Node
  unfolding on_raft
  remove_server id timeout = on_raft (lib.remove_server id timeout)
