-- ===== src/Memberlist.antt =====
-- pkg/membership/memberlist/memberlist.go: the membership layer over hashicorp/memberlist, which is
-- a parameter: a running instance is any type with the calls that this layer makes.
mod Tests
pub mod Safety
pub mod Metadata
use go_cluster.Prelude.{
  not, ◌&&◌, ℕ, ◌≤◌, Text, codes, is_empty, length, take, Bool, true, false, ◌||◌, Option, none,
  some, List, [], ◌∷◌, map, if◌then◌else◌, ltb, leb,
}
use go_cluster.Prelude.Int.{ℤ, pos, negsuc, ltb_ℤ}
use go_cluster.Result.{Result, ok, err, Error}
use go_cluster.GoMap.{GoMap}
use go_cluster.Membership.{MemberInfo, EventType, Event, join, leave}
use go_cluster.Channel.{Chan, make, offer, pushed, close}
use go_cluster.Cluster.Disk.{format_uint}

-- `memberlist.Node`, with its address as text.
pub record GossipNode : Type 0 where
  pub name : Text
  pub addr : Text
  pub port : ℕ
  pub meta : Text

pub record Options : Type 0 where
  pub node_id : Text
  pub bind : Text
  pub advertise : Text
  pub meta : Option (GoMap Text Text)
  pub probe_interval : ℤ
  pub probe_timeout : ℤ
  pub suspicion_mult : ℤ

-- `memberlist.Config`, as far as the layer sets it.
pub record Config : Type 0 where
  pub name : Text
  pub bind_addr : Text
  pub bind_port : ℤ
  pub advertise_addr : Text
  pub advertise_port : ℤ
  pub probe_interval : ℤ
  pub probe_timeout : ℤ
  pub suspicion_mult : ℤ
  pub meta : Text

-- hashicorp/memberlist, and what the layer uses of `net`, `fmt` and `encoding/json`. `decode_meta`
-- is the map that `json.Unmarshal` leaves of an empty one; none is the nil map.
pub record Library : Type 1 where
  pub Memberlist : Type 0
  pub default_config : Config
  pub create : Config → Result Memberlist
  pub join : List Text → Memberlist → Error × Memberlist
  pub local_node : Memberlist → GossipNode
  pub members : Memberlist → List GossipNode
  pub leave : Memberlist → Memberlist
  pub health_score : Memberlist → ℤ
  pub split_host_port : Text → Result (Text × Text)
  pub join_host_port : Text → Text → Text
  pub scan_int : Text → Result ℤ
  pub decode_meta : Text → Option (GoMap Text Text)
  pub encode_meta : Option (GoMap Text Text) → Text

-- `NodeMeta`.
unfoldable pub node_meta : Text → ℤ → Text
node_meta meta (pos limit) = if leb (length meta) limit then meta else take limit meta
node_meta meta (negsuc n) = []

abbrev pub positive_or : ℤ → ℤ → ℤ
positive_or d t = if ltb_ℤ (pos 0) t then t else d

module _ (lib : Library) where
  -- `parsePort`. The texts of the errors about addresses stand for the formatted ones.
  unfoldable pub parse_port : Text → Result ℤ
  parse_port s = elim (lib.scan_int s) [
    | err e ↦ err (codes "invalid port")
    | ok p ↦ (if ltb_ℤ p (pos 0) || ltb_ℤ (pos 65535) p then err (codes "invalid port") else ok p)
  ]

  unfoldable pub endpoint : Text → Result (Text × ℤ)
  unfolding parse_port
  endpoint hostport = elim (lib.split_host_port hostport) [
    | err e ↦ err (codes "memberlist: invalid address")
    | ok (host, port) ↦ (elim (parse_port port) [ err e ↦ err e | ok p ↦ ok (host, p) ])
  ]

  -- The configuration that `Start` builds.
  unfoldable pub configured : Options → Result Config
  unfolding endpoint
  configured o =
      let d = lib.default_config in
      elim (endpoint o.bind) [
        | err e ↦ err e
        | ok (host, port) ↦
            (let bound = (record d {
              name = o.node_id;
              bind_addr = host;
              bind_port = port;
              probe_interval = positive_or d.probe_interval o.probe_interval;
              probe_timeout = positive_or d.probe_timeout o.probe_timeout;
              suspicion_mult = positive_or d.suspicion_mult o.suspicion_mult;
              meta = lib.encode_meta o.meta;
            }) in
              if is_empty o.advertise then ok bound else (elim (endpoint o.advertise) [
                | err e ↦ err e
                | ok (ahost, aport) ↦
                    ok (record bound { advertise_addr = ahost; advertise_port = aport })
              ]))
      ]

  -- The layer's state; `ml` is none for nil.
  pub record Impl : Type 0 where
    pub opts : Options
    pub ml : Option lib.Memberlist
    pub evts : Chan Event
    pub closed : Bool

  -- `New`.
  unfoldable pub new : Options → Result Impl
  unfolding make
  new o =
      if is_empty o.node_id
      then err (codes "memberlist: empty NodeID")
      else if is_empty o.bind
      then err (codes "memberlist: empty Bind address")
      else ok (record { opts = o; ml = none; evts = make 64; closed = false })

  -- `Start`; the end of its context is a call of `stop`.
  unfoldable pub start : Impl → Error × Impl
  unfolding configured
  start m = elim m.ml [
    | some l ↦ (none, m)
    | none ↦ (elim (configured m.opts) [
      | err e ↦ (some e, m)
      | ok cfg ↦ (elim (lib.create cfg) [
        | err e ↦ (some e, m)
        | ok l ↦ (none, record m { ml = some l })
      ])
    ])
  ]

  -- `Join`.
  unfoldable pub join_seeds : List Text → Impl → Error × Impl
  join_seeds seeds m = elim m.ml [
    | none ↦ (some (codes "memberlist: not started"), m)
    | some l ↦
        (let (e, l') = lib.join seeds l in
          if is_empty seeds then (none, m) else (e, record m { ml = some l' }))
  ]

  -- `Leave` up to the end of the lock: `closed`, as it is then, if there is an instance.
  unfoldable pub begin_leave : Impl → Option Bool
  begin_leave m = elim m.ml [ none ↦ none | some l ↦ some m.closed ]

  -- The rest of `Leave`, on the instance of that time. It panics, `none`, if the instance has been
  -- shut down since, which only the `Stop` that closes the layer does.
  unfoldable pub end_leave : Option Bool → Impl → Option Impl
  end_leave none m = some m
  end_leave (some closed) m =
      if not closed && m.closed
      then none
      else (elim m.ml [ none ↦ some m | some l ↦ some (record m { ml = some (lib.leave l) }) ])

  -- `Stop`; `none` is the panic of a second close. The error of `Shutdown` is ignored.
  unfoldable pub stop : Impl → Option Impl
  unfolding close
  stop m = if m.closed then some m else elim (close m.evts) [
    | none ↦ none
    | some evts ↦ some (record m { closed = true; ml = none; evts = evts })
  ]

  -- `emit`: the panic of a send on the closed channel is recovered.
  unfoldable pub emit : Event → Impl → Impl
  unfolding offer pushed
  emit e m = elim (offer e m.evts) [ none ↦ m | some evts ↦ record m { evts = evts } ]

  -- What `meta` becomes for a remote node.
  unfoldable pub decoded : Text → Option (GoMap Text Text)
  decoded meta = if is_empty meta then some [] else lib.decode_meta meta

  unfoldable pub member_info : GossipNode → MemberInfo
  unfolding decoded
  member_info n = record {
    id = n.name;
    addr = lib.join_host_port n.addr (format_uint n.port);
    meta = decoded n.meta;
  }

  -- `Members`; a nil slice is the empty one.
  unfoldable pub members : Impl → List MemberInfo
  unfolding member_info
  members m = elim m.ml [ none ↦ [] | some l ↦ map member_info (lib.members l) ]

  -- `Local`.
  unfoldable pub local_member : Impl → MemberInfo
  unfolding member_info
  local_member m = elim m.ml [
    | none ↦ record { id = []; addr = []; meta = none }
    | some l ↦
        (let n = lib.local_node l in
          let info = member_info n in
          let own : MemberInfo = elim m.opts.meta [
            | none ↦ info
            | some t ↦ record info { meta = some t }
          ] in
          if is_empty n.meta then own else info)
  ]

  unfoldable pub health_score : Impl → ℤ
  health_score m = elim m.ml [ none ↦ negsuc 0 | some l ↦ lib.health_score l ]

  -- `NotifyJoin` and `NotifyUpdate`, at a clock reading.
  unfoldable pub notify_join : ℕ → GossipNode → Impl → Impl
  unfolding member_info emit
  notify_join now n = emit (record { kind = join; member = member_info n; at = now })

  -- `NotifyLeave`.
  unfoldable pub notify_leave : ℕ → GossipNode → Impl → Impl
  unfolding member_info emit
  notify_leave now n = emit (record { kind = leave; member = member_info n; at = now })
