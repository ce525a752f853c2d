-- ===== src/Cluster/Leadership/Guarded.antt =====
-- Only a leader changes the replicated log or the Raft configuration.
use go_cluster.Prelude.{Text, Bool, true, false, List, [], ◌∷◌, ◌≡◌, refl, arith, if◌then◌else◌}
use go_cluster.Membership
use go_cluster.Membership.{MemberInfo, join, leave, failed}
use go_cluster.EventBus.{Event}
use go_cluster.Cluster.World.{
  Setup, Env, Call, History, Cluster, M, ◌>>=◌, ◌>>◌, pure, ask, emit, asks_members, asks_is_leader,
  applies, adds_voter, removes_server,
}
use go_cluster.Cluster.Leadership.{
  leads, members, lookup_member_addr, apply_add_node, apply_remove_node, remove_server, react,
  membership_event, add_all, reconcile_members,
}

-- A call that changes the replicated state or the configuration of Raft.
abbrev pub commands : Call → Bool
commands (applies cmd) = true
commands (adds_voter id addr) = true
commands (removes_server id) = true
commands c = false

-- The newest call was `IsLeader`, and the answer was true.
abbrev pub just_led : Env → History → Bool
just_led env [] = false
just_led env (asks_is_leader ∷ h) = env.is_leader (asks_is_leader ∷ h)
just_led env (c ∷ h) = false

-- Each call that changes something comes right after an `IsLeader` that answered true.
abbrev pub Guarded : Env → History → Type 0
Guarded env [] = Unit
Guarded env (c ∷ h) = (commands c ≡ true → just_led env h ≡ true) × Guarded env h

-- The method keeps that.
pub record KeepsGuarded (env : Env) {A : Type 0} (m : M A) : Type 0 where
  pub at : (s : Cluster) → Guarded env s.calls → Guarded env (m s).1.calls

-- One rule for each way to build a method.
module _ (env : Env) where
  pub KeepsGuarded-pure : {A : Type 0} (a : A) → KeepsGuarded env (pure a)
  KeepsGuarded-pure a = record { at = λ s h. h }

  pub KeepsGuarded-ask :
      {A : Type 0} (c : Call) (answer : History → A)
      → commands c ≡ false
      → KeepsGuarded env (ask c answer)
  KeepsGuarded-ask c answer quiet = record { at = λ s h. (λ loud. cc, h) }

  pub KeepsGuarded-same :
      {A : Type 0} (m : M A) → ((s : Cluster) → (m s).1.calls ≡ s.calls) → KeepsGuarded env m
  KeepsGuarded-same m same = record { at = λ s h. rw same h }

  pub KeepsGuarded-bind :
      {A B : Type 0} (m : M A) (f : A → M B)
      → KeepsGuarded env m
      → ((a : A) → KeepsGuarded env (f a))
      → KeepsGuarded env (m >>= f)
  KeepsGuarded-bind m f km kf = record { at = λ s h. (kf (m s).0).at (m s).1 (km.at s h) }

  pub KeepsGuarded-if :
      {A : Type 0} (b : Bool) (m n : M A)
      → KeepsGuarded env m
      → KeepsGuarded env n
      → KeepsGuarded env (if b then m else n)
  KeepsGuarded-if true m n km kn = km
  KeepsGuarded-if false m n km kn = kn

module _ (w : Setup) where
  pub leads-KeepsGuarded : KeepsGuarded w.env (leads w)
  unfolding leads
  leads-KeepsGuarded = record { at = λ s h. ground arith }

  pub lookup_member_addr-KeepsGuarded : (id : Text) → KeepsGuarded w.env (lookup_member_addr w id)
  unfolding lookup_member_addr
  lookup_member_addr-KeepsGuarded id = record { at = λ s h. ground arith }

  pub apply_add_node-KeepsGuarded : (m : MemberInfo) → KeepsGuarded w.env (apply_add_node w m)
  unfolding apply_add_node
  apply_add_node-KeepsGuarded m = record { at = λ s h. ground arith }

  pub apply_remove_node-KeepsGuarded : (id : Text) → KeepsGuarded w.env (apply_remove_node w id)
  unfolding apply_remove_node
  apply_remove_node-KeepsGuarded id = record { at = λ s h. ground arith }

  pub remove_server-KeepsGuarded : (id : Text) → KeepsGuarded w.env (remove_server w id)
  unfolding remove_server
  remove_server-KeepsGuarded id = record { at = λ s h. ground arith }

  pub members-KeepsGuarded : KeepsGuarded w.env (members w)
  members-KeepsGuarded = KeepsGuarded-ask w.env asks_members w.env.members refl

  emitting :
      (m n : M (Unit {0})) (ev : Event)
      → KeepsGuarded w.env m
      → KeepsGuarded w.env n
      → KeepsGuarded w.env (do m; n; members w; emit ev)
  emitting m n ev km kn = KeepsGuarded-bind w.env m _ km λ _. KeepsGuarded-bind w.env n _ kn λ _.
      KeepsGuarded-bind w.env (members w) _ members-KeepsGuarded
        λ _. KeepsGuarded-same w.env (emit ev) (λ s. refl)

  react-KeepsGuarded :
      (k : Membership.EventType) (e : Membership.Event) → KeepsGuarded w.env (react w k e)
  unfolding react
  react-KeepsGuarded join e =
      emitting (apply_add_node w e.member) (pure tt) _ (apply_add_node-KeepsGuarded e.member)
        (KeepsGuarded-pure w.env tt)
  react-KeepsGuarded leave e =
      emitting (remove_server w e.member.id) (apply_remove_node w e.member.id) _
        (remove_server-KeepsGuarded e.member.id) (apply_remove_node-KeepsGuarded e.member.id)
  react-KeepsGuarded failed e =
      emitting (remove_server w e.member.id) (apply_remove_node w e.member.id) _
        (remove_server-KeepsGuarded e.member.id) (apply_remove_node-KeepsGuarded e.member.id)

  pub membership_event-KeepsGuarded :
      (e : Membership.Event) → KeepsGuarded w.env (membership_event w e)
  unfolding membership_event
  membership_event-KeepsGuarded e = KeepsGuarded-bind w.env (leads w) _ leads-KeepsGuarded λ lead.
      KeepsGuarded-if w.env lead _ _ (react-KeepsGuarded e.kind e) (KeepsGuarded-pure w.env tt)

  add_all-KeepsGuarded : (ms : List MemberInfo) → KeepsGuarded w.env (add_all w ms)
  unfolding add_all
  add_all-KeepsGuarded [] = KeepsGuarded-pure w.env tt
  add_all-KeepsGuarded (m ∷ ms) =
      KeepsGuarded-bind w.env (apply_add_node w m) _ (apply_add_node-KeepsGuarded m)
        λ _. add_all-KeepsGuarded ms

  pub reconcile_members-KeepsGuarded : KeepsGuarded w.env (reconcile_members w)
  unfolding reconcile_members
  reconcile_members-KeepsGuarded = KeepsGuarded-bind w.env (leads w) _ leads-KeepsGuarded λ lead.
      KeepsGuarded-if w.env lead _ _
        (KeepsGuarded-if w.env w.opts.has_membership _ _
          (KeepsGuarded-bind w.env (members w) _ members-KeepsGuarded λ ms. add_all-KeepsGuarded ms)
          (KeepsGuarded-pure w.env tt))
        (KeepsGuarded-pure w.env tt)
