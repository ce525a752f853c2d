-- ===== src/Memberlist/Safety.antt =====
-- The event channel of the membership layer, under every order of its operations.
use go_cluster.Prelude.{
  if◌then◌else◌, ℕ, ◌≤◌, Text, Bool, true, false, is_some, ap, sym, ◌∙◌, Option-cases, Option, none,
  some, Bool-cases, inl, inr, List, [], ◌∷◌, length, ◌≡◌, refl, arith, length-append,
}
use go_cluster.Membership.{Event}
use go_cluster.Channel.{offer, pushed, close}
use go_cluster.Memberlist.{
  Library, Impl, GossipNode, start, join_seeds, begin_leave, end_leave, stop, emit, notify_join,
  notify_leave,
}

-- The calls of the node, the end of the context, and the notifications of the gossip library. A call
-- of `Leave` is under way from `begins_leave` to `ends_leave`; a second one waits for the first.
pub data Action : Type 0 where
  starts begins_leave ends_leave stops : Action
  joins : List Text → Action
  sees_join : ℕ → GossipNode → Action
  sees_leave : ℕ → GossipNode → Action

-- No `Stop` falls between the two steps of a `Leave`; `under_way` says that one has begun.
abbrev pub AreApart : Bool → List Action → Type 0
AreApart under_way [] = Unit
AreApart under_way (begins_leave ∷ l) = AreApart true l
AreApart under_way (ends_leave ∷ l) = AreApart false l
AreApart under_way (stops ∷ l) = (under_way ≡ false) × AreApart under_way l
AreApart under_way (_ ∷ l) = AreApart under_way l

module _ (lib : Library) where
  -- The channel is closed when the layer is, and it holds no more than its capacity.
  pub record IsSound (m : Impl lib) : Type 0 where
    pub closing : m.evts.closed ≡ m.closed
    pub fits : length m.evts.items ≤ m.evts.capacity

  -- The layer, and the `Leave` that is under way.
  pub record System : Type 0 where
    pub impl : Impl lib
    pub leaving : Option Bool

  -- `none` when an action panics.
  abbrev with_impl : Option Bool → Option (Impl lib) → Option System
  with_impl leaving none = none
  with_impl leaving (some m) = some (record { impl = m; leaving = leaving })

  unfoldable pub step : Action → System → Option System
  step starts x = some (record x { impl = (start lib x.impl).1 })
  step begins_leave x =
      some (if is_some x.leaving then x else record x { leaving = begin_leave lib x.impl })
  step ends_leave x = with_impl none (end_leave lib x.leaving x.impl)
  step stops x = with_impl x.leaving (stop lib x.impl)
  step (joins seeds) x = some (record x { impl = (join_seeds lib seeds x.impl).1 })
  step (sees_join now n) x = some (record x { impl = notify_join lib now n x.impl })
  step (sees_leave now n) x = some (record x { impl = notify_leave lib now n x.impl })

  unfoldable pub run : List Action → System → Option System
  run [] x = some x
  run (a ∷ l) x = elim (step a x) [ none ↦ none | some x' ↦ run l x' ]

  -- A `Leave` that is under way is known to be, and began with `closed` as it still is.
  pub record IsKnown (under_way : Bool) (x : System) : Type 0 where
    pub sound : IsSound x.impl
    pub known : is_some x.leaving ≡ true → under_way ≡ true
    pub same : (c : Bool) → x.leaving ≡ some c → c ≡ x.impl.closed

  start-IsSound : (m : Impl lib) → IsSound m → IsSound (start lib m).1
  unfolding start
  start-IsSound m h = ground arith

  join_seeds-IsSound :
      (seeds : List Text) (m : Impl lib) → IsSound m → IsSound (join_seeds lib seeds m).1
  unfolding join_seeds
  join_seeds-IsSound seeds m h = ground arith

  end_leave-IsSound :
      (c : Bool) (m : Impl lib)
      → c ≡ m.closed
      → IsSound m
      → (m' : Impl lib) × (end_leave lib (some c) m ≡ some m') × IsSound m'
  unfolding end_leave
  end_leave-IsSound c m same h = elim (Option-cases m.ml) [
    | inl e ↦ (m, ground (arith, same, e), h)
    | inr (l, e) ↦ (
      record m { ml = some (lib.leave l) },
      ground (arith, same, e),
      record { closing = h.closing; fits = h.fits },
    )
  ]

  emit-IsSound : (e : Event) (m : Impl lib) → IsSound m → IsSound (emit lib e m)
  unfolding emit offer pushed
  emit-IsSound e m h = ground (arith, length-append m.evts.items (e ∷ []))

  stop-IsSound : (m : Impl lib) → IsSound m → (m' : Impl lib) × (stop lib m ≡ some m') × IsSound m'
  unfolding stop close
  stop-IsSound m h = elim (Bool-cases m.closed) [
    | inl e ↦ (m, ground arith, h)
    | inr e ↦ (
      record m { closed = true; ml = none; evts = record m.evts { closed = true } },
      ground (arith, h.closing),
      record { closing = refl; fits = h.fits },
    )
  ]

  closed-start : (m : Impl lib) → (start lib m).1.closed ≡ m.closed
  unfolding start
  closed-start m = ground arith

  closed-join_seeds :
      (seeds : List Text) (m : Impl lib) → (join_seeds lib seeds m).1.closed ≡ m.closed
  unfolding join_seeds
  closed-join_seeds seeds m = ground arith

  closed-emit : (e : Event) (m : Impl lib) → (emit lib e m).closed ≡ m.closed
  unfolding emit
  closed-emit e m = ground arith

  -- A step that keeps `closed`.
  kept-IsKnown :
      (b : Bool) (x : System) (m : Impl lib)
      → m.closed ≡ x.impl.closed
      → IsSound m
      → IsKnown b x
      → IsKnown b (record x { impl = m })
  kept-IsKnown b x m closed sound h = record {
    sound = sound;
    known = h.known;
    same = λ c e. h.same c e ∙ sym closed;
  }

  -- What follows the first action keeps its condition, and the first does not panic.
  abbrev IsSafe : Bool → List Action → Option System → Type 0
  IsSafe b l o = (x' : System) × (o ≡ some x') × (b' : Bool) × IsKnown b' x' × AreApart b' l

  begins_leave-IsKnown :
      (b : Bool) (x : System)
      → IsKnown b x
      → IsKnown true
          (if is_some x.leaving then x else record x { leaving = begin_leave lib x.impl })
  unfolding begin_leave
  begins_leave-IsKnown b x h = elim (Bool-cases (is_some x.leaving)) [
    | inl e ↦ rw e (record { sound = h.sound; known = λ p. refl; same = h.same })
    | inr e ↦ rw e (record { sound = h.sound; known = λ p. refl; same = λ c p. ground (arith, p) })
  ]

  ends_leave-IsSafe :
      (b : Bool) (l : List Action) (x : System)
      → IsKnown b x
      → AreApart false l
      → IsSafe b l (step ends_leave x)
  unfolding step end_leave
  ends_leave-IsSafe b l x h apart = elim (Option-cases x.leaving) [
    | inl e ↦ (
      record { impl = x.impl; leaving = none },
      rw (step, e) refl,
      false,
      record { sound = h.sound; known = λ p. absurd (ground (arith, p)); same = λ c p. cc },
      apart,
    )
    | inr (c, e) ↦
        let (m, f, sound) = end_leave-IsSound c x.impl (h.same c e) h.sound in
        (
          record { impl = m; leaving = none },
          rw (step, e) (ap (with_impl none) f),
          false,
          record { sound = sound; known = λ p. absurd (ground (arith, p)); same = λ c p. cc },
          apart,
        )
  ]

  stops-IsSafe :
      (b : Bool) (l : List Action) (x : System)
      → IsKnown b x
      → AreApart b (stops ∷ l)
      → IsSafe b l (step stops x)
  unfolding step
  stops-IsSafe b l x h (free, apart) =
      let (m, e, sound) = stop-IsSound x.impl h.sound in
      (
        record { impl = m; leaving = x.leaving },
        ap (with_impl x.leaving) e,
        b,
        record {
          sound = sound;
          known = h.known;
          same = λ c p. absurd (ground (arith, h.known, free, p));
        },
        apart,
      )

  step-IsSafe :
      (b : Bool) (a : Action) (l : List Action) (x : System)
      → IsKnown b x
      → AreApart b (a ∷ l)
      → IsSafe b l (step a x)
  unfolding step notify_join notify_leave
  step-IsSafe b starts l x h apart =
      (_, refl, b, kept-IsKnown b x _ (closed-start x.impl) (start-IsSound x.impl h.sound) h, apart)
  step-IsSafe b begins_leave l x h apart = (_, refl, true, begins_leave-IsKnown b x h, apart)
  step-IsSafe b ends_leave l x h apart = ends_leave-IsSafe b l x h apart
  step-IsSafe b stops l x h apart = stops-IsSafe b l x h apart
  step-IsSafe b (joins seeds) l x h apart = (
    _,
    refl,
    b,
    kept-IsKnown b x _ (closed-join_seeds seeds x.impl) (join_seeds-IsSound seeds x.impl h.sound) h,
    apart,
  )
  step-IsSafe b (sees_join now n) l x h apart = (
    _,
    refl,
    b,
    kept-IsKnown b x _ (closed-emit _ x.impl) (emit-IsSound _ x.impl h.sound) h,
    apart,
  )
  step-IsSafe b (sees_leave now n) l x h apart = (
    _,
    refl,
    b,
    kept-IsKnown b x _ (closed-emit _ x.impl) (emit-IsSound _ x.impl h.sound) h,
    apart,
  )

  -- Starts, joins, leaves, stops and notifications, in any order in which no stop falls between the
  -- two steps of a leave: no step panics, though the channel is closed by the first stop and
  -- notifications may come after it; afterwards the channel is closed if and only if the layer is,
  -- and holds no more events than its capacity.
  pub run-IsSound :
      (b : Bool) (l : List Action) (x : System)
      → IsKnown b x
      → AreApart b l
      → (x' : System) × (run l x ≡ some x') × IsSound x'.impl
  unfolding run
  run-IsSound b [] x h apart = (x, refl, h.sound)
  run-IsSound b (a ∷ l) x h apart =
      let (x', e, b', h', apart') = step-IsSafe b a l x h apart in
      rw (e, run) (run-IsSound b' l x' h' apart')
