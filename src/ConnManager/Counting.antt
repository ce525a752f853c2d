-- ===== src/ConnManager/Counting.antt =====
-- The reference counts of the cache, while goroutines get and release connections.
use go_cluster.Prelude.{
  ℕ, suc, ◌-◌, ◌<◌, Text, ◌==◌, nat_eq, text_is_eq, text_eq_iff, Option, none, some, List, [], ◌∷◌,
  ◌≡◌, refl, sym, ap, ◌∙◌, arith, if◌then◌else◌, or_zero, Option-cases, Bool-cases, inl, inr,
}
use go_cluster.GoMap.{GoMap, lookup, insert, lookup-insert}
use go_cluster.GoMap.Unique.{IsUnique, insert-IsUnique}
use go_cluster.ConnManager.{Managed, Manager, reuse, install, release, is_idle, evict, tick}

-- The cache, and how many connections of each target are out: returned by `Get`, and not released.
pub record System : Type 0 where
  pub manager : Manager
  pub held : GoMap Text ℕ

abbrev pub held_of : Text → System → ℕ
held_of t s = or_zero 0 (lookup t s.held)

-- The two parts of `Get` are separate actions, so others may come between them; a release function
-- is called once. `Close` is not an action here.
pub data Action : Type 0 where
  looks : Text → ℕ → Action
  installs : Text → ℕ → ℕ → Action
  releases : Text → ℕ → Action
  ticks : ℕ → Action

unfoldable pub step : Action → System → System
step (looks t now) s = elim (reuse t now s.manager) [
  | none ↦ s
  | some (cc, m) ↦ record { manager = m; held = insert t (suc (held_of t s)) s.held }
]
step (installs t cc now) s = record {
  manager = (install t cc now s.manager).1;
  held = insert t (suc (held_of t s)) s.held;
}
step (releases t now) s =
    if held_of t s == 0
    then s
    else record { manager = release t now s.manager; held = insert t (held_of t s - 1) s.held }
step (ticks now) s = record s { manager = tick now s.manager }

unfoldable pub run : List Action → System → System
run [] s = s
run (a ∷ l) s = run l (step a s)

abbrev pub ref_of : Option Managed → ℕ
ref_of none = 0
ref_of (some c) = c.ref

-- Every count is the number of connections that are out.
pub record IsCounted (s : System) : Type 0 where
  pub unique : IsUnique s.manager.conns
  pub counts : (t : Text) → ref_of (lookup t s.manager.conns) ≡ held_of t s

lookup-evict-none :
    (now ttl : ℕ) (t : Text) (m : GoMap Text Managed)
    → lookup t m ≡ none
    → lookup t (evict now ttl m).0 ≡ none
unfolding lookup evict
lookup-evict-none now ttl t [] h = refl
lookup-evict-none now ttl t ((a, c) ∷ m) h = ground (arith, lookup-evict-none now ttl t m)

evict-IsUnique : (now ttl : ℕ) (m : GoMap Text Managed) → IsUnique m → IsUnique (evict now ttl m).0
unfolding evict
evict-IsUnique now ttl [] u = tt
evict-IsUnique now ttl ((a, c) ∷ m) (fresh, u) =
    ground (arith, lookup-evict-none now ttl a m, evict-IsUnique now ttl m u)

-- A tick keeps each connection that is not idle, and drops the idle ones.
lookup-evict :
    (now ttl : ℕ) (t : Text) (m : GoMap Text Managed)
    → IsUnique m
    → lookup t (evict now ttl m).0
      ≡ (elim (lookup t m) [ none ↦ none | some c ↦ (if is_idle now ttl c then none else some c) ])
unfolding lookup evict
lookup-evict now ttl t [] u = refl
lookup-evict now ttl t ((a, c) ∷ m) (fresh, u) =
    ground (arith, text_eq_iff a t, lookup-evict now ttl t m u, lookup-evict-none now ttl t m)

-- One entry changes, and the number that is out with it.
insert-IsCounted :
    (t : Text) (c : Managed) (dropped : List ℕ) (s : System)
    → IsCounted s
    → IsCounted (record {
      manager = record s.manager { conns = insert t c s.manager.conns; dropped = dropped };
      held = insert t c.ref s.held;
    })
insert-IsCounted t c dropped s h = record {
  unique = insert-IsUnique t c s.manager.conns h.unique;
  counts = λ j.
      ground
        (arith, lookup-insert t j c s.manager.conns, lookup-insert t j c.ref s.held, h.counts j);
}

looks-IsCounted : (t : Text) (now : ℕ) (s : System) → IsCounted s → IsCounted (step (looks t now) s)
unfolding step reuse
looks-IsCounted t now s h = elim (Option-cases (lookup t s.manager.conns)) [
  | inl none_there ↦ rw (step, reuse, none_there) h
  | inr (c, there) ↦
      rw (step, reuse, there, sym (h.counts t) ∙ ap ref_of there)
        (insert-IsCounted t (record c { ref = suc c.ref; last_used = now }) s.manager.dropped s h)
]

installs-IsCounted :
    (t : Text) (cc now : ℕ) (s : System) → IsCounted s → IsCounted (step (installs t cc now) s)
unfolding step install reuse
installs-IsCounted t cc now s h = elim (Option-cases (lookup t s.manager.conns)) [
  | inl none_there ↦
      rw (step, install, reuse, ← h.counts t, none_there)
        (insert-IsCounted t (record { cc = cc; last_used = now; ref = 1 }) s.manager.dropped s h)
  | inr (c, there) ↦
      rw (step, install, reuse, ← h.counts t, there)
        (insert-IsCounted t (record c { ref = suc c.ref; last_used = now }) (cc ∷ s.manager.dropped)
          s h)
]

releases-IsCounted :
    (t : Text) (now : ℕ) (s : System) → IsCounted s → IsCounted (step (releases t now) s)
unfolding step release
releases-IsCounted t now s h = elim (Option-cases (lookup t s.manager.conns)) [
  | inl none_there ↦ rw (step, release, ← h.counts t, none_there) h
  | inr (c, there) ↦ elim (Bool-cases (c.ref == 0)) [
    | inl zero_out ↦ rw (step, release, ← h.counts t, there, zero_out) h
    | inr out ↦
        rw (step, release, ← h.counts t, there, out)
          (insert-IsCounted t (record c { ref = c.ref - 1; last_used = now }) s.manager.dropped s h)
  ]
]

step-IsCounted : (a : Action) (s : System) → IsCounted s → IsCounted (step a s)
unfolding step tick is_idle
step-IsCounted (looks t now) s h = looks-IsCounted t now s h
step-IsCounted (installs t cc now) s h = installs-IsCounted t cc now s h
step-IsCounted (releases t now) s h = releases-IsCounted t now s h
step-IsCounted (ticks now) s h = record {
  unique = evict-IsUnique now s.manager.ttl s.manager.conns h.unique;
  counts =
      λ t. ground (arith, lookup-evict now s.manager.ttl t s.manager.conns h.unique, h.counts t);
}

-- However goroutines that get and release connections and the janitor interleave, with any times
-- and any dialled connections, every reference count stays the number of connections of its target
-- that are out.
pub run-IsCounted : (l : List Action) (s : System) → IsCounted s → IsCounted (run l s)
unfolding run
run-IsCounted [] s h = h
run-IsCounted (a ∷ l) s h = run-IsCounted l (step a s) (step-IsCounted a s h)

-- Where the counts are right, a tick of the janitor, at whatever time, leaves the entry of a target
-- of which a connection is out exactly as it is.
pub lookup-tick :
    (now : ℕ) (t : Text) (s : System)
    → IsCounted s
    → 0 < held_of t s
    → lookup t (tick now s.manager).conns ≡ lookup t s.manager.conns
unfolding tick is_idle
lookup-tick now t s h out =
    ground (arith, lookup-evict now s.manager.ttl t s.manager.conns h.unique, h.counts t)
